-- ===== src/Gateway/Session/Retry.antt =====
-- A command that found the ring full is kept, and goes to its own shard once there is room.
use order_matching_engine.Base.{
  ℕ, ◌+◌, ◌<◌, ◌≡◌, refl, sym, ◌∙◌, List, [], ◌∷◌, ◌++◌, true, false, none, some, length, get_elem?,
  set, arith, Bool-cases, inl, inr,
}
use order_matching_engine.Ipc.Command.{Command}
use order_matching_engine.Ipc.SpscRing.Refine.{Holds}
use order_matching_engine.Sequencer.Submit.{Outcome, Sequencer, Append, try_submit}
use order_matching_engine.Sequencer.Submit.History.{
  Submitted, full, failed, done, try_submit-Submitted,
}
use order_matching_engine.Gateway.Server.{ShardCtx}
use order_matching_engine.Gateway.Session.{
  Pending, ClientSession, do_read, send_frame, resume_reading, send_new_ack_if_applicable, is_new,
}
use order_matching_engine.Gateway.Session.Handlers.{Conn, submit_at, retried, retry_pending}

-- What an acknowledgement leaves alone.
record Acked (s t : ClientSession) : Type 0 where
  closed : t.closed ≡ s.closed
  read_suspended : t.read_suspended ≡ s.read_suspended
  pending : t.pending ≡ s.pending

send_frame-Acked : (s : ClientSession) (frame : List ℕ) → Acked s (send_frame s frame)
unfolding send_frame
send_frame-Acked s frame = elim (Bool-cases s.closed) [
  | inl e ↦ rw e (record { closed = refl; read_suspended = refl; pending = refl })
  | inr e ↦ elim (Bool-cases s.writing) [
    | inl f ↦ simp (e, f) (record { closed = sym e; read_suspended = refl; pending = refl })
    | inr f ↦ simp (e, f) (record { closed = sym e; read_suspended = refl; pending = refl })
  ]
]

send_new_ack-Acked :
    (s : ClientSession) (c : Command) (n : ℕ) → Acked s (send_new_ack_if_applicable s c n)
unfolding send_new_ack_if_applicable
send_new_ack-Acked s c n = elim (Bool-cases (is_new c.kind)) [
  | inl e ↦ simp e (send_frame-Acked s _)
  | inr e ↦ simp e (record { closed = refl; read_suspended = refl; pending = refl })
]

-- Reads again, with nothing held back.
pub record Resumed (s : ClientSession) : Type 0 where
  pub nothing_held : s.pending ≡ none
  pub not_suspended : s.read_suspended ≡ false
  pub reads : s.reading ≡ true

resume_reading-Resumed :
    (s : ClientSession)
    → s.closed ≡ false
    → s.read_suspended ≡ true
    → s.pending ≡ none
    → Resumed (resume_reading s)
unfolding resume_reading do_read
resume_reading-Resumed s e f g =
    simp (e, f) (record { nothing_held = g; not_suspended = refl; reads = refl })

module _ {J : Type 0} (append : Append J) where
  -- The session `c` with its held command has become `d`.
  pub record Retried (c : Conn J) (s : ShardCtx J) (w : List Command) (p : Pending) (d : Conn J)
      : Type 0 where
    pub after : Sequencer J
    pub resumed : Resumed d.session
    pub shards : d.server.shards ≡ set c.server.shards p.shard (record s { sequencer = after })
    pub queued : Holds after.ring (w ++ (p.command ∷ []))
    pub numbered : after.seq ≡ s.sequencer.seq + 1

  sequenced-Resumed :
      (s : ClientSession) (cmd : Command) (n : ℕ)
      → s.closed ≡ false
      → s.read_suspended ≡ true
      → Resumed (resume_reading (send_new_ack_if_applicable (record s { pending = none }) cmd n))
  sequenced-Resumed s cmd n open_ held =
      let a = send_new_ack-Acked (record s { pending = none }) cmd n in
      resume_reading-Resumed _ (a.closed ∙ open_) (a.read_suspended ∙ held) a.pending

  -- Where an open session has a command held back with its reading suspended, the ring of the
  -- command's shard has room and the journal succeeds, a retry puts the command at the end of that
  -- ring under the next number, changes no other shard, holds nothing back and reads again.
  pub retry_pending-Retried :
      (c : Conn J) (s : ShardCtx J) (w : List Command) (p : Pending)
      → c.session.closed ≡ false
      → c.session.read_suspended ≡ true
      → c.session.pending ≡ some p
      → get_elem? c.server.shards p.shard ≡ some s
      → Holds s.sequencer.ring w
      → length w < s.sequencer.ring.capacity
      → (append s.sequencer.journal (s.sequencer.seq + 1) p.command.kind p.command).1 ≡ true
      → Retried c s w p (retry_pending append c)
  unfolding retry_pending submit_at
  retry_pending-Retried c s w p open_ held e at h room durable =
      simp (open_, e, at)
        (go (try_submit append s.sequencer p.command.kind p.command)
          (try_submit-Submitted append s.sequencer w p.command.kind p.command h))
    where
      go :
          (o : Sequencer J × Outcome)
          → Submitted append s.sequencer w p.command.kind p.command o
          → Retried c s w p (
              retried c.session p.command p.shard (
                record c.server {
                  shards = set c.server.shards p.shard (record s { sequencer = o.0 });
                },
                o.1,
              ))
      go o (full r n _) = absurd (omega (arith, n, room))
      go o (failed r n _ f) = absurd (ground (arith, f, durable))
      go o (done r n q f) =
          unfold retried in
          record {
            after = o.0;
            resumed = sequenced-Resumed c.session p.command (s.sequencer.seq + 1) open_ held;
            shards = refl;
            queued = q;
            numbered = refl;
          }
