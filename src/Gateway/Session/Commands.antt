-- ===== src/Gateway/Session/Commands.antt =====
-- Every command of a session moves it on as it should.
use order_matching_engine.Base.{
  ℕ, ◌+◌, ◌≡◌, inl, inr, refl, ap, ◌∙◌, none, some, ltb, leb, get_elem?, sum_by-set, arith,
  Bool-cases, Option-cases,
}
use order_matching_engine.Base.Int.{ℤ}
use order_matching_engine.Ipc.Command.{CommandKind, Command}
use order_matching_engine.Ipc.SpscRing.{try_claim}
use order_matching_engine.Protocol.Wire.{to_i64}
use order_matching_engine.Protocol.Messages.{duplicate_seq, sequence_gap, engine_reject}
use order_matching_engine.Sequencer.Submit.{
  Outcome, sequenced, ring_full, durability_failure, Sequencer, Append, append_then_publish,
  try_submit,
}
use order_matching_engine.Gateway.Server.{GatewayServer, shard_index_for, register_route}
use order_matching_engine.Gateway.Session.{
  Pending, ClientSession, stop_reading, check_client_seq, routed_id,
}
use order_matching_engine.Gateway.Session.Handlers.{
  Conn, submit_at, durability_lost, submitted, submit_or_pend, handle_command, retried,
  retry_pending,
}
use order_matching_engine.Gateway.Session.Same.{
  Same-refl, Same-trans, close_session-Same, pend, resume_reading-Same, send_new_ack-Same,
  send_reject-Same,
}
use order_matching_engine.Gateway.Session.Follows.{
  Follows, Follows-refl, Follows-trans, Same-Follows, total, total-erase_route,
  total-register_route,
}

abbrev gained : Outcome → ℕ
gained (sequenced n) = 1
gained ring_full = 0
gained durability_failure = 0

module _ {J : Type 0} (append : Append J) where
  try_submit-seq :
      (q : Sequencer J) (kind : CommandKind) (c : Command)
      → (try_submit append q kind c).0.seq ≡ q.seq + gained (try_submit append q kind c).1
  unfolding try_submit append_then_publish
  try_submit-seq q kind c = elim (Option-cases (try_claim q.ring).0) [
    | inl e ↦ rw e (omega arith)
    | inr (i, e) ↦ elim (Bool-cases (append q.journal (q.seq + 1) kind c).1) [
      | inl f ↦ rw (e, f) refl
      | inr f ↦ rw (e, f) (omega arith)
    ]
  ]

  submit_at-total :
      (v : GatewayServer J) (i : ℕ) (c : Command)
      → total (submit_at append v i c).0 ≡ total v + gained (submit_at append v i c).1
  unfolding submit_at
  submit_at-total v i c = elim (Option-cases (get_elem? v.shards i)) [
    | inl e ↦ simp e (omega arith)
    | inr (s, e) ↦
        let r = try_submit append s.sequencer c.kind c in
        simp e (
          omega (
            arith,
            sum_by-set (λ s. s.sequencer.seq) v.shards i s (record s { sequencer = r.0 }) e,
            try_submit-seq s.sequencer c.kind c,
          ))
  ]

  durability_lost-Follows :
      (c : Conn J) (cmd : Command) (i : ℕ) → Follows c (durability_lost c cmd i)
  unfolding durability_lost
  durability_lost-Follows c cmd i =
      Same-Follows
        (Same-trans (send_reject-Same c.session (to_i64 (routed_id cmd)) engine_reject)
          (close_session-Same _))
        (total-erase_route c.server i (routed_id cmd))

  submitted-Follows :
      (c : Conn J) (n : ℕ) (cmd : Command) (i : ℕ) (r : GatewayServer J × Outcome)
      → n ≡ c.session.last_client_seq + 1
      → total r.0 ≡ total c.server + gained r.1
      → Follows c (submitted (record c.session { last_client_seq = n }) cmd i r)
  unfolding submitted stop_reading
  submitted-Follows c n cmd i (v, sequenced k) fresh t =
      let a = send_new_ack-Same (record c.session { last_client_seq = n }) cmd k in
      record {
        counts = record {
          participant = a.participant;
          state = a.state;
          later = omega (arith, a.last, fresh);
          once = omega (arith, a.last, a.held, fresh, t);
        };
        decoder = a.decoder;
      }
  submitted-Follows c n cmd i (v, ring_full) fresh t = record {
    counts = record {
      participant = refl;
      state = inl refl;
      later = omega (arith, fresh);
      once = omega (arith, fresh, t);
    };
    decoder = refl;
  }
  submitted-Follows c n cmd i (v, durability_failure) fresh t =
      let d : Conn J = record { session = record c.session { last_client_seq = n }; server = v } in
      Follows-trans {b = d}
        (record {
          counts = record {
            participant = refl;
            state = inl refl;
            later = omega (arith, fresh);
            once = omega (arith, fresh, t);
          };
          decoder = refl;
        })
        (durability_lost-Follows d cmd i)

  submit_or_pend-Follows :
      (me : ℕ) (c : Conn J) (n : ℕ) (cmd : Command) (i : ℕ)
      → n ≡ c.session.last_client_seq + 1
      → Follows c (
          submit_or_pend append me
            (record c { session = record c.session { last_client_seq = n } })
            cmd
            i)
  unfolding submit_or_pend
  submit_or_pend-Follows me c n cmd i fresh =
      let v : GatewayServer J = register_route c.server i (routed_id cmd) me n in
      submitted-Follows c n cmd i (submit_at append v i cmd) fresh (
        submit_at-total v i cmd
        ∙ ap (λ k. k + gained (submit_at append v i cmd).1)
            (total-register_route c.server i (routed_id cmd) me n))

  pub handle_command-Follows :
      (me : ℕ) (c : Conn J) (n : ℕ) (id : ℤ) (instrument : ℕ) (command : ℤ → Command)
      → Follows c (handle_command append me c n id instrument command)
  unfolding handle_command check_client_seq
  handle_command-Follows me c n id instrument command =
      let s : ClientSession = c.session in
      elim (Bool-cases (leb n s.last_client_seq)) [
        | inl e ↦ simp e (Same-Follows (send_reject-Same s id duplicate_seq) refl)
        | inr e ↦ elim (Bool-cases (ltb (s.last_client_seq + 1) n)) [
          | inl f ↦
              simp (e, f)
                (Same-Follows
                  (Same-trans (send_reject-Same s id sequence_gap) (close_session-Same _)) refl)
          | inr f ↦
              let fresh : n ≡ s.last_client_seq + 1 = ground (arith, e, f) in
              elim (Option-cases (shard_index_for c.server instrument)) [
                | inl g ↦
                    let d : Conn J = record c { session = record s { last_client_seq = n } } in
                    simp (e, f, g)
                      (Follows-trans {b = d}
                        (record {
                          counts = record {
                            participant = refl;
                            state = inl refl;
                            later = omega (arith, fresh);
                            once = omega (arith, fresh);
                          };
                          decoder = refl;
                        })
                        (Same-Follows (send_reject-Same d.session id engine_reject) refl))
                | inr (i, g) ↦
                    simp (e, f, g)
                      (submit_or_pend-Follows me c n (command s.participant_id) i fresh)
              ]
        ]
      ]

  retried-Follows :
      (c : Conn J) (p : Pending) (r : GatewayServer J × Outcome)
      → c.session.pending ≡ some p
      → total r.0 ≡ total c.server + gained r.1
      → Follows c (retried c.session p.command p.shard r)
  unfolding retried
  retried-Follows c p (v, ring_full) e t = Same-Follows (Same-refl c.session) (omega (arith, t))
  retried-Follows c p (v, durability_failure) e t =
      let d : Conn J = record { session = record c.session { pending = none }; server = v } in
      Follows-trans {b = d}
        (record {
          counts = record {
            participant = refl;
            state = inl refl;
            later = omega arith;
            once = omega (arith, t);
          };
          decoder = refl;
        })
        (durability_lost-Follows d p.command p.shard)
  retried-Follows c p (v, sequenced k) e t =
      let s : ClientSession = record c.session { pending = none } in
      let a = Same-trans (send_new_ack-Same s p.command k) (resume_reading-Same _) in
      let one : pend c.session.pending ≡ 1 = ap pend e in
      record {
        counts = record {
          participant = a.participant;
          state = a.state;
          later = omega (arith, a.last);
          once = omega (arith, a.last, a.held, one, t);
        };
        decoder = a.decoder;
      }

  pub retry_pending-Follows : (c : Conn J) → Follows c (retry_pending append c)
  unfolding retry_pending
  retry_pending-Follows c = elim (Bool-cases c.session.closed) [
    | inl e ↦ simp e (Follows-refl c)
    | inr e ↦ elim (Option-cases c.session.pending) [
      | inl f ↦ simp (e, f) (Follows-refl c)
      | inr (p, f) ↦
          simp (e, f)
            (retried-Follows c p (submit_at append c.server p.shard p.command) f
              (submit_at-total c.server p.shard p.command))
    ]
  ]
