-- ===== src/Gateway/Session/Same.antt =====
-- The steps of a session that take no sequence number.
use order_matching_engine.Base.{
  ℕ, ◌≤◌, ◌≡◌, ◌⊎◌, inl, inr, refl, ◌∙◌, List, false, not, ◌||◌, Option, none, some, arith,
  Bool-cases,
}
use order_matching_engine.Base.Int.{ℤ}
use order_matching_engine.Ipc.Command.{Command}
use order_matching_engine.Protocol.Messages.{RejectReason}
use order_matching_engine.Gateway.Session.{
  SessionState, closing, Pending, ClientSession, do_read, close_session, send_frame, resume_reading,
  send_login_reject, send_reject, send_new_ack_if_applicable, is_new,
}

abbrev pub pend : Option Pending → ℕ
pend none = 0
pend (some p) = 1

-- A step of the session that takes no sequence number and holds back no further command.
pub record Same (s t : ClientSession) : Type 0 where
  pub participant : t.participant_id ≡ s.participant_id
  pub state : (t.state ≡ s.state) ⊎ (t.state ≡ closing)
  pub last : t.last_client_seq ≡ s.last_client_seq
  pub held : pend t.pending ≤ pend s.pending
  pub decoder : t.decoder ≡ s.decoder

pub Same-refl : (s : ClientSession) → Same s s
Same-refl s = record {
  participant = refl;
  state = inl refl;
  last = refl;
  held = omega arith;
  decoder = refl;
}

pub or_closing :
    {a b c : SessionState}
    → (b ≡ a) ⊎ (b ≡ closing)
    → (c ≡ b) ⊎ (c ≡ closing)
    → (c ≡ a) ⊎ (c ≡ closing)
or_closing (inl e) (inl f) = inl (f ∙ e)
or_closing (inr e) (inl f) = inr (f ∙ e)
or_closing e (inr f) = inr f

pub Same-trans : {s t u : ClientSession} → Same s t → Same t u → Same s u
Same-trans a b = record {
  participant = b.participant ∙ a.participant;
  state = or_closing a.state b.state;
  last = b.last ∙ a.last;
  held = omega (arith, a.held, b.held);
  decoder = b.decoder ∙ a.decoder;
}

pub send_frame-Same : (s : ClientSession) (frame : List ℕ) → Same s (send_frame s frame)
unfolding send_frame
send_frame-Same s frame = elim (Bool-cases s.closed) [
  | inl e ↦ simp e (Same-refl s)
  | inr e ↦ elim (Bool-cases s.writing) [
    | inl f ↦
        simp (e, f)
          (record {
            participant = refl;
            state = inl refl;
            last = refl;
            held = omega arith;
            decoder = refl;
          })
    | inr f ↦
        simp (e, f)
          (record {
            participant = refl;
            state = inl refl;
            last = refl;
            held = omega arith;
            decoder = refl;
          })
  ]
]

pub close_session-Same : (s : ClientSession) → Same s (close_session s)
unfolding close_session
close_session-Same s = elim (Bool-cases s.closed) [
  | inl e ↦ simp e (Same-refl s)
  | inr e ↦ simp e (record {
    participant = refl;
    state = inr refl;
    last = refl;
    held = omega arith;
    decoder = refl;
  })
]

pub send_reject-Same : (s : ClientSession) (id : ℤ) (r : RejectReason) → Same s (send_reject s id r)
unfolding send_reject
send_reject-Same s id r = send_frame-Same s _

pub send_login_reject-Same : (s : ClientSession) (r : RejectReason) → Same s (send_login_reject s r)
unfolding send_login_reject
send_login_reject-Same s r = send_frame-Same s _

pub send_new_ack-Same :
    (s : ClientSession) (c : Command) (n : ℕ) → Same s (send_new_ack_if_applicable s c n)
unfolding send_new_ack_if_applicable
send_new_ack-Same s c n = elim (Bool-cases (is_new c.kind)) [
  | inl e ↦ simp e (send_frame-Same s _)
  | inr e ↦ simp e (Same-refl s)
]

pub do_read-Same : (s : ClientSession) → Same s (do_read s)
unfolding do_read
do_read-Same s = elim (Bool-cases (s.closed || s.read_suspended)) [
  | inl e ↦ simp e (Same-refl s)
  | inr e ↦ simp e (record {
    participant = refl;
    state = inl refl;
    last = refl;
    held = omega arith;
    decoder = refl;
  })
]

pub resume_reading-Same : (s : ClientSession) → Same s (resume_reading s)
unfolding resume_reading
resume_reading-Same s = elim (Bool-cases (not s.read_suspended || s.closed)) [
  | inl e ↦ simp e (Same-refl s)
  | inr e ↦ simp e (
      Same-trans {t = record s { read_suspended = false }}
        (record {
          participant = refl;
          state = inl refl;
          last = refl;
          held = omega arith;
          decoder = refl;
        })
        (do_read-Same _))
]
