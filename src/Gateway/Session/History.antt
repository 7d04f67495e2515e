-- ===== src/Gateway/Session/History.antt =====
-- A session past its login, over all that may happen to it.
use order_matching_engine.Base.{
  ℕ, ◌+◌, ◌-◌, ◌≤◌, ◌≡◌, inl, inr, refl, ap, List, [], ◌∷◌, Bool, true, false, if◌then◌else◌, leb,
  arith, Bool-cases,
}
use order_matching_engine.Protocol.Encoder.{encode_heartbeat}
use order_matching_engine.Sequencer.Submit.{Append}
use order_matching_engine.Gateway.Session.{
  SessionState, awaiting_login, authenticated, closing, ClientSession, do_write, close_session,
  send_frame, on_written,
}
use order_matching_engine.Gateway.Session.Handlers.{
  Conn, on_read, retry_pending, read_failed, auth_timeout, heartbeat_tick,
}
use order_matching_engine.Gateway.Session.Same.{
  pend, Same, Same-refl, Same-trans, send_frame-Same, close_session-Same,
}
use order_matching_engine.Gateway.Session.Follows.{total, Counts-refl}
use order_matching_engine.Gateway.Session.Commands.{retry_pending-Follows}
use order_matching_engine.Gateway.Session.Loop.{
  IsPast, PastFrom, past_step, on_read-Counts, alone-Follows,
}

pub data Event : Type 0 where
  arrives : List ℕ → Event
  read_error : Event
  written : Bool → Event
  retries : Event
  login_due : Event
  heartbeat_due : Event

plain :
    (s t : ClientSession)
    → t.participant_id ≡ s.participant_id
    → t.state ≡ s.state
    → t.last_client_seq ≡ s.last_client_seq
    → t.pending ≡ s.pending
    → t.decoder ≡ s.decoder
    → Same s t
plain s t p k n h d = record {
  participant = p;
  state = inl k;
  last = n;
  held = omega (arith, ap pend h);
  decoder = d;
}

on_written-Same : (s : ClientSession) (error : Bool) → Same s (on_written s error)
unfolding on_written do_write
on_written-Same s true = close_session-Same s
on_written-Same s false = plain s _ refl refl refl refl refl

read_failed-Same : (s : ClientSession) → Same s (read_failed s)
unfolding read_failed
read_failed-Same s =
    Same-trans (plain s (record s { reading = false }) refl refl refl refl refl)
      (close_session-Same _)

auth_timeout-Same : (s : ClientSession) → Same s (auth_timeout s)
unfolding auth_timeout
auth_timeout-Same s = go s.state
  where
    go :
        (k : SessionState)
        → Same s (elim k as (λ _. ClientSession) [
          | awaiting_login ↦ close_session s
          | authenticated ↦ s
          | closing ↦ s
        ])
    go awaiting_login = close_session-Same s
    go authenticated = Same-refl s
    go closing = Same-refl s

beat-Same :
    (s : ClientSession) (frame : List ℕ)
    → Same s (
        if leb 3 (s.missed_heartbeats + 1)
        then close_session (record s { missed_heartbeats = s.missed_heartbeats + 1 })
        else send_frame (record s { missed_heartbeats = s.missed_heartbeats + 1 }) frame)
beat-Same s frame =
    let t : ClientSession = record s { missed_heartbeats = s.missed_heartbeats + 1 } in
    let up : Same s t = plain s t refl refl refl refl refl in
    elim (Bool-cases (leb 3 (s.missed_heartbeats + 1))) [
      | inl e ↦ simp e (Same-trans up (close_session-Same t))
      | inr e ↦ simp e (Same-trans up (send_frame-Same t frame))
    ]

module _ {J : Type 0} (append : Append J) where
  unfoldable pub step : ℕ → Conn J → Event → Conn J
  unfolding on_read retry_pending on_written read_failed auth_timeout heartbeat_tick
  step me c (arrives bytes) = on_read append me c bytes
  step me c read_error = record c { session = read_failed c.session }
  step me c (written error) = record c { session = on_written c.session error }
  step me c retries = retry_pending append c
  step me c login_due = record c { session = auth_timeout c.session }
  step me c heartbeat_due = record c { session = heartbeat_tick c.session }

  unfoldable pub run : ℕ → Conn J → List Event → Conn J
  unfolding step
  run me c [] = c
  run me c (e ∷ es) = run me (step me c e) es

heartbeat_tick-Same : (s : ClientSession) → Same s (heartbeat_tick s)
unfolding heartbeat_tick
heartbeat_tick-Same s = go s.state
  where
    go :
        (k : SessionState)
        → Same s (elim k as (λ _. ClientSession) [
          | closing ↦ s
          | awaiting_login ↦
              if leb 3 (s.missed_heartbeats + 1)
              then close_session (record s { missed_heartbeats = s.missed_heartbeats + 1 })
              else send_frame
                  (record s { missed_heartbeats = s.missed_heartbeats + 1 })
                  (encode_heartbeat (record { marker = 0 }))
          | authenticated ↦
              if leb 3 (s.missed_heartbeats + 1)
              then close_session (record s { missed_heartbeats = s.missed_heartbeats + 1 })
              else send_frame
                  (record s { missed_heartbeats = s.missed_heartbeats + 1 })
                  (encode_heartbeat (record { marker = 0 }))
        ])
    go awaiting_login = beat-Same s _
    go authenticated = beat-Same s _
    go closing = Same-refl s

module _ {J : Type 0} (append : Append J) where
  step-Counts :
      (me : ℕ) (c : Conn J) (e : Event) → IsPast c.session → PastFrom append c (step append me c e)
  unfolding step
  step-Counts me c (arrives bytes) past = on_read-Counts append me c bytes past
  step-Counts me c read_error past =
      past_step append (Counts-refl c, past) (alone-Follows c _ (read_failed-Same c.session)).counts
  step-Counts me c (written error) past =
      past_step append (Counts-refl c, past)
        (alone-Follows c _ (on_written-Same c.session error)).counts
  step-Counts me c retries past =
      past_step append (Counts-refl c, past) (retry_pending-Follows append c).counts
  step-Counts me c login_due past =
      past_step append (Counts-refl c, past)
        (alone-Follows c _ (auth_timeout-Same c.session)).counts
  step-Counts me c heartbeat_due past =
      past_step append (Counts-refl c, past)
        (alone-Follows c _ (heartbeat_tick-Same c.session)).counts

  run-Counts :
      (me : ℕ) (c d : Conn J) (es : List Event)
      → PastFrom append c d
      → PastFrom append c (run append me d es)
  unfolding run
  run-Counts me c d [] p = p
  run-Counts me c d (e ∷ es) p =
      run-Counts me c (step append me d e) es (past_step append p (step-Counts me d e p.1).0)

  -- Idempotence: past the login, over any events of one session and with no other session at work,
  -- the shards sequence, and the session holds back, at most as many more commands as client
  -- sequence numbers were taken; these numbers never go back, and the participant stays the one
  -- that logged in.
  pub at_most_once :
      (me : ℕ) (c : Conn J) (es : List Event)
      → IsPast c.session
      → (total (run append me c es).server + pend (run append me c es).session.pending
          ≤ total c.server
            + pend c.session.pending
            + ((run append me c es).session.last_client_seq - c.session.last_client_seq))
        × (c.session.last_client_seq ≤ (run append me c es).session.last_client_seq)
        × ((run append me c es).session.participant_id ≡ c.session.participant_id)
  at_most_once me c es past =
      let f = (run-Counts me c c es (Counts-refl c, past)).0 in
      (omega (arith, f.once, f.later), f.later, f.participant)
