-- ===== src/Gateway/Session/Fuel.antt =====
-- The bound on the rounds of the loop is never met: a round that goes on takes a frame out of the buffer.
use order_matching_engine.Base.{
  ℕ, zero, suc, ◌+◌, ◌≤◌, ◌<◌, ◌≡◌, inl, inr, refl, sym, ap, ◌∙◌, true, false, length, drop,
  length-drop, arith, Bool-cases,
}
use order_matching_engine.Protocol.Messages.{RejectReason, not_authenticated, auth_failed}
use order_matching_engine.Protocol.Encoder.{encode_login_ack}
use order_matching_engine.Protocol.Decoder.{FrameDecoder, DecodedMessage, Result, next}
use order_matching_engine.Protocol.Decoder.Stream.{
  Step, no_length, cut_short, dead, bad_length, bad_frame, takes, next-Step,
}
use order_matching_engine.Protocol.Wire.{get_u32}
use order_matching_engine.Sequencer.Submit.{Append}
use order_matching_engine.Gateway.Auth.{authenticate}
use order_matching_engine.Gateway.Server.{login_ack_seq}
use order_matching_engine.Gateway.Session.{
  SessionState, awaiting_login, authenticated, closing, close_session, send_login_reject,
  handle_heartbeat,
}
use order_matching_engine.Gateway.Session.Handlers.{
  Conn, handle_login, before_login, process_in, process_one, process_decoded,
}
use order_matching_engine.Gateway.Session.Same.{
  send_frame-Same, send_login_reject-Same, close_session-Same,
}
use order_matching_engine.Gateway.Session.Loop.{after_login-Follows}

module _ {J : Type 0} where
  refused-decoder :
      (c : Conn J) (r : RejectReason)
      → (close_session (send_login_reject c.session r)).decoder ≡ c.session.decoder
  refused-decoder c r =
      (close_session-Same (send_login_reject c.session r)).decoder
      ∙ (send_login_reject-Same c.session r).decoder

  before_login-decoder :
      (c : Conn J) (m : DecodedMessage) → (before_login c m).session.decoder ≡ c.session.decoder
  unfolding before_login handle_heartbeat handle_login
  before_login-decoder c (DecodedMessage.login m) =
      elim (Bool-cases (authenticate c.server.auth m.participant_id m.token)) [
        | inr e ↦ simp e (refused-decoder c auth_failed)
        | inl e ↦
            simp e
              (send_frame-Same
                (record c.session {
                  participant_id = m.participant_id;
                  last_client_seq = m.client_seq_num;
                  state = authenticated;
                })
                (encode_login_ack
                  (record { server_seq = login_ack_seq c.server; status = 0 }))).decoder
      ]
  before_login-decoder c (DecodedMessage.heartbeat m) = refl
  before_login-decoder c (DecodedMessage.new_order m) = refused-decoder c not_authenticated
  before_login-decoder c (DecodedMessage.cancel m) = refused-decoder c not_authenticated
  before_login-decoder c (DecodedMessage.cancel_replace m) = refused-decoder c not_authenticated
  before_login-decoder c (DecodedMessage.login_ack m) = refused-decoder c not_authenticated
  before_login-decoder c (DecodedMessage.login_reject m) = refused-decoder c not_authenticated
  before_login-decoder c (DecodedMessage.exec_report m) = refused-decoder c not_authenticated
  before_login-decoder c (DecodedMessage.reject m) = refused-decoder c not_authenticated

module _ {J : Type 0} (append : Append J) where
  process_in-decoder :
      (k : SessionState) (me : ℕ) (c : Conn J) (m : DecodedMessage)
      → (process_in append k me c m).0.session.decoder ≡ c.session.decoder
  unfolding process_in
  process_in-decoder awaiting_login me c m = before_login-decoder c m
  process_in-decoder authenticated me c m = (after_login-Follows append me c m).decoder
  process_in-decoder closing me c m = (after_login-Follows append me c m).decoder

  -- One round of the loop, with what follows it.
  abbrev round : (Conn J → Conn J) → ℕ → Conn J → FrameDecoder × Result → Conn J
  round again me c (d, Result.incomplete) = record c { session = record c.session { decoder = d } }
  round again me c (d, Result.invalid r) = record c {
    session = close_session (record c.session { decoder = d });
  }
  round again me c (d, Result.ok m) =
      let one = process_one append me (record c { session = record c.session { decoder = d } }) m in
      elim one.1 as (λ _. Conn J) [ true ↦ again one.0 | false ↦ one.0 ]

  process_decoded-round :
      (n me : ℕ) (c : Conn J)
      → process_decoded append (suc n) me c
        ≡ round (process_decoded append n me) me c (next c.session.decoder)
  unfolding process_decoded
  process_decoded-round n me c = go (next c.session.decoder).0 (next c.session.decoder).1
    where
      go :
          (d : FrameDecoder) (x : Result)
          → (elim x as (λ _. Conn J) [
            | Result.incomplete ↦ record c { session = record c.session { decoder = d } }
            | Result.invalid r ↦ record c {
              session = close_session (record c.session { decoder = d });
            }
            | Result.ok m ↦
                (let one =
                    process_one append me
                      (record c { session = record c.session { decoder = d } })
                      m in
                  elim one.1 as (λ _. Conn J) [
                    | true ↦ process_decoded append n me one.0
                    | false ↦ one.0
                  ])
          ])
            ≡ round (process_decoded append n me) me c (d, x)
      go d Result.incomplete = refl
      go d (Result.invalid r) = refl
      go d (Result.ok m) = refl

  -- The loop over the decoded messages ends by its own tests: with a bound on its rounds above the
  -- number of bytes in the buffer, every higher bound gives the same.
  pub enough_fuel :
      (n k me : ℕ) (c : Conn J)
      → length c.session.decoder.buf < n
      → n ≤ k
      → process_decoded append k me c ≡ process_decoded append n me c
  unfolding process_one
  enough_fuel zero k me c lt le = absurd (omega arith)
  enough_fuel (suc n) zero me c lt le = absurd (omega arith)
  enough_fuel (suc n) (suc k) me c lt le =
      process_decoded-round k me c
      ∙ go (λ e small. enough_fuel n k me e small (omega arith)) (next c.session.decoder)
          (next-Step c.session.decoder)
      ∙ sym (process_decoded-round n me c)
    where
      go :
          ((e : Conn J)
            → length e.session.decoder.buf < n
            → process_decoded append k me e ≡ process_decoded append n me e)
          → (w : FrameDecoder × Result) → Step c.session.decoder w
          → round (process_decoded append k me) me c w ≡ round (process_decoded append n me) me c w
      go again w (no_length t s e) = rw e refl
      go again w (cut_short t l p q s e) = rw e refl
      go again w (dead t e) = rw e refl
      go again w (bad_length t l b e) = rw e refl
      go again w (bad_frame r h f e) = rw e refl
      go again w (takes type m h p q i e) =
          let a : ℕ = 4 + get_u32 c.session.decoder.buf in
          let d : Conn J = record c {
            session = record c.session {
              decoder = record c.session.decoder { buf = drop a c.session.decoder.buf };
            };
          } in
          let one = process_one append me d m in
          let less : length one.0.session.decoder.buf < n = omega (
            arith,
            ap (λ x. length x.buf) (process_in-decoder c.session.state me d m),
            length-drop a c.session.decoder.buf,
            lt,
            h.whole,
          ) in
          rw e (elim (Bool-cases one.1) [
            | inl f ↦ rw (round, f) (again one.0 less)
            | inr f ↦ rw (round, f) refl
          ])
