-- ===== src/Gateway/Session/Loop.antt =====
-- The loop over the messages, and whole histories of a session.
use order_matching_engine.Base.{
  ℕ, zero, suc, ◌≡◌, ◌⊎◌, inl, inr, refl, ◌∙◌, List, true, false, length, arith, Bool-cases,
}
use order_matching_engine.Protocol.Messages.{already_authenticated}
use order_matching_engine.Protocol.Decoder.{FrameDecoder, DecodedMessage, Result, feed, next}
use order_matching_engine.Sequencer.Submit.{Append}
use order_matching_engine.Gateway.Session.{
  new_order_command, cancel_command, cancel_replace_command, SessionState, awaiting_login,
  authenticated, closing, ClientSession, close_session, handle_heartbeat,
}
use order_matching_engine.Gateway.Session.Handlers.{
  Conn, after_login, handle_new_order, handle_cancel, handle_cancel_replace, process_in,
  process_one, process_decoded, read_on, on_read,
}
use order_matching_engine.Gateway.Session.Same.{
  Same, Same-trans, close_session-Same, send_login_reject-Same,
}
use order_matching_engine.Gateway.Session.Follows.{
  Counts, Counts-refl, Counts-trans, Follows, Follows-refl, Same-Follows,
}
use order_matching_engine.Gateway.Session.Commands.{handle_command-Follows}

-- Past the login, or closed.
abbrev pub IsPast : ClientSession → Type 0
IsPast s = (s.state ≡ authenticated) ⊎ (s.state ≡ closing)

module _ {J : Type 0} where
  pub Counts-IsPast : (c d : Conn J) → Counts c d → IsPast c.session → IsPast d.session
  Counts-IsPast c d f (inl e) = go f.state
    where
      go : (d.session.state ≡ c.session.state) ⊎ (d.session.state ≡ closing) → IsPast d.session
      go (inl g) = inl (g ∙ e)
      go (inr g) = inr g
  Counts-IsPast c d f (inr e) = go f.state
    where
      go : (d.session.state ≡ c.session.state) ⊎ (d.session.state ≡ closing) → IsPast d.session
      go (inl g) = inr (g ∙ e)
      go (inr g) = inr g

  -- A step of the session that leaves the server alone.
  pub alone-Follows :
      (c : Conn J) (t : ClientSession) → Same c.session t → Follows c (record c { session = t })
  alone-Follows c t a = Same-Follows a refl

  decoder-Counts :
      (c : Conn J) (d : FrameDecoder)
      → Counts c (record c { session = record c.session { decoder = d } })
  decoder-Counts c d = record {
    participant = refl;
    state = inl refl;
    later = omega arith;
    once = omega arith;
  }

  pub read_on-Follows : (c : Conn J) → Follows c (read_on c)
  unfolding read_on
  read_on-Follows c = elim (Bool-cases c.session.closed) [
    | inl e ↦ simp e (Follows-refl c)
    | inr e ↦ elim (Bool-cases c.session.read_suspended) [
      | inl f ↦
          simp (e, f)
            (Same-Follows
              (record {
                participant = refl;
                state = inl refl;
                last = refl;
                held = omega arith;
                decoder = refl;
              })
              refl)
      | inr f ↦
          simp (e, f)
            (Same-Follows
              (record {
                participant = refl;
                state = inl refl;
                last = refl;
                held = omega arith;
                decoder = refl;
              })
              refl)
    ]
  ]

module _ {J : Type 0} (append : Append J) where
  pub after_login-Follows :
      (me : ℕ) (c : Conn J) (m : DecodedMessage) → Follows c (after_login append me c m)
  unfolding after_login handle_new_order handle_cancel handle_cancel_replace handle_heartbeat
  after_login-Follows me c (DecodedMessage.new_order m) =
      handle_command-Follows append me c m.client_seq_num m.order_id m.instrument_id
        (λ p. new_order_command p m)
  after_login-Follows me c (DecodedMessage.cancel m) =
      handle_command-Follows append me c m.client_seq_num m.order_id m.instrument_id
        (λ p. cancel_command p m)
  after_login-Follows me c (DecodedMessage.cancel_replace m) =
      handle_command-Follows append me c m.client_seq_num m.order_id m.instrument_id
        (λ p. cancel_replace_command p m)
  after_login-Follows me c (DecodedMessage.heartbeat m) = alone-Follows c _ (record {
    participant = refl;
    state = inl refl;
    last = refl;
    held = omega arith;
    decoder = refl;
  })
  after_login-Follows me c (DecodedMessage.login m) =
      alone-Follows c _
        (Same-trans (send_login_reject-Same c.session already_authenticated) (close_session-Same _))
  after_login-Follows me c (DecodedMessage.login_ack m) =
      alone-Follows c _ (close_session-Same c.session)
  after_login-Follows me c (DecodedMessage.login_reject m) =
      alone-Follows c _ (close_session-Same c.session)
  after_login-Follows me c (DecodedMessage.exec_report m) =
      alone-Follows c _ (close_session-Same c.session)
  after_login-Follows me c (DecodedMessage.reject m) =
      alone-Follows c _ (close_session-Same c.session)

  process_in-Follows :
      (k : SessionState) (me : ℕ) (c : Conn J) (m : DecodedMessage)
      → (k ≡ authenticated) ⊎ (k ≡ closing)
      → Follows c (process_in append k me c m).0
  unfolding process_in
  process_in-Follows awaiting_login me c m (inl e) = absurd (ground (arith, e))
  process_in-Follows awaiting_login me c m (inr e) = absurd (ground (arith, e))
  process_in-Follows authenticated me c m past = after_login-Follows me c m
  process_in-Follows closing me c m past = after_login-Follows me c m

  pub process_one-Follows :
      (me : ℕ) (c : Conn J) (m : DecodedMessage)
      → IsPast c.session
      → Follows c (process_one append me c m).0
  unfolding process_one
  process_one-Follows me c m past = process_in-Follows c.session.state me c m past

  -- What every round keeps, the loop keeps; `Q` is what is left of it where the loop ends. A round
  -- starts with a call of `next`.
  pub process_decoded-rounds :
      (me : ℕ) (P Q : Conn J → Type 0)
      → ((c : Conn J) → P c → Q c)
      → ((c : Conn J)
          → P c
          → Q (record c { session = record c.session { decoder = (next c.session.decoder).0 } }))
      → ((c : Conn J)
          → P c
          → Q (record c {
            session = close_session (record c.session { decoder = (next c.session.decoder).0 });
          }))
      → ((c : Conn J) (m : DecodedMessage)
          → P c
          → (next c.session.decoder).1 ≡ Result.ok m
          → (let d : Conn J = record c {
            session = record c.session { decoder = (next c.session.decoder).0 };
          } in
              ((process_one append me d m).1 ≡ true → P (process_one append me d m).0)
              × Q (process_one append me d m).0))
      → (n : ℕ) (c : Conn J) → P c
      → Q (process_decoded append n me c)
  unfolding process_decoded
  process_decoded-rounds me P Q done ends close one zero c p = done c p
  process_decoded-rounds me P Q done ends close one (suc n) c p =
      go (process_decoded-rounds me P Q done ends close one n) (next c.session.decoder).1 refl
    where
      go :
          ((e : Conn J) → P e → Q (process_decoded append n me e))
          → (x : Result) → (next c.session.decoder).1 ≡ x
          → (let d : Conn J = record c {
            session = record c.session { decoder = (next c.session.decoder).0 };
          } in
              Q (elim x as (λ _. Conn J) [
                | Result.incomplete ↦ d
                | Result.invalid r ↦ record d { session = close_session d.session }
                | Result.ok m ↦ elim (process_one append me d m).1 as (λ _. Conn J) [
                  | true ↦ process_decoded append n me (process_one append me d m).0
                  | false ↦ (process_one append me d m).0
                ]
              ]))
      go again Result.incomplete e = ends c p
      go again (Result.invalid r) e = close c p
      go again (Result.ok m) e =
          let d : Conn J = record c {
            session = record c.session { decoder = (next c.session.decoder).0 };
          } in
          elim (Bool-cases (process_one append me d m).1) [
            | inl f ↦ simp f (again (process_one append me d m).0 ((one c m p e).0 f))
            | inr f ↦ simp f (one c m p e).1
          ]

  abbrev pub PastFrom : Conn J → Conn J → Type 0
  PastFrom c d = Counts c d × IsPast d.session

  pub past_step : {c d e : Conn J} → PastFrom c d → Counts d e → PastFrom c e
  past_step {d} {e} p f = (Counts-trans p.0 f, Counts-IsPast d e f p.1)

  pub process_decoded-Counts :
      (n me : ℕ) (c : Conn J) → IsPast c.session → PastFrom c (process_decoded append n me c)
  process_decoded-Counts n me c past =
      process_decoded-rounds me (PastFrom c) (PastFrom c) (λ d p. p) read
        (λ d p. past_step (read d p) (alone-Follows _ _ (close_session-Same _)).counts)
        (λ d m p e.
          let q = past_step (read d p) (process_one-Follows me _ m p.1).counts in (λ _. q, q))
        n c (Counts-refl c, past)
    where
      read :
          (d : Conn J)
          → PastFrom c d
          → PastFrom c
              (record d { session = record d.session { decoder = (next d.session.decoder).0 } })
      read d p = past_step p (decoder-Counts d _)

  pub on_read-Counts :
      (me : ℕ) (c : Conn J) (bytes : List ℕ)
      → IsPast c.session
      → PastFrom c (on_read append me c bytes)
  unfolding on_read
  on_read-Counts me c bytes past =
      let d : Conn J = record c {
        session = record c.session {
          reading = false;
          missed_heartbeats = 0;
          decoder = (feed c.session.decoder bytes).0;
        };
      } in
      let begun : PastFrom c d = (
        record { participant = refl; state = inl refl; later = omega arith; once = omega arith },
        past,
      ) in
      elim (Bool-cases (feed c.session.decoder bytes).1) [
        | inr e ↦ simp e (past_step begun (alone-Follows d _ (close_session-Same d.session)).counts)
        | inl e ↦
            let f = process_decoded-Counts (suc (length d.session.decoder.buf)) me d past in
            simp e (past_step (past_step begun f.0) (read_on-Follows _).counts)
      ]
