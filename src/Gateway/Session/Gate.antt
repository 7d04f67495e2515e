-- ===== src/Gateway/Session/Gate.antt =====
-- What a session may do before its login.
use order_matching_engine.Base.{
  ℕ, suc, ◌≡◌, ◌⊎◌, inl, inr, refl, sym, ap, ◌∙◌, List, true, false, not, length, arith, Bool-cases,
}
use order_matching_engine.Protocol.Messages.{
  LoginMsg, HeartbeatMsg, RejectReason, not_authenticated, auth_failed,
}
use order_matching_engine.Protocol.Decoder.{FrameDecoder, DecodedMessage, ok, feed, next}
use order_matching_engine.Protocol.Encoder.{encode_login_ack}
use order_matching_engine.Sequencer.Submit.{Append}
use order_matching_engine.Gateway.Auth.{authenticate}
use order_matching_engine.Gateway.Server.{GatewayServer, login_ack_seq}
use order_matching_engine.Gateway.Session.{
  SessionState, awaiting_login, authenticated, closing, ClientSession, close_session, send_frame,
  send_login_reject, handle_heartbeat,
}
use order_matching_engine.Gateway.Session.Handlers.{
  Conn, handle_login, before_login, process_in, process_one, process_decoded, read_on, on_read,
}
use order_matching_engine.Gateway.Session.Same.{send_frame-Same, close_session-Same}
use order_matching_engine.Gateway.Session.Follows.{Counts}
use order_matching_engine.Gateway.Session.Loop.{
  IsPast, Counts-IsPast, process_one-Follows, process_decoded-rounds, read_on-Follows,
  alone-Follows,
}

close_session-closed : (s : ClientSession) → (close_session s).closed ≡ true
unfolding close_session
close_session-closed s = elim (Bool-cases s.closed) [ inl e ↦ simp e refl | inr e ↦ simp e refl ]

-- The first message that the decoder gives, heartbeats aside, is the login `m`.
pub data Opens : FrameDecoder → LoginMsg → Type 0 where
  at_once : (d : FrameDecoder) (m : LoginMsg) → (next d).1 ≡ ok (DecodedMessage.login m) → Opens d m
  after_heartbeat :
      (d : FrameDecoder) (m : LoginMsg) (h : HeartbeatMsg)
      → (next d).1 ≡ ok (DecodedMessage.heartbeat h)
      → Opens (next d).0 m
      → Opens d m

-- So far there were heartbeats alone.
abbrev Quiet : FrameDecoder → FrameDecoder → Type 0
Quiet i d = (m : LoginMsg) → Opens d m → Opens i m

-- What a message says of the input, `d` being the decoder behind it.
abbrev Said : FrameDecoder → FrameDecoder → DecodedMessage → Type 0
Said i d (DecodedMessage.login m) = Opens i m
Said i d (DecodedMessage.heartbeat h) = Quiet i d
Said i d _ = i ≡ i

next-Said :
    (i d : FrameDecoder) (m : DecodedMessage) → Quiet i d → (next d).1 ≡ ok m → Said i (next d).0 m
next-Said i d (DecodedMessage.login m) q e = q m (at_once d m e)
next-Said i d (DecodedMessage.heartbeat h) q e = λ m o. q m (after_heartbeat d m h e o)
next-Said i d (DecodedMessage.new_order m) q e = refl
next-Said i d (DecodedMessage.cancel m) q e = refl
next-Said i d (DecodedMessage.cancel_replace m) q e = refl
next-Said i d (DecodedMessage.login_ack m) q e = refl
next-Said i d (DecodedMessage.login_reject m) q e = refl
next-Said i d (DecodedMessage.exec_report m) q e = refl
next-Said i d (DecodedMessage.reject m) q e = refl

module _ {J : Type 0} where
  -- The first message of the input, heartbeats aside, was a login with a token that the server knows
  -- for its participant, and the session is that participant's.
  abbrev pub LoggedIn : GatewayServer J → FrameDecoder → Conn J → Type 0
  LoggedIn v i d =
      (m : LoginMsg) × Opens i m
      × (authenticate v.auth m.participant_id m.token ≡ true)
      × (d.session.participant_id ≡ m.participant_id)
      × IsPast d.session

  abbrev Waiting : GatewayServer J → FrameDecoder → Conn J → Type 0
  Waiting v i d =
      ((d.session.state ≡ awaiting_login) × (d.server ≡ v) × Quiet i d.session.decoder)
      ⊎ LoggedIn v i d

  abbrev pub Gated : GatewayServer J → FrameDecoder → Conn J → Type 0
  Gated v i d = (d.server ≡ v) ⊎ LoggedIn v i d

  Waiting-Gated :
      (v : GatewayServer J) (i : FrameDecoder) (d : Conn J) → Waiting v i d → Gated v i d
  Waiting-Gated v i d (inl p) = inl p.1
  Waiting-Gated v i d (inr l) = inr l

  LoggedIn-Counts :
      (v : GatewayServer J) (i : FrameDecoder) (c d : Conn J)
      → Counts c d
      → LoggedIn v i c
      → LoggedIn v i d
  LoggedIn-Counts v i c d f l = (l.0, l.1, l.2, f.participant ∙ l.3, Counts-IsPast c d f l.4)

  refused-Gated :
      (v : GatewayServer J) (i : FrameDecoder) (c : Conn J) (r : RejectReason)
      → c.server ≡ v
      → (let d : Conn J = record c { session = close_session (send_login_reject c.session r) } in
          (not d.session.closed ≡ true → Waiting v i d) × Gated v i d)
  refused-Gated v i c r s =
      (λ f. absurd (ground (arith, close_session-closed (send_login_reject c.session r), f)), inl s)

  handle_login-Gated :
      (v : GatewayServer J) (i : FrameDecoder) (c : Conn J) (m : LoginMsg)
      → c.session.state ≡ awaiting_login
      → c.server ≡ v
      → Opens i m
      → (not (handle_login c m).session.closed ≡ true → Waiting v i (handle_login c m))
        × Gated v i (handle_login c m)
  unfolding handle_login
  handle_login-Gated v i c m a s o =
      elim (Bool-cases (authenticate c.server.auth m.participant_id m.token)) [
        | inr e ↦ simp e (refused-Gated v i c auth_failed s)
        | inl e ↦
            let t : ClientSession = record c.session {
              participant_id = m.participant_id;
              last_client_seq = m.client_seq_num;
              state = authenticated;
            } in
            let f =
              send_frame-Same t
                (encode_login_ack (record { server_seq = login_ack_seq c.server; status = 0 })) in
            let known : authenticate v.auth m.participant_id m.token ≡ true =
              ap (λ w. authenticate w.auth m.participant_id m.token) (sym s) ∙ e in
            let l : LoggedIn v i (record c {
              session =
                  send_frame t
                    (encode_login_ack (record { server_seq = login_ack_seq c.server; status = 0 }));
            }) =
              (m, o, known, f.participant, f.state) in
            simp e ((λ _. inr l), inr l)
      ]

  before_login-Gated :
      (v : GatewayServer J) (i : FrameDecoder) (c : Conn J) (m : DecodedMessage)
      → c.session.state ≡ awaiting_login
      → c.server ≡ v
      → Said i c.session.decoder m
      → (not (before_login c m).session.closed ≡ true → Waiting v i (before_login c m))
        × Gated v i (before_login c m)
  unfolding before_login handle_heartbeat
  before_login-Gated v i c (DecodedMessage.login m) a s o = handle_login-Gated v i c m a s o
  before_login-Gated v i c (DecodedMessage.heartbeat m) a s o = (λ _. inl (a, s, o), inl s)
  before_login-Gated v i c (DecodedMessage.new_order m) a s o =
      refused-Gated v i c not_authenticated s
  before_login-Gated v i c (DecodedMessage.cancel m) a s o = refused-Gated v i c not_authenticated s
  before_login-Gated v i c (DecodedMessage.cancel_replace m) a s o =
      refused-Gated v i c not_authenticated s
  before_login-Gated v i c (DecodedMessage.login_ack m) a s o =
      refused-Gated v i c not_authenticated s
  before_login-Gated v i c (DecodedMessage.login_reject m) a s o =
      refused-Gated v i c not_authenticated s
  before_login-Gated v i c (DecodedMessage.exec_report m) a s o =
      refused-Gated v i c not_authenticated s
  before_login-Gated v i c (DecodedMessage.reject m) a s o = refused-Gated v i c not_authenticated s

module _ {J : Type 0} (append : Append J) (v : GatewayServer J) (i : FrameDecoder) where
  process_in-Gated :
      (k : SessionState) (me : ℕ) (c : Conn J) (m : DecodedMessage)
      → k ≡ awaiting_login
      → c.session.state ≡ awaiting_login
      → c.server ≡ v
      → Said i c.session.decoder m
      → ((process_in append k me c m).1 ≡ true → Waiting v i (process_in append k me c m).0)
        × Gated v i (process_in append k me c m).0
  unfolding process_in
  process_in-Gated awaiting_login me c m e a s o = before_login-Gated v i c m a s o
  process_in-Gated authenticated me c m e a s o = absurd (ground (arith, e))
  process_in-Gated closing me c m e a s o = absurd (ground (arith, e))

  process_one-Gated :
      (me : ℕ) (c : Conn J) (m : DecodedMessage)
      → Waiting v i c
      → (next c.session.decoder).1 ≡ ok m
      → (let d : Conn J = record c {
        session = record c.session { decoder = (next c.session.decoder).0 };
      } in
          ((process_one append me d m).1 ≡ true → Waiting v i (process_one append me d m).0)
          × Gated v i (process_one append me d m).0)
  unfolding process_one
  process_one-Gated me c m (inl p) e =
      let d : Conn J = record c {
        session = record c.session { decoder = (next c.session.decoder).0 };
      } in
      process_in-Gated c.session.state me d m p.0 p.0 p.1 (next-Said i c.session.decoder m p.2 e)
  process_one-Gated me c m (inr l) e =
      let d : Conn J = record c {
        session = record c.session { decoder = (next c.session.decoder).0 };
      } in
      let q : LoggedIn v i (process_one append me d m).0 =
        LoggedIn-Counts v i d _ (process_one-Follows append me d m l.4).counts l in
      (λ _. inr q, inr q)

  process_decoded-Gated :
      (n me : ℕ) (c : Conn J) → Waiting v i c → Gated v i (process_decoded append n me c)
  process_decoded-Gated n me c w =
      process_decoded-rounds append me (Waiting v i) (Gated v i) (Waiting-Gated v i)
        (λ d p. ends d p) (λ d p. close d p) (λ d m p e. process_one-Gated me d m p e) n c w
    where
      ends :
          (d : Conn J)
          → Waiting v i d
          → Gated v i
              (record d { session = record d.session { decoder = (next d.session.decoder).0 } })
      ends d (inl p) = inl p.1
      ends d (inr l) = inr (l.0, l.1, l.2, l.3, l.4)

      close :
          (d : Conn J)
          → Waiting v i d
          → Gated v i (record d {
            session = close_session (record d.session { decoder = (next d.session.decoder).0 });
          })
      close d (inl p) = inl p.1
      close d (inr l) =
          let e : Conn J = record d {
            session = record d.session { decoder = (next d.session.decoder).0 };
          } in
          inr (LoggedIn-Counts v i e _ (alone-Follows e _ (close_session-Same e.session)).counts l)

module _ {J : Type 0} (append : Append J) where
  -- Whatever bytes come, a session that waits for a login leaves the server alone, unless the
  -- first message of its buffer and these bytes, heartbeats aside, is a login whose token the
  -- server knows for its participant; and then the session is that participant's, past its login.
  pub on_read-Gated :
      (me : ℕ) (c : Conn J) (bytes : List ℕ)
      → c.session.state ≡ awaiting_login
      → Gated c.server (feed c.session.decoder bytes).0 (on_read append me c bytes)
  unfolding on_read read_on
  on_read-Gated me c bytes a =
      let d : Conn J = record c {
        session = record c.session {
          reading = false;
          missed_heartbeats = 0;
          decoder = (feed c.session.decoder bytes).0;
        };
      } in
      elim (Bool-cases (feed c.session.decoder bytes).1) [
        | inr e ↦ simp e (inl refl)
        | inl e ↦ simp e (
            goes_on (process_decoded append (suc (length d.session.decoder.buf)) me d) (
              process_decoded-Gated append c.server d.session.decoder
                (suc (length d.session.decoder.buf)) me d (inl (a, refl, λ m o. o))))
      ]
    where
      goes_on :
          (d : Conn J)
          → Gated c.server (feed c.session.decoder bytes).0 d
          → Gated c.server (feed c.session.decoder bytes).0 (read_on d)
      goes_on d (inr l) = inr (
          LoggedIn-Counts c.server (feed c.session.decoder bytes).0 d _ (read_on-Follows d).counts
            l)
      goes_on d (inl e) = elim (Bool-cases d.session.closed) [
        | inl f ↦ simp f (inl e)
        | inr f ↦ simp f (inl e)
      ]
