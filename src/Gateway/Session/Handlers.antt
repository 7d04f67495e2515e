-- ===== src/Gateway/Session/Handlers.antt =====
-- gateway/session.cpp: the handlers, which reach the server. `me` is the number of the session.
use order_matching_engine.Base.{
  ℕ, zero, suc, ◌+◌, List, Bool, true, false, not, ◌||◌, none, some, leb, if◌then◌else◌,
  elim_option, length, get_elem?, set,
}
use order_matching_engine.Base.Int.{ℤ}
use order_matching_engine.Ipc.Command.{Command}
use order_matching_engine.Protocol.Wire.{to_i64}
use order_matching_engine.Protocol.Messages.{
  not_authenticated, engine_reject, auth_failed, already_authenticated, LoginMsg, NewOrderMsg,
  CancelMsg, CancelReplaceMsg,
}
use order_matching_engine.Protocol.Encoder.{encode_heartbeat, encode_login_ack}
use order_matching_engine.Protocol.Decoder.{DecodedMessage, Result, feed, next}
use order_matching_engine.Sequencer.Submit.{
  Outcome, sequenced, ring_full, durability_failure, Append, try_submit,
}
use order_matching_engine.Gateway.Auth.{authenticate}
use order_matching_engine.Gateway.Server.{
  GatewayServer, shard_index_for, login_ack_seq, at_shard, register_route, erase_route,
}
use order_matching_engine.Gateway.Session.{
  SessionState, awaiting_login, authenticated, closing, ClientSession, do_read, close_session,
  send_frame, stop_reading, resume_reading, send_login_reject, send_reject,
  send_new_ack_if_applicable, handle_heartbeat, check_client_seq, new_order_command, cancel_command,
  cancel_replace_command, routed_id,
}

pub record Conn (J : Type 0) : Type 0 where
  pub session : ClientSession
  pub server : GatewayServer J

module _ {J : Type 0} where
  unfoldable pub handle_login : Conn J → LoginMsg → Conn J
  unfolding send_login_reject close_session send_frame encode_login_ack login_ack_seq
  handle_login c m =
      if not (authenticate c.server.auth m.participant_id m.token)
      then record c { session = close_session (send_login_reject c.session auth_failed) }
      else record c {
        session =
            send_frame
              (record c.session {
                participant_id = m.participant_id;
                last_client_seq = m.client_seq_num;
                state = authenticated;
              })
              (encode_login_ack (record { server_seq = login_ack_seq c.server; status = 0 }));
      }

  unfoldable pub durability_lost : Conn J → Command → ℕ → Conn J
  unfolding routed_id erase_route send_reject close_session
  durability_lost c cmd shard = record {
    session = close_session (send_reject c.session (to_i64 (routed_id cmd)) engine_reject);
    server = erase_route c.server shard (routed_id cmd);
  }

  unfoldable pub submitted : ClientSession → Command → ℕ → GatewayServer J × Outcome → Conn J
  unfolding send_new_ack_if_applicable stop_reading durability_lost
  submitted s cmd shard (v, sequenced n) = record {
    session = send_new_ack_if_applicable s cmd n;
    server = v;
  }
  submitted s cmd shard (v, ring_full) = record {
    session = stop_reading (record s { pending = some (record { command = cmd; shard = shard }) });
    server = v;
  }
  submitted s cmd shard (v, durability_failure) =
      durability_lost (record { session = s; server = v }) cmd shard

  unfoldable pub retried : ClientSession → Command → ℕ → GatewayServer J × Outcome → Conn J
  unfolding send_new_ack_if_applicable resume_reading durability_lost
  retried s cmd shard (v, ring_full) = record { session = s; server = v }
  retried s cmd shard (v, durability_failure) =
      durability_lost (record { session = record s { pending = none }; server = v }) cmd shard
  retried s cmd shard (v, sequenced n) = record {
    session = resume_reading (send_new_ack_if_applicable (record s { pending = none }) cmd n);
    server = v;
  }

  -- A message of a session that waits for a login.
  unfoldable pub before_login : Conn J → DecodedMessage → Conn J
  unfolding handle_login handle_heartbeat send_login_reject close_session
  before_login c (DecodedMessage.login m) = handle_login c m
  before_login c (DecodedMessage.heartbeat m) = record c { session = handle_heartbeat c.session }
  before_login c _ = record c {
    session = close_session (send_login_reject c.session not_authenticated);
  }

  unfoldable pub read_on : Conn J → Conn J
  unfolding do_read
  read_on c = if c.session.closed then c else record c { session = do_read c.session }

module _ {J : Type 0} (append : Append J) where
  -- `trySubmit` of the shard's sequencer. There is a shard at the index.
  unfoldable pub submit_at : GatewayServer J → ℕ → Command → GatewayServer J × Outcome
  unfolding at_shard try_submit
  submit_at v i cmd =
      elim_option (get_elem? v.shards i) (v, ring_full)
        (λ s.
          let r = try_submit append s.sequencer cmd.kind cmd in
          (record v { shards = set v.shards i (record s { sequencer = r.0 }) }, r.1))

  unfoldable pub submit_or_pend : ℕ → Conn J → Command → ℕ → Conn J
  unfolding submitted submit_at register_route routed_id
  submit_or_pend me c cmd shard = submitted c.session cmd shard (
      submit_at (register_route c.server shard (routed_id cmd) me c.session.last_client_seq) shard
        cmd)

  -- What the three order handlers share: the sequence check, the shard, the command.
  unfoldable pub handle_command : ℕ → Conn J → ℕ → ℤ → ℕ → (ℤ → Command) → Conn J
  unfolding check_client_seq shard_index_for submit_or_pend send_reject
  handle_command me c n id instrument command =
      let checked = check_client_seq c.session n id in
      if not checked.1
      then record c { session = checked.0 }
      else elim_option (shard_index_for c.server instrument)
          (record c { session = send_reject checked.0 id engine_reject })
          (λ i.
            submit_or_pend me (record c { session = checked.0 }) (command checked.0.participant_id)
              i)

  unfoldable pub handle_new_order : ℕ → Conn J → NewOrderMsg → Conn J
  unfolding handle_command new_order_command
  handle_new_order me c m =
      handle_command me c m.client_seq_num m.order_id m.instrument_id (λ p. new_order_command p m)

  unfoldable pub handle_cancel : ℕ → Conn J → CancelMsg → Conn J
  unfolding handle_command cancel_command
  handle_cancel me c m =
      handle_command me c m.client_seq_num m.order_id m.instrument_id (λ p. cancel_command p m)

  unfoldable pub handle_cancel_replace : ℕ → Conn J → CancelReplaceMsg → Conn J
  unfolding handle_command cancel_replace_command
  handle_cancel_replace me c m =
      handle_command me c m.client_seq_num m.order_id m.instrument_id
        (λ p. cancel_replace_command p m)

  unfoldable pub retry_pending : Conn J → Conn J
  unfolding retried submit_at
  retry_pending c =
      if c.session.closed
      then c
      else elim_option c.session.pending c
          (λ p. retried c.session p.command p.shard (submit_at c.server p.shard p.command))

  unfoldable pub after_login : ℕ → Conn J → DecodedMessage → Conn J
  unfolding handle_new_order handle_cancel handle_cancel_replace handle_heartbeat send_login_reject
      close_session
  after_login me c (DecodedMessage.new_order m) = handle_new_order me c m
  after_login me c (DecodedMessage.cancel m) = handle_cancel me c m
  after_login me c (DecodedMessage.cancel_replace m) = handle_cancel_replace me c m
  after_login me c (DecodedMessage.heartbeat m) = record c { session = handle_heartbeat c.session }
  after_login me c (DecodedMessage.login m) = record c {
    session = close_session (send_login_reject c.session already_authenticated);
  }
  after_login me c _ = record c { session = close_session c.session }

  -- One message, and whether the loop goes on.
  unfoldable pub process_in : SessionState → ℕ → Conn J → DecodedMessage → Conn J × Bool
  unfolding before_login after_login
  process_in awaiting_login me c m = let d = before_login c m in (d, not d.session.closed)
  process_in _ me c m =
      let d = after_login me c m in (d, not (d.session.closed || d.session.read_suspended))

  unfoldable pub process_one : ℕ → Conn J → DecodedMessage → Conn J × Bool
  unfolding process_in
  process_one me c m = process_in c.session.state me c m

  -- The loop, with a bound on its rounds.
  unfoldable pub process_decoded : ℕ → ℕ → Conn J → Conn J
  unfolding process_one close_session
  process_decoded zero me c = c
  process_decoded (suc n) me c =
      let got = next c.session.decoder in
      let d : Conn J = record c { session = record c.session { decoder = got.0 } } in
      elim got.1 as (λ _. Conn J) [
        | Result.incomplete ↦ d
        | Result.invalid r ↦ record d { session = close_session d.session }
        | Result.ok m ↦
            let one = process_one me d m in
            elim one.1 as (λ _. Conn J) [ true ↦ process_decoded n me one.0 | false ↦ one.0 ]
      ]

  unfoldable pub on_read : ℕ → Conn J → List ℕ → Conn J
  unfolding process_decoded read_on close_session
  on_read me c bytes =
      let fed = feed c.session.decoder bytes in
      let d : Conn J = record c {
        session = record c.session { reading = false; missed_heartbeats = 0; decoder = fed.0 };
      } in
      if not fed.1
      then record d { session = close_session d.session }
      else read_on (process_decoded (suc (length d.session.decoder.buf)) me d)

-- A read that fails.
unfoldable pub read_failed : ClientSession → ClientSession
unfolding close_session
read_failed s = close_session (record s { reading = false })

-- The end of the timer for the login, where it has not been cancelled.
unfoldable pub auth_timeout : ClientSession → ClientSession
unfolding close_session
auth_timeout s = elim s.state as (λ _. ClientSession) [
  | awaiting_login ↦ close_session s
  | authenticated ↦ s
  | closing ↦ s
]

unfoldable pub heartbeat_tick : ClientSession → ClientSession
unfolding close_session send_frame encode_heartbeat
heartbeat_tick s =
    let t : ClientSession = record s { missed_heartbeats = s.missed_heartbeats + 1 } in
    elim s.state as (λ _. ClientSession) [
      | closing ↦ s
      | awaiting_login ↦
          if leb 3 t.missed_heartbeats
          then close_session t
          else send_frame t (encode_heartbeat (record { marker = 0 }))
      | authenticated ↦
          if leb 3 t.missed_heartbeats
          then close_session t
          else send_frame t (encode_heartbeat (record { marker = 0 }))
    ]
