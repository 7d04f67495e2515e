-- ===== src/Tests/Gateway.antt =====
-- gateway/ at small inputs.
use order_matching_engine.Base.{
  ℕ, ◌+◌, ◌-◌, ◌≤◌, ◌≡◌, ◌↔◌, inl, refl, sym, ap, List, [], ◌∷◌, ◌++◌, true, false, Option, none,
  some, replicate, Bool, ◌==◌, length, arith,
}
use order_matching_engine.Base.Int.{pos}
use order_matching_engine.Common.Types.{buy, sell}
use order_matching_engine.Engine.Order
use order_matching_engine.Ipc.Command.{Command, CommandKind}
use order_matching_engine.Ipc.SpscRing.{empty_ring, try_claim, write_slot, publish}
use order_matching_engine.Ipc.SpscRing.Refine.{empty_ring-Holds}
use order_matching_engine.Protocol.Messages.{
  WireOrderType, WireTimeInForce, known_type, type_code, expected_payload_size, side_code,
  order_type_code, tif_code, reason_code, exec_code,
}
use order_matching_engine.Protocol.Wire.{
  put_u8, put_u32, put_u64, put_i64, put_bytes, get_u8, get_u32, get_u64, get_i64, get_bytes,
  to_u64, to_i64,
}
use order_matching_engine.Protocol.Decoder.{
  feed, next, fail, decode_frame, decode_payload, finish, consume, read_login, read_new_order,
  codes_refused, order_refused, refuse_or, has_instrument, tif_refused, price_refused, outside,
  valid_side, valid_wire_order_type, valid_wire_tif, side_of_code, order_type_of_code, tif_of_code,
}
use order_matching_engine.Protocol.Encoder.{
  encode_login, encode_new_order, encode_login_ack, encode_exec_report, encode_reject, write_header,
}
use order_matching_engine.Sequencer.Submit.{Append, try_submit, append_then_publish}
use order_matching_engine.Gateway.Auth.{
  AuthHandler, authenticate, found, find_token, token_diff, authenticate_iff,
}
use order_matching_engine.Gateway.Server.{
  ShardCtx, GatewayServer, shard_index_for, index_from, login_ack_seq, at_shard, register_route,
  drop_route,
}
use order_matching_engine.Gateway.Session.{
  authenticated, Pending, new_session, check_client_seq, close_session, send_frame, do_write,
  do_read, send_reject, send_login_reject, send_new_ack_if_applicable, is_new, new_order_command,
  order_type_of, routed_id,
}
use order_matching_engine.Gateway.Session.Handlers.{
  Conn, on_read, process_decoded, process_one, process_in, before_login, after_login, handle_login,
  handle_new_order, handle_command, submit_or_pend, submitted, submit_at, read_on, retry_pending,
}
use order_matching_engine.Gateway.Session.Same.{pend}
use order_matching_engine.Gateway.Session.Follows.{total}
use order_matching_engine.Gateway.Session.History.{
  Event, arrives, retries, heartbeat_due, step, run, at_most_once,
}
use order_matching_engine.Gateway.Session.Gate.{Gated, on_read-Gated}
use order_matching_engine.Gateway.Session.Fuel.{enough_fuel}
use order_matching_engine.Gateway.Session.Retry.{Retried, retry_pending-Retried}
use order_matching_engine.Ipc.OutboundEvent.{OutboundEvent, trade}
use order_matching_engine.Gateway.Router.{
  route_one, route_payload, route_trade, route_exec_report, dropped, find_route,
}
use order_matching_engine.Gateway.Router.Addressed.{Routed, reports, route_one-Routed}

abbrev secret : List ℕ
secret = replicate 32 7

abbrev users : AuthHandler
users = record { creds = record { participant = pos 5; token = secret } ∷ [] }

secret-length : (t : List ℕ) → find_token users.creds (pos 5) ≡ some t → length t ≡ 32
unfolding find_token
secret-length t e = ap (λ o. length_of o) (sym e)
  where
    length_of : Option (List ℕ) → ℕ
    length_of none = 0
    length_of (some x) = length x

authenticate_iff_example :
    (authenticate users (pos 5) secret ≡ true) ↔ (find_token users.creds (pos 5) ≡ some secret)
authenticate_iff_example = authenticate_iff users (pos 5) secret secret-length

-- A journal that never fails, known by the number of its records.
abbrev counting : Append ℕ
counting j n kind c = (j + 1, true)

abbrev no_command : Command
no_command = record {
  id = 0;
  new_id = 0;
  price = pos 0;
  quantity = pos 0;
  participant = 0;
  kind = CommandKind.new;
  side = buy;
  order_type = Order.limit;
}

abbrev shard : ShardCtx ℕ
shard = record {
  instrument_id = 3;
  sequencer = record { journal = 0; ring = empty_ring 2 no_command; seq = 0 };
  routes = [];
  dropped_routes = 0;
}

abbrev server : GatewayServer ℕ
server = record { auth = users; shards = shard ∷ [] }

abbrev login_frame : List ℕ
login_frame = encode_login (record { participant_id = pos 5; token = secret; client_seq_num = 10 })

abbrev order_frame : ℕ → List ℕ
order_frame n = encode_new_order (record {
  client_seq_num = n;
  order_id = pos 77;
  instrument_id = 3;
  side = sell;
  order_type = WireOrderType.limit;
  price = pos 100;
  quantity = pos 4;
  time_in_force = WireTimeInForce.day;
})

abbrev waiting : Conn ℕ
waiting = record { session = new_session (3 ∷ []) (pos 1) (pos 1000); server = server }

on_read-Gated_example :
    Gated server
      (feed waiting.session.decoder (login_frame ++ order_frame 11)).0
      (on_read counting 0 waiting (login_frame ++ order_frame 11))
unfolding new_session
on_read-Gated_example = on_read-Gated counting 0 waiting (login_frame ++ order_frame 11) refl

-- Logged in, with 10 as the last number.
abbrev ready : Conn ℕ
ready = record {
  session = record (new_session (3 ∷ []) (pos 1) (pos 1000)) {
    state = authenticated;
    participant_id = pos 5;
    last_client_seq = 10;
  };
  server = server;
}

-- The same order arrives twice.
abbrev twice : List Event
twice = arrives (order_frame 11) ∷ arrives (order_frame 11) ∷ retries ∷ heartbeat_due ∷ []

at_most_once_example :
    (total (run counting 0 ready twice).server + pend (run counting 0 ready twice).session.pending
      ≤ total server
        + pend ready.session.pending
        + ((run counting 0 ready twice).session.last_client_seq - 10))
    × (10 ≤ (run counting 0 ready twice).session.last_client_seq)
    × ((run counting 0 ready twice).session.participant_id ≡ pos 5)
unfolding new_session
at_most_once_example = at_most_once counting 0 ready twice (inl refl)

enough_fuel_example : process_decoded counting 9 0 ready ≡ process_decoded counting 1 0 ready
unfolding new_session
enough_fuel_example = enough_fuel counting 1 9 0 ready (omega arith) (omega arith)

-- An order is held back, and there is room again.
abbrev held : Pending
held = record { command = no_command; shard = 0 }

abbrev suspended : Conn ℕ
suspended = record ready {
  session = record ready.session { pending = some held; read_suspended = true };
}

retry_pending-Retried_example :
    Retried counting suspended shard [] held (retry_pending counting suspended)
unfolding new_session empty_ring
retry_pending-Retried_example =
    retry_pending-Retried counting suspended shard [] held refl refl refl refl
      (empty_ring-Holds 2 no_command (omega arith)) (omega arith) refl

-- Login, an order, and the order again: one command in sequence, and three frames back.
session_test :
    let c =
      run counting 0 waiting
        (arrives (login_frame ++ order_frame 11) ∷ arrives (order_frame 11) ∷ []) in
    (total c.server ≡ 1)
    × (c.session.last_client_seq ≡ 11)
    × (length c.session.pending_writes ≡ 3)
    × (c.session.closed ≡ false)
unfolding run step on_read process_decoded process_one process_in before_login after_login
    handle_login handle_new_order handle_command submit_or_pend submitted submit_at check_client_seq
    new_session close_session send_frame do_write do_read read_on send_reject send_login_reject
    send_new_ack_if_applicable is_new new_order_command order_type_of routed_id shard_index_for
    index_from login_ack_seq at_shard register_route drop_route try_submit append_then_publish
    try_claim write_slot publish empty_ring authenticate found find_token token_diff feed next fail
    decode_frame decode_payload finish consume read_login read_new_order codes_refused order_refused
    refuse_or has_instrument tif_refused price_refused outside valid_side valid_wire_order_type
    valid_wire_tif side_of_code order_type_of_code tif_of_code known_type type_code
    expected_payload_size encode_login encode_new_order encode_login_ack encode_exec_report
    encode_reject write_header put_u8 put_u32 put_u64 put_i64 put_bytes get_u8 get_u32 get_u64
    get_i64 get_bytes to_u64 to_i64 side_code order_type_code tif_code reason_code exec_code
session_test = (refl, refl, refl, refl)

-- A fill between an order of session 4, which is gone, and one of session 9.
abbrev routed : ShardCtx ℕ
routed = record shard {
  routes =
      record { order_id = 1; session = 4; client_seq_num = 1 }
      ∷ record { order_id = 2; session = 9; client_seq_num = 1 }
      ∷ [];
}

abbrev here : ℕ → Bool
here n = n == 9

abbrev filled : OutboundEvent
filled = record {
  payload = trade (record {
    id = 1;
    aggressor_id = 1;
    passive_id = 2;
    price = pos 100;
    quantity = 3;
    aggressor_side = buy;
  });
  global_seq = 12;
}

route_one_test :
    (length (route_one here routed filled).1 ≡ 1)
    × ((route_one here routed filled).0.dropped_routes ≡ 1)
unfolding route_one route_payload route_trade route_exec_report dropped find_route
route_one_test = (refl, refl)

route_one-Routed_example :
    Routed here routed (reports filled.payload filled.global_seq) (route_one here routed filled)
route_one-Routed_example = route_one-Routed here routed filled
