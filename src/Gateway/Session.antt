-- ===== src/Gateway/Session.antt =====
-- gateway/session.hpp and gateway/session.cpp: one connection and its state machine. A handler takes
-- the session with the server and gives both. The socket is known by what comes of it: the bytes of a
-- completed read, the end of a write, the ends of the two timers.
pub mod Handlers
pub mod Same
pub mod Follows
pub mod Commands
pub mod Loop
pub mod History
pub mod Gate
pub mod Fuel
pub mod Retry
use order_matching_engine.Base.{
  ℕ, zero, suc, ◌+◌, List, [], ◌∷◌, ◌++◌, Bool, true, false, not, ◌&&◌, ◌||◌, Option, none, some,
  ltb, leb, if◌then◌else◌, elim_option, length, drop, get_elem?, set,
}
use order_matching_engine.Base.Int.{ℤ, pos}
use order_matching_engine.Common.Types.{Price, buy}
use order_matching_engine.Engine.Order.{OrderType}
use order_matching_engine.Engine.Order
use order_matching_engine.Ipc.Command.{CommandKind, Command}
use order_matching_engine.Protocol.Wire.{to_u64, to_i64}
use order_matching_engine.Protocol.Messages.{
  RejectReason, reason_code, not_authenticated, duplicate_seq, sequence_gap, engine_reject,
  auth_failed, already_authenticated, exec_code, new_ack, WireOrderType, WireTimeInForce, LoginMsg,
  NewOrderMsg, CancelMsg, CancelReplaceMsg,
}
use order_matching_engine.Protocol.Messages
use order_matching_engine.Protocol.Encoder.{
  encode_heartbeat, encode_login_ack, encode_login_reject, encode_exec_report, encode_reject,
}
use order_matching_engine.Protocol.Decoder.{FrameDecoder, DecodedMessage, Result, feed, next}
use order_matching_engine.Protocol.Decoder
use order_matching_engine.Sequencer.Submit.{
  Outcome, sequenced, ring_full, durability_failure, Append, try_submit,
}
use order_matching_engine.Gateway.Auth.{authenticate}
use order_matching_engine.Gateway.Server.{
  GatewayServer, shard_index_for, login_ack_seq, at_shard, register_route, erase_route,
}

pub data SessionState : Type 0 where
  awaiting_login authenticated closing : SessionState

-- The command that found the ring full, and its shard. The kind is that of the command.
pub record Pending : Type 0 where
  pub command : Command
  pub shard : ℕ

-- `reading` says that a read of the socket is under way, `writing` that a write is.
pub record ClientSession : Type 0 where
  pub decoder : FrameDecoder
  pub reading : Bool
  pub writing : Bool
  pub pending_writes : List (List ℕ)
  pub state : SessionState
  pub participant_id : ℤ
  pub last_client_seq : ℕ
  pub read_suspended : Bool
  pub closed : Bool
  pub pending : Option Pending
  pub missed_heartbeats : ℕ

unfoldable pub new_session : List ℕ → Price → Price → ClientSession
new_session instruments low high = record {
  decoder = record {
    instruments = instruments;
    min_price = low;
    max_price = high;
    buf = [];
    terminal = false;
  };
  reading = false;
  writing = false;
  pending_writes = [];
  state = awaiting_login;
  participant_id = pos 0;
  last_client_seq = 0;
  read_suspended = false;
  closed = false;
  pending = none;
  missed_heartbeats = 0;
}

unfoldable pub do_read : ClientSession → ClientSession
do_read s = if s.closed || s.read_suspended then s else record s { reading = true }

unfoldable pub start : ClientSession → ClientSession
unfolding do_read
start s = do_read s

unfoldable pub close_session : ClientSession → ClientSession
close_session s = if s.closed then s else record s { closed = true; state = closing }

-- The write of the frame in front is under way as long as there is one.
unfoldable pub do_write : ClientSession → ClientSession
do_write s = record s {
  writing = elim s.pending_writes as (λ _. Bool) [ [] ↦ false | _ ∷ _ ↦ true ];
}

unfoldable pub send_frame : ClientSession → List ℕ → ClientSession
unfolding do_write
send_frame s frame =
    if s.closed
    then s
    else (let t : ClientSession = record s { pending_writes = s.pending_writes ++ (frame ∷ []) } in
        if t.writing then t else do_write t)

-- The end of the write of a frame; `true` is an error.
unfoldable pub on_written : ClientSession → Bool → ClientSession
unfolding close_session do_write
on_written s true = close_session s
on_written s false = do_write (record s { pending_writes = drop 1 s.pending_writes })

unfoldable pub stop_reading : ClientSession → ClientSession
stop_reading s = record s { read_suspended = true }

unfoldable pub resume_reading : ClientSession → ClientSession
unfolding do_read
resume_reading s =
    if not s.read_suspended || s.closed then s else do_read (record s { read_suspended = false })

unfoldable pub send_login_reject : ClientSession → RejectReason → ClientSession
unfolding send_frame reason_code encode_login_reject
send_login_reject s r =
    send_frame s (encode_login_reject (record { reason = reason_code r; reserved = 0 }))

unfoldable pub send_reject : ClientSession → ℤ → RejectReason → ClientSession
unfolding send_frame reason_code encode_reject
send_reject s id r =
    send_frame s
      (encode_reject (record { order_id = id; reason = reason_code r; global_seq = pos 0 }))

unfoldable pub is_new : CommandKind → Bool
is_new CommandKind.new = true
is_new CommandKind.cancel = false
is_new CommandKind.replace = false

unfoldable pub send_new_ack_if_applicable : ClientSession → Command → ℕ → ClientSession
unfolding is_new send_frame exec_code encode_exec_report
send_new_ack_if_applicable s c seq =
    if is_new c.kind
    then send_frame s (
        encode_exec_report (record {
          order_id = to_i64 c.id;
          exec_type = exec_code new_ack;
          exec_qty = pos 0;
          leaves_qty = c.quantity;
          trade_price = pos 0;
          trade_id = pos 0;
          global_seq = pos seq;
        }))
    else s

unfoldable pub handle_heartbeat : ClientSession → ClientSession
handle_heartbeat s = record s { missed_heartbeats = 0 }

-- `true`: the command is the next one and is to be submitted.
unfoldable pub check_client_seq : ClientSession → ℕ → ℤ → ClientSession × Bool
unfolding send_reject close_session
check_client_seq s n id =
    if leb n s.last_client_seq
    then (send_reject s id duplicate_seq, false)
    else if ltb (s.last_client_seq + 1) n
    then (close_session (send_reject s id sequence_gap), false)
    else (record s { last_client_seq = n }, true)

-- The wire's order type and time in force make the engine's order type.
unfoldable pub order_type_of : WireOrderType → WireTimeInForce → OrderType
order_type_of WireOrderType.market _ = OrderType.market
order_type_of WireOrderType.limit WireTimeInForce.day = OrderType.limit
order_type_of WireOrderType.limit WireTimeInForce.ioc = OrderType.ioc
order_type_of WireOrderType.limit WireTimeInForce.fok = OrderType.fok

-- The commands that the handlers make. An id is known by its 64 bits; a field that the handler leaves
-- alone is zero.
unfoldable pub new_order_command : ℤ → NewOrderMsg → Command
unfolding order_type_of
new_order_command participant m = record {
  id = to_u64 m.order_id;
  new_id = 0;
  price = m.price;
  quantity = m.quantity;
  participant = to_u64 participant;
  kind = CommandKind.new;
  side = m.side;
  order_type = order_type_of m.order_type m.time_in_force;
}

unfoldable pub cancel_command : ℤ → CancelMsg → Command
cancel_command participant m = record {
  id = to_u64 m.order_id;
  new_id = 0;
  price = pos 0;
  quantity = pos 0;
  participant = to_u64 participant;
  kind = CommandKind.cancel;
  side = buy;
  order_type = OrderType.limit;
}

unfoldable pub cancel_replace_command : ℤ → CancelReplaceMsg → Command
cancel_replace_command participant m = record {
  id = to_u64 m.order_id;
  new_id = to_u64 m.order_id;
  price = m.new_price;
  quantity = m.new_quantity;
  participant = to_u64 participant;
  kind = CommandKind.replace;
  side = buy;
  order_type = OrderType.limit;
}

unfoldable pub routed_id : Command → ℕ
routed_id c = elim c.kind as (λ _. ℕ) [
  | CommandKind.new ↦ c.id
  | CommandKind.cancel ↦ c.id
  | CommandKind.replace ↦ c.new_id
]
