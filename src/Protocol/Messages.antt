-- ===== src/Protocol/Messages.antt =====
-- protocol/message_types.hpp and protocol/messages.hpp: the messages and their codes on the wire. The
-- market-data types are codes that the order-entry decoder knows and refuses.
use order_matching_engine.Base.{
  ℕ, zero, suc, List, [], ◌∷◌, get_elem?, Option, none, some, ◌≡◌, refl,
}
use order_matching_engine.Base.Int.{ℤ}
use order_matching_engine.Common.Types.{Side, buy, sell, Price}

pub data MessageType : Type 0 where
  login new_order cancel cancel_replace heartbeat login_ack login_reject exec_report reject :
      MessageType
  l2_delta l3_order l3_fill trade_tick snapshot_start snapshot_end : MessageType

unfoldable pub type_code : MessageType → ℕ
type_code login = 1
type_code new_order = 2
type_code cancel = 3
type_code cancel_replace = 4
type_code heartbeat = 5
type_code login_ack = 6
type_code login_reject = 7
type_code exec_report = 8
type_code reject = 9
type_code l2_delta = 10
type_code l3_order = 11
type_code l3_fill = 12
type_code trade_tick = 13
type_code snapshot_start = 14
type_code snapshot_end = 15

-- The types by their codes, which begin at 1.
abbrev pub message_types : List MessageType
message_types =
    login ∷ new_order ∷ cancel ∷ cancel_replace ∷ heartbeat ∷ login_ack ∷ login_reject ∷ exec_report
    ∷ reject ∷ l2_delta ∷ l3_order ∷ l3_fill ∷ trade_tick ∷ snapshot_start ∷ snapshot_end ∷ []

-- `none` where `isKnownMessageType` is false.
unfoldable pub known_type : ℕ → Option MessageType
known_type zero = none
known_type (suc n) = get_elem? message_types n

unfoldable pub expected_payload_size : MessageType → ℕ
expected_payload_size login = 48
expected_payload_size new_order = 39
expected_payload_size cancel = 20
expected_payload_size cancel_replace = 36
expected_payload_size heartbeat = 8
expected_payload_size login_ack = 9
expected_payload_size login_reject = 2
expected_payload_size exec_report = 49
expected_payload_size reject = 17
expected_payload_size l2_delta = 34
expected_payload_size l3_order = 54
expected_payload_size l3_fill = 52
expected_payload_size trade_tick = 53
expected_payload_size snapshot_start = 20
expected_payload_size snapshot_end = 16

pub data RejectReason : Type 0 where
  malformed_frame unknown_message_type invalid_field unknown_instrument not_authenticated :
      RejectReason
  duplicate_seq sequence_gap ring_full engine_reject invalid_tif_combination : RejectReason
  auth_failed already_authenticated : RejectReason

unfoldable pub reason_code : RejectReason → ℕ
reason_code malformed_frame = 0
reason_code unknown_message_type = 1
reason_code invalid_field = 2
reason_code unknown_instrument = 3
reason_code not_authenticated = 4
reason_code duplicate_seq = 5
reason_code sequence_gap = 6
reason_code ring_full = 7
reason_code engine_reject = 8
reason_code invalid_tif_combination = 9
reason_code auth_failed = 10
reason_code already_authenticated = 11

-- ExecType.
pub data ExecType : Type 0 where
  new_ack partial_fill fill cancelled replaced : ExecType

unfoldable pub exec_code : ExecType → ℕ
exec_code new_ack = 0
exec_code partial_fill = 1
exec_code fill = 2
exec_code cancelled = 3
exec_code replaced = 4

pub data WireOrderType : Type 0 where
  limit market : WireOrderType

pub data WireTimeInForce : Type 0 where
  day ioc fok : WireTimeInForce

unfoldable pub side_code : Side → ℕ
side_code buy = 0
side_code sell = 1

unfoldable pub order_type_code : WireOrderType → ℕ
order_type_code limit = 0
order_type_code market = 1

unfoldable pub tif_code : WireTimeInForce → ℕ
tif_code day = 0
tif_code ioc = 1
tif_code fok = 2

pub record LoginMsg : Type 0 where
  pub participant_id : ℤ
  pub token : List ℕ
  pub client_seq_num : ℕ

pub record NewOrderMsg : Type 0 where
  pub client_seq_num : ℕ
  pub order_id : ℤ
  pub instrument_id : ℕ
  pub side : Side
  pub order_type : WireOrderType
  pub price : Price
  pub quantity : ℤ
  pub time_in_force : WireTimeInForce

pub record CancelMsg : Type 0 where
  pub client_seq_num : ℕ
  pub order_id : ℤ
  pub instrument_id : ℕ

pub record CancelReplaceMsg : Type 0 where
  pub client_seq_num : ℕ
  pub order_id : ℤ
  pub instrument_id : ℕ
  pub new_price : Price
  pub new_quantity : ℤ

pub record HeartbeatMsg : Type 0 where
  pub marker : ℕ

pub record LoginAckMsg : Type 0 where
  pub server_seq : ℤ
  pub status : ℕ

-- The decoder casts the byte of a reason, or of an execution type, without a test: any byte may stand
-- in these fields, so here they are their bytes.
pub record LoginRejectMsg : Type 0 where
  pub reason : ℕ
  pub reserved : ℕ

pub record ExecReportMsg : Type 0 where
  pub order_id : ℤ
  pub exec_type : ℕ
  pub exec_qty : ℤ
  pub leaves_qty : ℤ
  pub trade_price : Price
  pub trade_id : ℤ
  pub global_seq : ℤ

pub record RejectMsg : Type 0 where
  pub order_id : ℤ
  pub reason : ℕ
  pub global_seq : ℤ

pub known_type-type_code : (t : MessageType) → known_type (type_code t) ≡ some t
unfolding known_type type_code
known_type-type_code login = refl
known_type-type_code new_order = refl
known_type-type_code cancel = refl
known_type-type_code cancel_replace = refl
known_type-type_code heartbeat = refl
known_type-type_code login_ack = refl
known_type-type_code login_reject = refl
known_type-type_code exec_report = refl
known_type-type_code reject = refl
known_type-type_code l2_delta = refl
known_type-type_code l3_order = refl
known_type-type_code l3_fill = refl
known_type-type_code trade_tick = refl
known_type-type_code snapshot_start = refl
known_type-type_code snapshot_end = refl
