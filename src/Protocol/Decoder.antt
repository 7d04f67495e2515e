-- ===== src/Protocol/Decoder.antt =====
-- protocol/decoder.hpp and protocol/decoder.cpp: the reassembly of a stream of bytes into messages.
pub mod Calls
pub mod Stream
pub mod Vetted
pub mod RoundTrip
use order_matching_engine.Base.{
  ℕ, zero, suc, ◌+◌, ◌-◌, ◌≤◌, List, [], ◌∷◌, ◌++◌, Bool, true, false, not, ◌&&◌, ◌||◌, Option,
  none, some, ltb, leb, ◌==◌, if◌then◌else◌, elim_option, length, take, drop,
}
use order_matching_engine.Base.Int.{ℤ, pos, ltb_ℤ, leb_ℤ, eqb_ℤ}
use order_matching_engine.Common.Types.{Side, buy, sell, Price}
use order_matching_engine.Protocol.Wire.{get_u8, get_u32, get_u64, get_i64}
use order_matching_engine.Protocol.Messages.{
  MessageType, known_type, expected_payload_size, RejectReason, malformed_frame,
  unknown_message_type, invalid_field, unknown_instrument, invalid_tif_combination, WireOrderType,
  limit, market, WireTimeInForce, day, ioc, fok, LoginMsg, NewOrderMsg, CancelMsg, CancelReplaceMsg,
  HeartbeatMsg, LoginAckMsg, LoginRejectMsg, ExecReportMsg, RejectMsg,
}
use order_matching_engine.Protocol.Messages

-- The ids of an `InstrumentSet`, in the order of their arrival.
unfoldable pub has_instrument : ℕ → List ℕ → Bool
has_instrument id [] = false
has_instrument id (i ∷ is) = if i == id then true else has_instrument id is

unfoldable pub add_instrument : List ℕ → ℕ → List ℕ
add_instrument ids id =
    if has_instrument id ids || leb 64 (length ids) then ids else ids ++ (id ∷ [])

-- A `DecodedMessage` with the member that its type names.
pub data DecodedMessage : Type 0 where
  login : LoginMsg → DecodedMessage
  new_order : NewOrderMsg → DecodedMessage
  cancel : CancelMsg → DecodedMessage
  cancel_replace : CancelReplaceMsg → DecodedMessage
  heartbeat : HeartbeatMsg → DecodedMessage
  login_ack : LoginAckMsg → DecodedMessage
  login_reject : LoginRejectMsg → DecodedMessage
  exec_report : ExecReportMsg → DecodedMessage
  reject : RejectMsg → DecodedMessage

pub data Result : Type 0 where
  ok : DecodedMessage → Result
  incomplete : Result
  invalid : RejectReason → Result

-- `buf` holds the first `len_` bytes of the reassembly buffer.
pub record FrameDecoder : Type 0 where
  pub instruments : List ℕ
  pub min_price : Price
  pub max_price : Price
  pub buf : List ℕ
  pub terminal : Bool

unfoldable pub feed : FrameDecoder → List ℕ → FrameDecoder × Bool
feed d data_in =
    if d.terminal || ltb 256 (length d.buf + length data_in)
    then (d, false)
    else (record d { buf = d.buf ++ data_in }, true)

unfoldable pub consume : FrameDecoder → ℕ → FrameDecoder
consume d n = record d { buf = drop n d.buf }

unfoldable pub fail : FrameDecoder → RejectReason → FrameDecoder × Result
fail d r = (record d { terminal = true }, invalid r)

unfoldable pub valid_side : ℕ → Bool
valid_side raw = raw == 0 || raw == 1

unfoldable pub valid_wire_order_type : ℕ → Bool
valid_wire_order_type raw = raw == 0 || raw == 1

unfoldable pub valid_wire_tif : ℕ → Bool
valid_wire_tif raw = raw == 0 || (raw == 1 || raw == 2)

-- The casts, used behind the tests above.
unfoldable pub side_of_code : ℕ → Side
side_of_code zero = buy
side_of_code (suc n) = sell

unfoldable pub order_type_of_code : ℕ → WireOrderType
order_type_of_code zero = limit
order_type_of_code (suc n) = market

unfoldable pub tif_of_code : ℕ → WireTimeInForce
tif_of_code zero = day
tif_of_code (suc zero) = ioc
tif_of_code (suc (suc n)) = fok

unfoldable pub outside : FrameDecoder → Price → Bool
outside d p = ltb_ℤ p d.min_price || ltb_ℤ d.max_price p

-- The tests of a payload: what is wrong with it, if anything.
unfoldable pub tif_refused : WireOrderType → WireTimeInForce → Bool
tif_refused market fok = true
tif_refused _ _ = false

unfoldable pub price_refused : FrameDecoder → WireOrderType → Price → Bool
price_refused d limit p = outside d p
price_refused d market p = not (eqb_ℤ p (pos 0)) && outside d p

unfoldable pub order_refused : FrameDecoder → NewOrderMsg → Option RejectReason
order_refused d m =
    if not (has_instrument m.instrument_id d.instruments)
    then some unknown_instrument
    else if leb_ℤ m.quantity (pos 0)
    then some invalid_field
    else if tif_refused m.order_type m.time_in_force
    then some invalid_tif_combination
    else if price_refused d m.order_type m.price
    then some invalid_field
    else none

unfoldable pub read_new_order : List ℕ → NewOrderMsg
read_new_order p = record {
  client_seq_num = get_u64 p;
  order_id = get_i64 (drop 8 p);
  instrument_id = get_u32 (drop 16 p);
  side = side_of_code (get_u8 (drop 20 p));
  order_type = order_type_of_code (get_u8 (drop 21 p));
  price = get_i64 (drop 22 p);
  quantity = get_i64 (drop 30 p);
  time_in_force = tif_of_code (get_u8 (drop 38 p));
}

unfoldable pub codes_refused : List ℕ → Bool
codes_refused p =
    not (valid_side (get_u8 (drop 20 p)))
    || (not (valid_wire_order_type (get_u8 (drop 21 p)))
        || not (valid_wire_tif (get_u8 (drop 38 p))))

unfoldable pub read_cancel : List ℕ → CancelMsg
read_cancel p = record {
  client_seq_num = get_u64 p;
  order_id = get_i64 (drop 8 p);
  instrument_id = get_u32 (drop 16 p);
}

unfoldable pub cancel_refused : FrameDecoder → CancelMsg → Option RejectReason
cancel_refused d m =
    if has_instrument m.instrument_id d.instruments then none else some unknown_instrument

unfoldable pub read_cancel_replace : List ℕ → CancelReplaceMsg
read_cancel_replace p = record {
  client_seq_num = get_u64 p;
  order_id = get_i64 (drop 8 p);
  instrument_id = get_u32 (drop 16 p);
  new_price = get_i64 (drop 20 p);
  new_quantity = get_i64 (drop 28 p);
}

unfoldable pub replace_refused : FrameDecoder → CancelReplaceMsg → Option RejectReason
replace_refused d m =
    if not (has_instrument m.instrument_id d.instruments)
    then some unknown_instrument
    else if leb_ℤ m.new_quantity (pos 0) || outside d m.new_price
    then some invalid_field
    else none

unfoldable pub read_login : List ℕ → LoginMsg
read_login p = record {
  participant_id = get_i64 p;
  token = take 32 (drop 8 p);
  client_seq_num = get_u64 (drop 40 p);
}

unfoldable pub read_exec_report : List ℕ → ExecReportMsg
read_exec_report p = record {
  order_id = get_i64 p;
  exec_type = get_u8 (drop 8 p);
  exec_qty = get_i64 (drop 9 p);
  leaves_qty = get_i64 (drop 17 p);
  trade_price = get_i64 (drop 25 p);
  trade_id = get_i64 (drop 33 p);
  global_seq = get_i64 (drop 41 p);
}

unfoldable pub read_reject : List ℕ → RejectMsg
read_reject p = record {
  order_id = get_i64 p;
  reason = get_u8 (drop 8 p);
  global_seq = get_i64 (drop 9 p);
}

unfoldable pub refuse_or : Option RejectReason → DecodedMessage → Result
refuse_or (some r) m = invalid r
refuse_or none m = ok m

-- Step 6: the payload of a frame of the right size.
unfoldable pub decode_payload : FrameDecoder → MessageType → List ℕ → Result
decode_payload d Messages.login p = ok (login (read_login p))
decode_payload d Messages.new_order p =
    if codes_refused p
    then invalid invalid_field
    else refuse_or (order_refused d (read_new_order p)) (new_order (read_new_order p))
decode_payload d Messages.cancel p =
    refuse_or (cancel_refused d (read_cancel p)) (cancel (read_cancel p))
decode_payload d Messages.cancel_replace p =
    refuse_or (replace_refused d (read_cancel_replace p)) (cancel_replace (read_cancel_replace p))
decode_payload d Messages.heartbeat p = ok (heartbeat (record { marker = get_u64 p }))
decode_payload d Messages.login_ack p =
    ok (login_ack (record { server_seq = get_i64 p; status = get_u8 (drop 8 p) }))
decode_payload d Messages.login_reject p =
    ok (login_reject (record { reason = get_u8 p; reserved = get_u8 (drop 1 p) }))
decode_payload d Messages.exec_report p = ok (exec_report (read_exec_report p))
decode_payload d Messages.reject p = ok (reject (read_reject p))
decode_payload d _ p = invalid unknown_message_type

-- Step 7, or the failure.
unfoldable pub finish : FrameDecoder → ℕ → Result → FrameDecoder × Result
finish d total (ok m) = (consume d total, ok m)
finish d total incomplete = (d, incomplete)
finish d total (invalid r) = fail d r

-- Steps 4 to 7, on the bytes of a whole frame with the length `len`.
unfoldable pub decode_frame : FrameDecoder → ℕ → FrameDecoder × Result
decode_frame d len =
    elim_option (known_type (get_u8 (drop 4 d.buf))) (fail d unknown_message_type) λ type.
      if len == 1 + expected_payload_size type
      then finish d (4 + len) (decode_payload d type (drop 5 d.buf))
      else fail d malformed_frame

unfoldable pub next : FrameDecoder → FrameDecoder × Result
next d =
    if d.terminal
    then fail d malformed_frame
    else if ltb (length d.buf) 4
    then (d, incomplete)
    else if ltb (get_u32 d.buf) 1 || ltb 64 (get_u32 d.buf)
    then fail d malformed_frame
    else if ltb (length d.buf) (4 + get_u32 d.buf)
    then (d, incomplete)
    else decode_frame d (get_u32 d.buf)
