-- ===== src/Protocol/Decoder/RoundTrip.antt =====
-- What the encoder writes, the decoder reads.
use order_matching_engine.Base.{
  ℕ, zero, suc, ◌+◌, ◌/◌, ◌%◌, ◌≤◌, ◌<◌, ◌^◌, ◌≡◌, refl, ap, ◌∙◌, List, [], ◌∷◌, ◌++◌, true, false,
  not, ◌||◌, none, some, ltb, ◌==◌, elim_option, length, drop, length-append, arith,
}
use order_matching_engine.Common.Types.{Side, buy, sell, Price}
use order_matching_engine.Protocol.Wire.{
  put_u8, put_u32, put_u64, put_i64, put_bytes, get_u8, get_u32, IsI64, get_u32-put_u32,
  get_u64-put_u64, get_i64-put_i64, get_u8-put_u8,
}
use order_matching_engine.Protocol.Messages.{
  MessageType, type_code, known_type, known_type-type_code, expected_payload_size, NewOrderMsg,
  CancelMsg, CancelReplaceMsg, LoginMsg, ExecReportMsg, side_code, order_type_code, tif_code,
  WireOrderType, WireTimeInForce, limit, market, day, ioc, fok,
}
use order_matching_engine.Protocol.Messages
use order_matching_engine.Protocol.Encoder.{write_header, encode_new_order}
use order_matching_engine.Protocol.Decoder.{
  FrameDecoder, ok, new_order, consume, finish, decode_frame, decode_payload, next, refuse_or,
  price_refused, outside, read_new_order, order_refused, codes_refused, side_of_code,
  order_type_of_code, tif_of_code, valid_side, valid_wire_order_type, valid_wire_tif,
}

-- A decoder that has not failed, with these bytes.
abbrev pub waiting : FrameDecoder → List ℕ → FrameDecoder
waiting d bytes = record d { buf = bytes; terminal = false }

abbrev pub framed : MessageType → List ℕ → List ℕ
framed t payload = write_header t (expected_payload_size t) ++ payload

pub size_bound : (t : MessageType) → expected_payload_size t ≤ 54
unfolding expected_payload_size
size_bound Messages.login = omega arith
size_bound Messages.new_order = omega arith
size_bound Messages.cancel = omega arith
size_bound Messages.cancel_replace = omega arith
size_bound Messages.heartbeat = omega arith
size_bound Messages.login_ack = omega arith
size_bound Messages.login_reject = omega arith
size_bound Messages.exec_report = omega arith
size_bound Messages.reject = omega arith
size_bound Messages.l2_delta = omega arith
size_bound Messages.l3_order = omega arith
size_bound Messages.l3_fill = omega arith
size_bound Messages.trade_tick = omega arith
size_bound Messages.snapshot_start = omega arith
size_bound Messages.snapshot_end = omega arith

code_bound : (t : MessageType) → type_code t < 256
unfolding type_code
code_bound Messages.login = omega arith
code_bound Messages.new_order = omega arith
code_bound Messages.cancel = omega arith
code_bound Messages.cancel_replace = omega arith
code_bound Messages.heartbeat = omega arith
code_bound Messages.login_ack = omega arith
code_bound Messages.login_reject = omega arith
code_bound Messages.exec_report = omega arith
code_bound Messages.reject = omega arith
code_bound Messages.l2_delta = omega arith
code_bound Messages.l3_order = omega arith
code_bound Messages.l3_fill = omega arith
code_bound Messages.trade_tick = omega arith
code_bound Messages.snapshot_start = omega arith
code_bound Messages.snapshot_end = omega arith

module _ (t : MessageType) (payload rest : List ℕ)
    (sized : length payload ≡ expected_payload_size t) where
  unfoldable pub stream : List ℕ
  stream = framed t payload ++ rest

  pub stream-long : length stream ≡ 5 + expected_payload_size t + length rest
  unfolding stream write_header put_u32 put_bytes put_u8
  stream-long = omega (arith, sized, length-append payload rest)

  pub stream-size : get_u32 stream ≡ 1 + expected_payload_size t
  unfolding stream write_header put_u32 put_bytes put_u8
  stream-size =
      unfold put_u32 put_bytes in
      get_u32-put_u32 (1 + expected_payload_size t) (put_u8 (type_code t) ++ (payload ++ rest))
        (omega (arith, size_bound t))

  pub stream-type : known_type (get_u8 (drop 4 stream)) ≡ some t
  unfolding stream write_header put_u32 put_bytes put_u8
  stream-type =
      ap known_type (get_u8-put_u8 (type_code t) (payload ++ rest) (code_bound t))
      ∙ known_type-type_code t

  pub stream-payload : drop 5 stream ≡ payload ++ rest
  unfolding stream write_header put_u32 put_bytes put_u8
  stream-payload = refl

  -- A whole frame is decoded, whatever follows it.
  pub next-framed :
      (d : FrameDecoder)
      → next (waiting d stream)
        ≡ finish
            (waiting d stream)
            (5 + expected_payload_size t)
            (decode_payload (waiting d stream) t (payload ++ rest))
  unfolding next decode_frame
  next-framed d =
      let not_short : ltb (length stream) 4 ≡ false = ground (arith, stream-long) in
      let in_bounds : (ltb (get_u32 stream) 1 || ltb 64 (get_u32 stream)) ≡ false =
        ground (arith, stream-size, size_bound t) in
      let whole : ltb (length stream) (4 + get_u32 stream) ≡ false =
        ground (arith, stream-long, stream-size) in
      let fits : (get_u32 stream == 1 + expected_payload_size t) ≡ true =
        ground (arith, stream-size) in
      let total : 4 + get_u32 stream ≡ 5 + expected_payload_size t = omega (arith, stream-size) in
      rw (not_short, in_bounds, whole, stream-type, elim_option, fits, total, stream-payload) refl

drop-append : (xs ys : List ℕ) → drop (length xs) (xs ++ ys) ≡ ys
drop-append [] ys = refl
drop-append (x ∷ xs) ys = drop-append xs ys

put_bytes-length : (n v : ℕ) → length (put_bytes n v) ≡ n
unfolding put_bytes
put_bytes-length zero v = refl
put_bytes-length (suc n) v = ap suc (put_bytes-length n (v / 256))

side_of-code : (s : Side) → side_of_code (side_code s) ≡ s
unfolding side_of_code side_code
side_of-code buy = refl
side_of-code sell = refl

order_type_of-code : (k : WireOrderType) → order_type_of_code (order_type_code k) ≡ k
unfolding order_type_of_code order_type_code
order_type_of-code limit = refl
order_type_of-code market = refl

tif_of-code : (k : WireTimeInForce) → tif_of_code (tif_code k) ≡ k
unfolding tif_of_code tif_code
tif_of-code day = refl
tif_of-code ioc = refl
tif_of-code fok = refl

-- The fields of a new order are in the ranges of their C++ types.
pub record IsWireOrder (m : NewOrderMsg) : Type 0 where
  pub client_seq_num : m.client_seq_num < 2 ^ 64
  pub order_id : IsI64 m.order_id
  pub instrument_id : m.instrument_id < 2 ^ 32
  pub price : IsI64 m.price
  pub quantity : IsI64 m.quantity

abbrev order_payload : NewOrderMsg → List ℕ
order_payload m =
    put_u64 m.client_seq_num
    ++ (put_i64 m.order_id
        ++ (put_u32 m.instrument_id
            ++ (put_u8 (side_code m.side)
                ++ (put_u8 (order_type_code m.order_type)
                    ++ (put_i64 m.price
                        ++ (put_i64 m.quantity ++ put_u8 (tif_code m.time_in_force)))))))

code_read : (n : ℕ) (rest : List ℕ) → n < 256 → get_u8 (put_u8 n ++ rest) ≡ n
code_read n rest h = get_u8-put_u8 n rest h

side_code-lt : (s : Side) → side_code s < 256
unfolding side_code
side_code-lt buy = omega arith
side_code-lt sell = omega arith

order_type_code-lt : (k : WireOrderType) → order_type_code k < 256
unfolding order_type_code
order_type_code-lt limit = omega arith
order_type_code-lt market = omega arith

tif_code-lt : (k : WireTimeInForce) → tif_code k < 256
unfolding tif_code
tif_code-lt day = omega arith
tif_code-lt ioc = omega arith
tif_code-lt fok = omega arith

read-order :
    (m : NewOrderMsg) (rest : List ℕ) → IsWireOrder m → read_new_order (order_payload m ++ rest) ≡ m
unfolding read_new_order put_u64 put_u32 put_u8 put_bytes put_i64
read-order m rest w =
    let after_quantity = put_u8 (tif_code m.time_in_force) ++ rest in
    let after_price = put_i64 m.quantity ++ after_quantity in
    let after_type = put_i64 m.price ++ after_price in
    let after_side = put_u8 (order_type_code m.order_type) ++ after_type in
    let after_instrument = put_u8 (side_code m.side) ++ after_side in
    let after_id = put_u32 m.instrument_id ++ after_instrument in
    let after_seq = put_i64 m.order_id ++ after_id in
    let e1 = get_u64-put_u64 m.client_seq_num after_seq w.client_seq_num in
    let e2 = get_i64-put_i64 m.order_id after_id w.order_id in
    let e3 = get_u32-put_u32 m.instrument_id after_instrument w.instrument_id in
    let e4 =
      ap side_of_code (get_u8-put_u8 (side_code m.side) after_side (side_code-lt m.side))
      ∙ side_of-code m.side in
    let e5 =
      ap order_type_of_code
        (get_u8-put_u8 (order_type_code m.order_type) after_type (order_type_code-lt m.order_type))
      ∙ order_type_of-code m.order_type in
    let e6 = get_i64-put_i64 m.price after_price w.price in
    let e7 = get_i64-put_i64 m.quantity after_quantity w.quantity in
    let e8 =
      ap tif_of_code (get_u8-put_u8 (tif_code m.time_in_force) rest (tif_code-lt m.time_in_force))
      ∙ tif_of-code m.time_in_force in
    λ i. record {
      client_seq_num = e1 i;
      order_id = e2 i;
      instrument_id = e3 i;
      side = e4 i;
      order_type = e5 i;
      price = e6 i;
      quantity = e7 i;
      time_in_force = e8 i;
    }

codes-good : (m : NewOrderMsg) (rest : List ℕ) → codes_refused (order_payload m ++ rest) ≡ false
unfolding codes_refused put_u64 put_u32 put_u8 put_bytes put_i64 get_u8
codes-good m rest = go m.side m.order_type m.time_in_force
  where
    go :
        (s : Side) (k : WireOrderType) (t : WireTimeInForce)
        → (not (valid_side (side_code s % 256))
            || (not (valid_wire_order_type (order_type_code k % 256))
                || not (valid_wire_tif (tif_code t % 256))))
          ≡ false
    go s k t = rw (side_ok s, type_ok k, tif_ok t) refl
      where
        side_ok : (s : Side) → valid_side (side_code s % 256) ≡ true
        side_ok buy = unfold valid_side side_code in refl
        side_ok sell = unfold valid_side side_code in refl

        type_ok : (k : WireOrderType) → valid_wire_order_type (order_type_code k % 256) ≡ true
        type_ok limit = unfold valid_wire_order_type order_type_code in refl
        type_ok market = unfold valid_wire_order_type order_type_code in refl

        tif_ok : (t : WireTimeInForce) → valid_wire_tif (tif_code t % 256) ≡ true
        tif_ok day = unfold valid_wire_tif tif_code in refl
        tif_ok ioc = unfold valid_wire_tif tif_code in refl
        tif_ok fok = unfold valid_wire_tif tif_code in refl

price_same :
    (d : FrameDecoder) (bytes : List ℕ) (k : WireOrderType) (p : Price)
    → price_refused (waiting d bytes) k p ≡ price_refused d k p
unfolding price_refused outside
price_same d bytes limit p = refl
price_same d bytes market p = refl

-- The tests do not see the bytes that wait.
refused_same :
    (d : FrameDecoder) (bytes : List ℕ) (m : NewOrderMsg)
    → order_refused (waiting d bytes) m ≡ order_refused d m
unfolding order_refused
refused_same d bytes m = rw (price_same d bytes m.order_type m.price) refl

-- An order with fields in the ranges of their types, which the decoder does not refuse, comes out
-- of a decoder that has not failed as it was encoded, and the bytes that follow its frame stay in
-- the buffer.
pub next-encode_new_order :
    (d : FrameDecoder) (m : NewOrderMsg) (rest : List ℕ)
    → IsWireOrder m
    → order_refused d m ≡ none
    → next (waiting d (encode_new_order m ++ rest)) ≡ (waiting d rest, ok (new_order m))
unfolding encode_new_order stream expected_payload_size
next-encode_new_order d m rest w e =
    let bytes = encode_new_order m ++ rest in
    let sized : length (order_payload m) ≡ 39 =
      unfold put_u64 put_u32 put_u8 put_bytes put_i64 in refl in
    next-framed Messages.new_order (order_payload m) rest sized d
    ∙ (ap (finish (waiting d bytes) 44) (decoded bytes) ∙ consumed)
  where
    decoded :
        (bytes : List ℕ)
        → decode_payload (waiting d bytes) Messages.new_order (order_payload m ++ rest)
          ≡ ok (new_order m)
    decoded bytes =
        unfold decode_payload refuse_or in
        rw (codes-good m rest, read-order m rest w, refused_same d bytes m, e) refl

    consumed :
        finish (waiting d (encode_new_order m ++ rest)) 44 (ok (new_order m))
        ≡ (waiting d rest, ok (new_order m))
    consumed = unfold finish consume write_header put_u64 put_u32 put_u8 put_bytes put_i64 in refl
