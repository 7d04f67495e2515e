-- ===== src/MarketData/Feed/RoundTrip.antt =====
-- What the publisher encodes, a subscriber decodes.
use order_matching_engine.Base.{
  ℕ, ◌+◌, ◌<◌, ◌^◌, ◌≡◌, refl, ap, ◌∙◌, List, ◌++◌, false, true, ◌||◌, ltb, ◌==◌, elim_option,
  length, arith,
}
use order_matching_engine.Protocol.Wire.{
  put_u8, put_u32, put_u64, put_i64, put_bytes, get_u32, IsI64, get_u32-put_u32, get_u64-put_u64,
  get_i64-put_i64, get_u8-put_u8,
}
use order_matching_engine.Protocol.Messages.{MessageType, expected_payload_size}
use order_matching_engine.Protocol.Messages
use order_matching_engine.Protocol.Encoder.{write_header}
use order_matching_engine.Protocol.Decoder.RoundTrip.{
  stream, size_bound, stream-long, stream-size, stream-type, stream-payload,
}
use order_matching_engine.Protocol.Messages.{known_type}
use order_matching_engine.MarketData.Messages.{
  L2DeltaMsg, L3OrderMsg, L3FillMsg, TradeTickMsg, SnapshotStartMsg, SnapshotEndMsg,
}
use order_matching_engine.MarketData.Encoder.{
  encode_l2_delta, l2_delta_payload, encode_l3_order, l3_order_payload, encode_l3_fill,
  l3_fill_payload, encode_trade_tick, trade_tick_payload, encode_snapshot_start,
  snapshot_start_payload, encode_snapshot_end, snapshot_end_payload,
}
use order_matching_engine.MarketData.Feed.{
  FeedDecoder, ok, DecodedFeedMessage, consume, finish, decode_frame, decode_payload, next,
  l2_delta, read_l2_delta, l3_order, read_l3_order, l3_fill, read_l3_fill, trade_tick,
  read_trade_tick, snapshot_start, read_snapshot_start, snapshot_end, read_snapshot_end,
}

abbrev pub waiting : List ℕ → FeedDecoder
waiting bytes = record { buf = bytes; terminal = false }

module _ (t : MessageType) (payload rest : List ℕ)
    (sized : length payload ≡ expected_payload_size t) where
  next-framed :
      next (waiting (stream t payload rest sized))
      ≡ finish
          (waiting (stream t payload rest sized))
          (5 + expected_payload_size t)
          (decode_payload t (payload ++ rest))
  unfolding next decode_frame
  next-framed =
      let b = stream t payload rest sized in
      let not_short : ltb (length b) 4 ≡ false = ground (arith, stream-long t payload rest sized) in
      let in_bounds : (ltb (get_u32 b) 1 || ltb 64 (get_u32 b)) ≡ false =
        ground (arith, size_bound t, stream-size t payload rest sized) in
      let whole : ltb (length b) (4 + get_u32 b) ≡ false =
        ground (arith, stream-long t payload rest sized, stream-size t payload rest sized) in
      let fits : (get_u32 b == 1 + expected_payload_size t) ≡ true =
        ground (arith, stream-size t payload rest sized) in
      let total : 4 + get_u32 b ≡ 5 + expected_payload_size t =
        omega (arith, stream-size t payload rest sized) in
      rw
        (
          not_short,
          in_bounds,
          whole,
          stream-type t payload rest sized,
          elim_option,
          fits,
          total,
          stream-payload t payload rest sized,
        )
        refl

pub record IsL2Delta (m : L2DeltaMsg) : Type 0 where
  pub instrument_id : m.instrument_id < 2 ^ 32
  pub feed_seq : m.feed_seq < 2 ^ 64
  pub side : m.side < 256
  pub action : m.action < 256
  pub price : IsI64 m.price
  pub total_qty : IsI64 m.total_qty
  pub order_count : m.order_count < 2 ^ 32

read-l2_delta :
    (m : L2DeltaMsg) (rest : List ℕ) → IsL2Delta m → read_l2_delta (l2_delta_payload m ++ rest) ≡ m
unfolding read_l2_delta l2_delta_payload put_u64 put_u32 put_u8 put_bytes put_i64
read-l2_delta m rest w =
    let from_order_count = put_u32 m.order_count ++ rest in
    let from_total_qty = put_i64 m.total_qty ++ from_order_count in
    let from_price = put_i64 m.price ++ from_total_qty in
    let from_action = put_u8 m.action ++ from_price in
    let from_side = put_u8 m.side ++ from_action in
    let from_feed_seq = put_u64 m.feed_seq ++ from_side in
    let e_instrument_id = get_u32-put_u32 m.instrument_id from_feed_seq w.instrument_id in
    let e_feed_seq = get_u64-put_u64 m.feed_seq from_side w.feed_seq in
    let e_side = get_u8-put_u8 m.side from_action w.side in
    let e_action = get_u8-put_u8 m.action from_price w.action in
    let e_price = get_i64-put_i64 m.price from_total_qty w.price in
    let e_total_qty = get_i64-put_i64 m.total_qty from_order_count w.total_qty in
    let e_order_count = get_u32-put_u32 m.order_count rest w.order_count in
    λ i. record {
      instrument_id = e_instrument_id i;
      feed_seq = e_feed_seq i;
      side = e_side i;
      action = e_action i;
      price = e_price i;
      total_qty = e_total_qty i;
      order_count = e_order_count i;
    }

pub record IsL3Order (m : L3OrderMsg) : Type 0 where
  pub instrument_id : m.instrument_id < 2 ^ 32
  pub feed_seq : m.feed_seq < 2 ^ 64
  pub action : m.action < 256
  pub order_id : IsI64 m.order_id
  pub side : m.side < 256
  pub price : IsI64 m.price
  pub quantity : IsI64 m.quantity
  pub remaining : IsI64 m.remaining
  pub participant : IsI64 m.participant

read-l3_order :
    (m : L3OrderMsg) (rest : List ℕ) → IsL3Order m → read_l3_order (l3_order_payload m ++ rest) ≡ m
unfolding read_l3_order l3_order_payload put_u64 put_u32 put_u8 put_bytes put_i64
read-l3_order m rest w =
    let from_participant = put_i64 m.participant ++ rest in
    let from_remaining = put_i64 m.remaining ++ from_participant in
    let from_quantity = put_i64 m.quantity ++ from_remaining in
    let from_price = put_i64 m.price ++ from_quantity in
    let from_side = put_u8 m.side ++ from_price in
    let from_order_id = put_i64 m.order_id ++ from_side in
    let from_action = put_u8 m.action ++ from_order_id in
    let from_feed_seq = put_u64 m.feed_seq ++ from_action in
    let e_instrument_id = get_u32-put_u32 m.instrument_id from_feed_seq w.instrument_id in
    let e_feed_seq = get_u64-put_u64 m.feed_seq from_action w.feed_seq in
    let e_action = get_u8-put_u8 m.action from_order_id w.action in
    let e_order_id = get_i64-put_i64 m.order_id from_side w.order_id in
    let e_side = get_u8-put_u8 m.side from_price w.side in
    let e_price = get_i64-put_i64 m.price from_quantity w.price in
    let e_quantity = get_i64-put_i64 m.quantity from_remaining w.quantity in
    let e_remaining = get_i64-put_i64 m.remaining from_participant w.remaining in
    let e_participant = get_i64-put_i64 m.participant rest w.participant in
    λ i. record {
      instrument_id = e_instrument_id i;
      feed_seq = e_feed_seq i;
      action = e_action i;
      order_id = e_order_id i;
      side = e_side i;
      price = e_price i;
      quantity = e_quantity i;
      remaining = e_remaining i;
      participant = e_participant i;
    }

pub record IsL3Fill (m : L3FillMsg) : Type 0 where
  pub instrument_id : m.instrument_id < 2 ^ 32
  pub feed_seq : m.feed_seq < 2 ^ 64
  pub order_id : IsI64 m.order_id
  pub trade_id : IsI64 m.trade_id
  pub price : IsI64 m.price
  pub quantity : IsI64 m.quantity
  pub remaining : IsI64 m.remaining

read-l3_fill :
    (m : L3FillMsg) (rest : List ℕ) → IsL3Fill m → read_l3_fill (l3_fill_payload m ++ rest) ≡ m
unfolding read_l3_fill l3_fill_payload put_u64 put_u32 put_u8 put_bytes put_i64
read-l3_fill m rest w =
    let from_remaining = put_i64 m.remaining ++ rest in
    let from_quantity = put_i64 m.quantity ++ from_remaining in
    let from_price = put_i64 m.price ++ from_quantity in
    let from_trade_id = put_i64 m.trade_id ++ from_price in
    let from_order_id = put_i64 m.order_id ++ from_trade_id in
    let from_feed_seq = put_u64 m.feed_seq ++ from_order_id in
    let e_instrument_id = get_u32-put_u32 m.instrument_id from_feed_seq w.instrument_id in
    let e_feed_seq = get_u64-put_u64 m.feed_seq from_order_id w.feed_seq in
    let e_order_id = get_i64-put_i64 m.order_id from_trade_id w.order_id in
    let e_trade_id = get_i64-put_i64 m.trade_id from_price w.trade_id in
    let e_price = get_i64-put_i64 m.price from_quantity w.price in
    let e_quantity = get_i64-put_i64 m.quantity from_remaining w.quantity in
    let e_remaining = get_i64-put_i64 m.remaining rest w.remaining in
    λ i. record {
      instrument_id = e_instrument_id i;
      feed_seq = e_feed_seq i;
      order_id = e_order_id i;
      trade_id = e_trade_id i;
      price = e_price i;
      quantity = e_quantity i;
      remaining = e_remaining i;
    }

pub record IsTradeTick (m : TradeTickMsg) : Type 0 where
  pub instrument_id : m.instrument_id < 2 ^ 32
  pub feed_seq : m.feed_seq < 2 ^ 64
  pub trade_id : IsI64 m.trade_id
  pub aggressor_id : IsI64 m.aggressor_id
  pub passive_id : IsI64 m.passive_id
  pub price : IsI64 m.price
  pub quantity : IsI64 m.quantity
  pub aggressor_side : m.aggressor_side < 256

read-trade_tick :
    (m : TradeTickMsg) (rest : List ℕ)
    → IsTradeTick m
    → read_trade_tick (trade_tick_payload m ++ rest) ≡ m
unfolding read_trade_tick trade_tick_payload put_u64 put_u32 put_u8 put_bytes put_i64
read-trade_tick m rest w =
    let from_aggressor_side = put_u8 m.aggressor_side ++ rest in
    let from_quantity = put_i64 m.quantity ++ from_aggressor_side in
    let from_price = put_i64 m.price ++ from_quantity in
    let from_passive_id = put_i64 m.passive_id ++ from_price in
    let from_aggressor_id = put_i64 m.aggressor_id ++ from_passive_id in
    let from_trade_id = put_i64 m.trade_id ++ from_aggressor_id in
    let from_feed_seq = put_u64 m.feed_seq ++ from_trade_id in
    let e_instrument_id = get_u32-put_u32 m.instrument_id from_feed_seq w.instrument_id in
    let e_feed_seq = get_u64-put_u64 m.feed_seq from_trade_id w.feed_seq in
    let e_trade_id = get_i64-put_i64 m.trade_id from_aggressor_id w.trade_id in
    let e_aggressor_id = get_i64-put_i64 m.aggressor_id from_passive_id w.aggressor_id in
    let e_passive_id = get_i64-put_i64 m.passive_id from_price w.passive_id in
    let e_price = get_i64-put_i64 m.price from_quantity w.price in
    let e_quantity = get_i64-put_i64 m.quantity from_aggressor_side w.quantity in
    let e_aggressor_side = get_u8-put_u8 m.aggressor_side rest w.aggressor_side in
    λ i. record {
      instrument_id = e_instrument_id i;
      feed_seq = e_feed_seq i;
      trade_id = e_trade_id i;
      aggressor_id = e_aggressor_id i;
      passive_id = e_passive_id i;
      price = e_price i;
      quantity = e_quantity i;
      aggressor_side = e_aggressor_side i;
    }

pub record IsSnapshotStart (m : SnapshotStartMsg) : Type 0 where
  pub instrument_id : m.instrument_id < 2 ^ 32
  pub feed_seq : m.feed_seq < 2 ^ 64
  pub resting_orders : m.resting_orders < 2 ^ 64

read-snapshot_start :
    (m : SnapshotStartMsg) (rest : List ℕ)
    → IsSnapshotStart m
    → read_snapshot_start (snapshot_start_payload m ++ rest) ≡ m
unfolding read_snapshot_start snapshot_start_payload put_u64 put_u32 put_u8 put_bytes put_i64
read-snapshot_start m rest w =
    let from_resting_orders = put_u64 m.resting_orders ++ rest in
    let from_feed_seq = put_u64 m.feed_seq ++ from_resting_orders in
    let e_instrument_id = get_u32-put_u32 m.instrument_id from_feed_seq w.instrument_id in
    let e_feed_seq = get_u64-put_u64 m.feed_seq from_resting_orders w.feed_seq in
    let e_resting_orders = get_u64-put_u64 m.resting_orders rest w.resting_orders in
    λ i. record {
      instrument_id = e_instrument_id i;
      feed_seq = e_feed_seq i;
      resting_orders = e_resting_orders i;
    }

pub record IsSnapshotEnd (m : SnapshotEndMsg) : Type 0 where
  pub instrument_id : m.instrument_id < 2 ^ 32
  pub feed_seq : m.feed_seq < 2 ^ 64
  pub crc32 : m.crc32 < 2 ^ 32

read-snapshot_end :
    (m : SnapshotEndMsg) (rest : List ℕ)
    → IsSnapshotEnd m
    → read_snapshot_end (snapshot_end_payload m ++ rest) ≡ m
unfolding read_snapshot_end snapshot_end_payload put_u64 put_u32 put_u8 put_bytes put_i64
read-snapshot_end m rest w =
    let from_crc32 = put_u32 m.crc32 ++ rest in
    let from_feed_seq = put_u64 m.feed_seq ++ from_crc32 in
    let e_instrument_id = get_u32-put_u32 m.instrument_id from_feed_seq w.instrument_id in
    let e_feed_seq = get_u64-put_u64 m.feed_seq from_crc32 w.feed_seq in
    let e_crc32 = get_u32-put_u32 m.crc32 rest w.crc32 in
    λ i. record { instrument_id = e_instrument_id i; feed_seq = e_feed_seq i; crc32 = e_crc32 i }

-- The fields of a message are in the ranges of their C++ types.
abbrev pub IsFeedMessage : DecodedFeedMessage → Type 0
IsFeedMessage (l2_delta m) = IsL2Delta m
IsFeedMessage (l3_order m) = IsL3Order m
IsFeedMessage (l3_fill m) = IsL3Fill m
IsFeedMessage (trade_tick m) = IsTradeTick m
IsFeedMessage (snapshot_start m) = IsSnapshotStart m
IsFeedMessage (snapshot_end m) = IsSnapshotEnd m

abbrev pub encode : DecodedFeedMessage → List ℕ
encode (l2_delta m) = encode_l2_delta m
encode (l3_order m) = encode_l3_order m
encode (l3_fill m) = encode_l3_fill m
encode (trade_tick m) = encode_trade_tick m
encode (snapshot_start m) = encode_snapshot_start m
encode (snapshot_end m) = encode_snapshot_end m

-- Each of the six feed messages, with fields in the ranges of their types, comes out of a feed
-- decoder that has not failed as it was encoded, and the bytes that follow its frame stay in the
-- buffer.
pub next-encode :
    (m : DecodedFeedMessage) (rest : List ℕ)
    → IsFeedMessage m
    → next (waiting (encode m ++ rest)) ≡ (waiting rest, ok m)
unfolding encode_l2_delta encode_l3_order encode_l3_fill encode_trade_tick encode_snapshot_start
    encode_snapshot_end stream expected_payload_size
next-encode (l2_delta m) rest w =
    next-framed Messages.l2_delta (l2_delta_payload m) rest
      (unfold l2_delta_payload put_u64 put_u32 put_u8 put_bytes put_i64 in refl)
    ∙ (unfold decode_payload finish consume write_header l2_delta_payload put_u64 put_u32 put_u8
          put_bytes put_i64 in
        ap (λ x. (waiting rest, ok (l2_delta x))) (read-l2_delta m rest w))
next-encode (l3_order m) rest w =
    next-framed Messages.l3_order (l3_order_payload m) rest
      (unfold l3_order_payload put_u64 put_u32 put_u8 put_bytes put_i64 in refl)
    ∙ (unfold decode_payload finish consume write_header l3_order_payload put_u64 put_u32 put_u8
          put_bytes put_i64 in
        ap (λ x. (waiting rest, ok (l3_order x))) (read-l3_order m rest w))
next-encode (l3_fill m) rest w =
    next-framed Messages.l3_fill (l3_fill_payload m) rest
      (unfold l3_fill_payload put_u64 put_u32 put_u8 put_bytes put_i64 in refl)
    ∙ (unfold decode_payload finish consume write_header l3_fill_payload put_u64 put_u32 put_u8
          put_bytes put_i64 in
        ap (λ x. (waiting rest, ok (l3_fill x))) (read-l3_fill m rest w))
next-encode (trade_tick m) rest w =
    next-framed Messages.trade_tick (trade_tick_payload m) rest
      (unfold trade_tick_payload put_u64 put_u32 put_u8 put_bytes put_i64 in refl)
    ∙ (unfold decode_payload finish consume write_header trade_tick_payload put_u64 put_u32 put_u8
          put_bytes put_i64 in
        ap (λ x. (waiting rest, ok (trade_tick x))) (read-trade_tick m rest w))
next-encode (snapshot_start m) rest w =
    next-framed Messages.snapshot_start (snapshot_start_payload m) rest
      (unfold snapshot_start_payload put_u64 put_u32 put_u8 put_bytes put_i64 in refl)
    ∙ (unfold decode_payload finish consume write_header snapshot_start_payload put_u64 put_u32
          put_u8 put_bytes put_i64 in
        ap (λ x. (waiting rest, ok (snapshot_start x))) (read-snapshot_start m rest w))
next-encode (snapshot_end m) rest w =
    next-framed Messages.snapshot_end (snapshot_end_payload m) rest
      (unfold snapshot_end_payload put_u64 put_u32 put_u8 put_bytes put_i64 in refl)
    ∙ (unfold decode_payload finish consume write_header snapshot_end_payload put_u64 put_u32 put_u8
          put_bytes put_i64 in
        ap (λ x. (waiting rest, ok (snapshot_end x))) (read-snapshot_end m rest w))
