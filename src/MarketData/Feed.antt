-- ===== src/MarketData/Feed.antt =====
-- marketdata/feed_decoder.hpp and marketdata/feed_decoder.cpp: the subscriber's reader of the feed.
pub mod RoundTrip
use order_matching_engine.Base.{
  ℕ, ◌+◌, List, ◌++◌, Bool, true, false, ◌||◌, ltb, ◌==◌, if◌then◌else◌, elim_option, length, drop,
}
use order_matching_engine.Protocol.Wire.{get_u8, get_u32, get_u64, get_i64}
use order_matching_engine.Protocol.Messages.{MessageType, known_type, expected_payload_size}
use order_matching_engine.Protocol.Messages
use order_matching_engine.MarketData.Messages.{
  L2DeltaMsg, L3OrderMsg, L3FillMsg, TradeTickMsg, SnapshotStartMsg, SnapshotEndMsg,
}

pub data DecodedFeedMessage : Type 0 where
  l2_delta : L2DeltaMsg → DecodedFeedMessage
  l3_order : L3OrderMsg → DecodedFeedMessage
  l3_fill : L3FillMsg → DecodedFeedMessage
  trade_tick : TradeTickMsg → DecodedFeedMessage
  snapshot_start : SnapshotStartMsg → DecodedFeedMessage
  snapshot_end : SnapshotEndMsg → DecodedFeedMessage

pub data Result : Type 0 where
  ok : DecodedFeedMessage → Result
  incomplete invalid : Result

-- `buf` holds the first `len_` bytes of the reassembly buffer.
pub record FeedDecoder : Type 0 where
  pub buf : List ℕ
  pub terminal : Bool

unfoldable pub feed : FeedDecoder → List ℕ → FeedDecoder × Bool
feed d data_in =
    if d.terminal || ltb 256 (length d.buf + length data_in)
    then (d, false)
    else (record d { buf = d.buf ++ data_in }, true)

unfoldable pub consume : FeedDecoder → ℕ → FeedDecoder
consume d n = record d { buf = drop n d.buf }

unfoldable pub fail : FeedDecoder → FeedDecoder × Result
fail d = (record d { terminal = true }, invalid)

unfoldable pub read_l2_delta : List ℕ → L2DeltaMsg
read_l2_delta p = record {
  instrument_id = get_u32 p;
  feed_seq = get_u64 (drop 4 p);
  side = get_u8 (drop 12 p);
  action = get_u8 (drop 13 p);
  price = get_i64 (drop 14 p);
  total_qty = get_i64 (drop 22 p);
  order_count = get_u32 (drop 30 p);
}

unfoldable pub read_l3_order : List ℕ → L3OrderMsg
read_l3_order p = record {
  instrument_id = get_u32 p;
  feed_seq = get_u64 (drop 4 p);
  action = get_u8 (drop 12 p);
  order_id = get_i64 (drop 13 p);
  side = get_u8 (drop 21 p);
  price = get_i64 (drop 22 p);
  quantity = get_i64 (drop 30 p);
  remaining = get_i64 (drop 38 p);
  participant = get_i64 (drop 46 p);
}

unfoldable pub read_l3_fill : List ℕ → L3FillMsg
read_l3_fill p = record {
  instrument_id = get_u32 p;
  feed_seq = get_u64 (drop 4 p);
  order_id = get_i64 (drop 12 p);
  trade_id = get_i64 (drop 20 p);
  price = get_i64 (drop 28 p);
  quantity = get_i64 (drop 36 p);
  remaining = get_i64 (drop 44 p);
}

unfoldable pub read_trade_tick : List ℕ → TradeTickMsg
read_trade_tick p = record {
  instrument_id = get_u32 p;
  feed_seq = get_u64 (drop 4 p);
  trade_id = get_i64 (drop 12 p);
  aggressor_id = get_i64 (drop 20 p);
  passive_id = get_i64 (drop 28 p);
  price = get_i64 (drop 36 p);
  quantity = get_i64 (drop 44 p);
  aggressor_side = get_u8 (drop 52 p);
}

unfoldable pub read_snapshot_start : List ℕ → SnapshotStartMsg
read_snapshot_start p = record {
  instrument_id = get_u32 p;
  feed_seq = get_u64 (drop 4 p);
  resting_orders = get_u64 (drop 12 p);
}

unfoldable pub read_snapshot_end : List ℕ → SnapshotEndMsg
read_snapshot_end p = record {
  instrument_id = get_u32 p;
  feed_seq = get_u64 (drop 4 p);
  crc32 = get_u32 (drop 12 p);
}

unfoldable pub decode_payload : MessageType → List ℕ → Result
decode_payload Messages.l2_delta p = ok (l2_delta (read_l2_delta p))
decode_payload Messages.l3_order p = ok (l3_order (read_l3_order p))
decode_payload Messages.l3_fill p = ok (l3_fill (read_l3_fill p))
decode_payload Messages.trade_tick p = ok (trade_tick (read_trade_tick p))
decode_payload Messages.snapshot_start p = ok (snapshot_start (read_snapshot_start p))
decode_payload Messages.snapshot_end p = ok (snapshot_end (read_snapshot_end p))
decode_payload _ p = invalid

unfoldable pub finish : FeedDecoder → ℕ → Result → FeedDecoder × Result
finish d total (ok m) = (consume d total, ok m)
finish d total incomplete = (d, incomplete)
finish d total invalid = fail d

unfoldable pub decode_frame : FeedDecoder → ℕ → FeedDecoder × Result
decode_frame d len = elim_option (known_type (get_u8 (drop 4 d.buf))) (fail d) λ type.
    if len == 1 + expected_payload_size type
    then finish d (4 + len) (decode_payload type (drop 5 d.buf))
    else fail d

unfoldable pub next : FeedDecoder → FeedDecoder × Result
next d =
    if d.terminal
    then fail d
    else if ltb (length d.buf) 4
    then (d, incomplete)
    else if ltb (get_u32 d.buf) 1 || ltb 64 (get_u32 d.buf)
    then fail d
    else if ltb (length d.buf) (4 + get_u32 d.buf)
    then (d, incomplete)
    else decode_frame d (get_u32 d.buf)
