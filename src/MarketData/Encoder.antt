-- ===== src/MarketData/Encoder.antt =====
-- marketdata/feed_encoder.cpp: the bytes of a feed frame. The fields follow each other at the source's
-- offsets. Its writeHeader is that of protocol/encoder.cpp.
use order_matching_engine.Base.{ℕ, List, ◌++◌}
use order_matching_engine.Protocol.Wire.{put_u8, put_u32, put_u64, put_i64}
use order_matching_engine.Protocol.Messages.{
  l2_delta, l3_order, l3_fill, trade_tick, snapshot_start, snapshot_end,
}
use order_matching_engine.Protocol.Encoder.{write_header}
use order_matching_engine.MarketData.Messages.{
  L2DeltaMsg, L3OrderMsg, L3FillMsg, TradeTickMsg, SnapshotStartMsg, SnapshotEndMsg,
}

unfoldable pub l2_delta_payload : L2DeltaMsg → List ℕ
l2_delta_payload m =
    put_u32 m.instrument_id
    ++ (put_u64 m.feed_seq
        ++ (put_u8 m.side
            ++ (put_u8 m.action
                ++ (put_i64 m.price ++ (put_i64 m.total_qty ++ (put_u32 m.order_count))))))

unfoldable pub encode_l2_delta : L2DeltaMsg → List ℕ
unfolding write_header l2_delta_payload
encode_l2_delta m = write_header l2_delta 34 ++ l2_delta_payload m

unfoldable pub l3_order_payload : L3OrderMsg → List ℕ
l3_order_payload m =
    put_u32 m.instrument_id
    ++ (put_u64 m.feed_seq
        ++ (put_u8 m.action
            ++ (put_i64 m.order_id
                ++ (put_u8 m.side
                    ++ (put_i64 m.price
                        ++ (put_i64 m.quantity
                            ++ (put_i64 m.remaining ++ (put_i64 m.participant))))))))

unfoldable pub encode_l3_order : L3OrderMsg → List ℕ
unfolding write_header l3_order_payload
encode_l3_order m = write_header l3_order 54 ++ l3_order_payload m

unfoldable pub l3_fill_payload : L3FillMsg → List ℕ
l3_fill_payload m =
    put_u32 m.instrument_id
    ++ (put_u64 m.feed_seq
        ++ (put_i64 m.order_id
            ++ (put_i64 m.trade_id
                ++ (put_i64 m.price ++ (put_i64 m.quantity ++ (put_i64 m.remaining))))))

unfoldable pub encode_l3_fill : L3FillMsg → List ℕ
unfolding write_header l3_fill_payload
encode_l3_fill m = write_header l3_fill 52 ++ l3_fill_payload m

unfoldable pub trade_tick_payload : TradeTickMsg → List ℕ
trade_tick_payload m =
    put_u32 m.instrument_id
    ++ (put_u64 m.feed_seq
        ++ (put_i64 m.trade_id
            ++ (put_i64 m.aggressor_id
                ++ (put_i64 m.passive_id
                    ++ (put_i64 m.price ++ (put_i64 m.quantity ++ (put_u8 m.aggressor_side)))))))

unfoldable pub encode_trade_tick : TradeTickMsg → List ℕ
unfolding write_header trade_tick_payload
encode_trade_tick m = write_header trade_tick 53 ++ trade_tick_payload m

unfoldable pub snapshot_start_payload : SnapshotStartMsg → List ℕ
snapshot_start_payload m =
    put_u32 m.instrument_id ++ (put_u64 m.feed_seq ++ (put_u64 m.resting_orders))

unfoldable pub encode_snapshot_start : SnapshotStartMsg → List ℕ
unfolding write_header snapshot_start_payload
encode_snapshot_start m = write_header snapshot_start 20 ++ snapshot_start_payload m

unfoldable pub snapshot_end_payload : SnapshotEndMsg → List ℕ
snapshot_end_payload m = put_u32 m.instrument_id ++ (put_u64 m.feed_seq ++ (put_u32 m.crc32))

unfoldable pub encode_snapshot_end : SnapshotEndMsg → List ℕ
unfolding write_header snapshot_end_payload
encode_snapshot_end m = write_header snapshot_end 16 ++ snapshot_end_payload m
