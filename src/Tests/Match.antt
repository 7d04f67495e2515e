-- ===== src/Tests/Match.antt =====
-- The theorems on the match loop, at concrete queues.
use order_matching_engine.Base.{ℕ, List, [], ◌∷◌, none, false, arith}
use order_matching_engine.Base.Int.{pos}
use order_matching_engine.Common.Types.{sell}
use order_matching_engine.Engine.Order.{Order, cancel_aggressor, push}
use order_matching_engine.Engine.PriceLevel.{PriceLevel, unlink, remove, reduce_quantity}
use order_matching_engine.Engine.Match.{
  Run, match_queue, halt, with_queue, fill, traded, emit, drop_filled, trade_of,
}
use order_matching_engine.Engine.Match.Conserve.{Kept}
use order_matching_engine.Engine.Match.Fifo.{Grown, match_queue-Grown}
use order_matching_engine.Engine.Match.Totals.{Ended}
use order_matching_engine.Engine.OrderBook.{match_side}
use order_matching_engine.Engine.OrderBook.Invariant.{match_side-Ended}
use order_matching_engine.Tests.Engine.{empty_buffer}
use order_matching_engine.Tests.Book.{bid, one_offer, one_offer-IsBook, empty_victims}

abbrev resting : ℕ → ℕ → ℕ → Order
resting id participant quantity = record {
  remaining = quantity;
  participant = participant;
  price = pos 10500;
  id = id;
  side = sell;
  quantity = quantity;
  seq = id;
}

abbrev queue : List Order
queue = resting 5 1 3 ∷ resting 6 3 9 ∷ []

abbrev level : PriceLevel
level = record { price = pos 10500; queue = queue; total_qty = 12; count = 2 }

abbrev run : Run
run = record {
  remaining = 4;
  trades = empty_buffer;
  victims = none;
  ids = 5 ∷ 6 ∷ [];
  in_use = 2;
  next_trade_id = 0;
}

run-Kept : Kept (match_queue cancel_aggressor bid queue level false run).run.trades
unfolding match_queue halt with_queue fill traded emit drop_filled trade_of unlink remove
    reduce_quantity push
run-Kept = omega arith

match_queue-Grown_example :
    Grown bid run
      (match_queue cancel_aggressor bid queue level false run).run
      queue
      (match_queue cancel_aggressor bid queue level false run).level.queue
match_queue-Grown_example = match_queue-Grown cancel_aggressor bid queue level false run run-Kept

match_side-Ended_example :
    Ended one_offer.config.stp bid (match_side one_offer bid empty_buffer empty_victims)
match_side-Ended_example =
    match_side-Ended one_offer bid empty_buffer empty_victims one_offer-IsBook
