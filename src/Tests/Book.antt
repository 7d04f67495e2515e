-- ===== src/Tests/Book.antt =====
-- The theorems on the book, at concrete commands.
use order_matching_engine.Base.{◌≡◌, refl, [], none, some, Option, arith}
use order_matching_engine.Base.Int.{◌+ℤ◌, ◌-ℤ◌}
use order_matching_engine.Common.Types.{buy, sell, opposite, empty_sentinel}
use order_matching_engine.Engine.Order.{
  NewOrder, limit, StpVictimBuffer, push, is_market, is_fok, rejected_unknown_order, no_result,
}
use order_matching_engine.Engine.PriceLevel.{
  PriceLevel, enqueue, is_empty, unlink, reduce_quantity, remove,
}
use order_matching_engine.Engine.PriceLevel
use order_matching_engine.Book.LevelMap.{
  LevelMap, in_range, index, has_best, level_at, put_level, on_level_emptied, next_occupied,
  add_order, init_levels, is_better, better_price, slot_price, search, price_found, occupied,
  occupied_above, occupied_below, occupied_from,
}
use order_matching_engine.Book.LevelMap
use order_matching_engine.Book.IdSet.{contains, insert}
use order_matching_engine.Engine.Match.{
  crosses, match_into, visit, match_queue, leave_level, tell_emptied, halt, with_queue, fill,
  traded, emit, drop_filled, trade_of,
}
use order_matching_engine.Engine.Match.Conserve.{Kept, KeptVictims}
use order_matching_engine.Engine.OrderBook.{
  OrderBook, init, submit_ex, submit_checked, side_of, put_side, rejection, settle, rest_residual,
  rested, order_of, start_run, match_side, rounds, matched, matched_result, conclude, conclude_as,
  echo, cancel, replace,
}
use order_matching_engine.Engine.OrderBook.Invariant.{IsBook, OnTick}
use order_matching_engine.Engine.OrderBook.Start.{IsConfig, init-IsBook}
use order_matching_engine.Engine.OrderBook.Submit.{submit_ex-IsBook}
use order_matching_engine.Engine.OrderBook.Conserve.{Flow, submit_ex-Flow}
use order_matching_engine.Engine.OrderBook.Commands.{cancel-IsBook, cancel_twice, replace-IsBook}
use order_matching_engine.Engine.Match.Prices.{Dealt}
use order_matching_engine.Engine.OrderBook.Deals.{match_side-Dealt}
use order_matching_engine.Tests.Engine.{small_config, order, empty_buffer}

abbrev pub empty_victims : Option StpVictimBuffer
empty_victims = some (record { slots = []; capacity = 16; count = 0 })

pub small-IsConfig : IsConfig small_config
small-IsConfig = record {
  tick_pos = omega arith;
  above_sentinel = omega arith;
  below_sentinel = omega arith;
  ordered = omega arith;
}

abbrev pub offer : NewOrder
offer = order 1 sell limit 10500 10 1

abbrev pub bid : NewOrder
bid = order 2 buy limit 10600 4 2

init-IsBook_example : IsBook (init small_config)
init-IsBook_example = init-IsBook small_config small-IsConfig

abbrev pub one_offer : OrderBook
one_offer = (submit_ex (init small_config) offer empty_buffer empty_victims).book

pub one_offer-IsBook : IsBook one_offer
unfolding init slot_price LevelMap.init ◌+ℤ◌
one_offer-IsBook =
    submit_ex-IsBook (init small_config) offer empty_buffer empty_victims
      (init-IsBook small_config small-IsConfig) (λ k. (5, refl))

pub bid-OnTick : OnTick one_offer bid
unfolding init LevelMap.init ◌+ℤ◌ ◌-ℤ◌ submit_ex submit_checked side_of put_side rejection settle
    rest_residual rested order_of start_run match_side rounds matched matched_result conclude
    conclude_as echo crosses match_into visit contains insert in_range index has_best level_at
    put_level add_order init_levels is_better better_price slot_price enqueue is_empty is_market
    is_fok opposite empty_sentinel PriceLevel.init
bid-OnTick k = (6, refl)

submit_ex-IsBook_example : IsBook (submit_ex one_offer bid empty_buffer empty_victims).book
submit_ex-IsBook_example =
    submit_ex-IsBook one_offer bid empty_buffer empty_victims one_offer-IsBook bid-OnTick

bid-Kept : Kept (submit_ex one_offer bid empty_buffer empty_victims).trades
unfolding init LevelMap.init ◌+ℤ◌ ◌-ℤ◌ submit_ex submit_checked side_of put_side rejection settle
    rest_residual rested order_of start_run match_side rounds matched matched_result conclude
    conclude_as echo crosses match_into visit contains insert in_range index has_best level_at
    put_level add_order init_levels is_better better_price slot_price enqueue is_empty is_market
    is_fok opposite empty_sentinel PriceLevel.init match_queue leave_level tell_emptied halt
    with_queue fill traded emit drop_filled trade_of unlink reduce_quantity remove push
bid-Kept = omega arith

bid_accepted : rejection one_offer bid ≡ none
unfolding init LevelMap.init ◌+ℤ◌ ◌-ℤ◌ submit_ex submit_checked side_of put_side rejection settle
    rest_residual rested order_of start_run match_side rounds matched matched_result conclude
    conclude_as echo crosses match_into visit contains insert in_range index has_best level_at
    put_level add_order init_levels is_better better_price slot_price enqueue is_empty is_market
    is_fok opposite empty_sentinel PriceLevel.init
bid_accepted = refl

bid-KeptVictims : KeptVictims (submit_ex one_offer bid empty_buffer empty_victims).victims
unfolding init LevelMap.init ◌+ℤ◌ ◌-ℤ◌ submit_ex submit_checked side_of put_side rejection settle
    rest_residual rested order_of start_run match_side rounds matched matched_result conclude
    conclude_as echo crosses match_into visit contains insert in_range index has_best level_at
    put_level add_order init_levels is_better better_price slot_price enqueue is_empty is_market
    is_fok opposite empty_sentinel PriceLevel.init match_queue leave_level tell_emptied halt
    with_queue fill traded emit drop_filled trade_of unlink reduce_quantity remove push
bid-KeptVictims = omega arith

submit_ex-Flow_example :
    Flow one_offer bid empty_buffer empty_victims
      (submit_ex one_offer bid empty_buffer empty_victims)
submit_ex-Flow_example =
    submit_ex-Flow one_offer bid empty_buffer empty_victims one_offer-IsBook bid_accepted bid-Kept
      bid-KeptVictims

cancel-IsBook_example : IsBook (cancel one_offer 1).0
cancel-IsBook_example = cancel-IsBook one_offer 1 one_offer-IsBook

cancel_twice_example :
    cancel (cancel one_offer 1).0 1
    ≡ ((cancel one_offer 1).0, record no_result { status = rejected_unknown_order })
cancel_twice_example = cancel_twice one_offer 1 one_offer-IsBook

replace-IsBook_example : IsBook (replace one_offer 1 bid empty_buffer empty_victims).0.book
replace-IsBook_example =
    replace-IsBook one_offer 1 bid empty_buffer empty_victims one_offer-IsBook bid-OnTick

bid_matched-Kept : Kept (match_side one_offer bid empty_buffer empty_victims).run.trades
unfolding init LevelMap.init ◌+ℤ◌ ◌-ℤ◌ submit_ex submit_checked side_of put_side rejection settle
    rest_residual rested order_of start_run match_side rounds matched matched_result conclude
    conclude_as echo crosses match_into visit contains insert in_range index has_best level_at
    put_level add_order init_levels is_better better_price slot_price enqueue is_empty is_market
    is_fok opposite empty_sentinel PriceLevel.init match_queue leave_level tell_emptied halt
    with_queue fill traded emit drop_filled trade_of unlink reduce_quantity remove push
bid_matched-Kept = omega arith

match_side-Dealt_example :
    Dealt bid
      (start_run one_offer bid empty_buffer empty_victims)
      (match_side one_offer bid empty_buffer empty_victims).run
match_side-Dealt_example =
    match_side-Dealt one_offer bid empty_buffer empty_victims one_offer-IsBook bid_matched-Kept
