-- ===== src/Engine/OrderBook/Start.antt =====
-- A fresh book is in order.
use order_matching_engine.Base.{ℕ, ◌+◌, ◌/◌, ◌≡◌, refl, ◌<◌, List, [], arith, length, sym}
use order_matching_engine.Base.Int.{pos_part, ◌-ℤ◌, ◌≤ℤ◌, ◌<ℤ◌}
use order_matching_engine.Common.Types.{Side, buy, sell, opposite, bid_empty, ask_empty}
use order_matching_engine.Engine.Order.{Order, BookConfig}
use order_matching_engine.Book.LevelMap.{LevelMap, occupied}
use order_matching_engine.Book.LevelMap
use order_matching_engine.Book.LevelMap.Init.{init-IsSide, init-IsBare, sum_by-init_levels}
use order_matching_engine.Book.IdSet.{count}
use order_matching_engine.Engine.Match.Account.{occurs}
use order_matching_engine.Engine.Match.Totals.{over_side}
use order_matching_engine.Engine.OrderBook.{init}
use order_matching_engine.Engine.OrderBook.Invariant.{IsBook}
use mathlib.Core.Bool.{false≢true}
use order_matching_engine.Base.{◌∙◌}

-- The bounds of a configuration: prices in order, on a positive tick, apart from the sentinels.
pub record IsConfig (c : BookConfig) : Type 0 where
  pub tick_pos : 0 < c.tick
  pub above_sentinel : bid_empty <ℤ c.min_price
  pub below_sentinel : c.max_price <ℤ ask_empty
  pub ordered : c.min_price ≤ℤ c.max_price

over_side-init :
    (f : List Order → ℕ) (s : Side) (c : BookConfig)
    → f [] ≡ 0
    → over_side f (LevelMap.init s c.min_price c.max_price c.tick) ≡ 0
unfolding LevelMap.init
over_side-init f s c h =
    sum_by-init_levels f c.min_price c.tick 0 (pos_part (c.max_price -ℤ c.min_price) / c.tick + 1) h

-- A book made from a sound configuration is in order.
pub init-IsBook : (c : BookConfig) → IsConfig c → IsBook (init c)
unfolding init opposite LevelMap.init count
init-IsBook c v = record {
  own_valid =
      init-IsSide buy c.min_price c.max_price c.tick v.tick_pos v.above_sentinel v.below_sentinel
        v.ordered;
  opp_valid =
      init-IsSide sell c.min_price c.max_price c.tick v.tick_pos v.above_sentinel v.below_sentinel
        v.ordered;
  own_side = refl;
  opp_side = refl;
  grid = (refl, refl, refl);
  apart = λ i j a b.
      absurd (false≢true (sym ((init-IsBare buy c.min_price c.max_price c.tick).vacant i) ∙ a));
  named = λ k.
      omega (arith, over_side-init (occurs k) buy c refl, over_side-init (occurs k) sell c refl);
  once = λ k. omega arith;
  pooled = omega (arith, over_side-init length buy c refl, over_side-init length sell c refl);
  room = omega arith;
}
