-- ===== src/Engine/OrderBook/Deals.antt =====
-- What a submission trades.
use order_matching_engine.Base.{◌+◌, Option}
use order_matching_engine.Common.Types.{opposite}
use order_matching_engine.Engine.Order.{NewOrder, TradeBuffer, StpVictimBuffer}
use order_matching_engine.Engine.Match.Conserve.{Kept}
use order_matching_engine.Engine.Match.Prices.{Dealt, match_into-Dealt}
use order_matching_engine.Engine.OrderBook.{OrderBook, side_of, rounds, start_run, match_side}
use order_matching_engine.Engine.OrderBook.Invariant.{IsBook, IsBook-IsPairOf, start-Enough}

-- On a book in order, where the trade buffer keeps all that is pushed, matching only appends to
-- the trades: each new trade is the aggressor's, at a price that its limit accepts, of a positive
-- quantity, and has the next number in sequence.
pub match_side-Dealt :
    (b : OrderBook) (inc : NewOrder) (trades : TradeBuffer) (victims : Option StpVictimBuffer)
    → IsBook b
    → Kept (match_side b inc trades victims).run.trades
    → Dealt inc (start_run b inc trades victims) (match_side b inc trades victims).run
unfolding match_side
match_side-Dealt b inc trades victims v k =
    let opp = side_of (opposite inc.side) b in
    let start = start_run b inc trades victims in
    let valid = (IsBook-IsPairOf inc.side b v).opp_valid in
    match_into-Dealt b.config.stp inc (rounds opp + 1) opp start valid
      (start-Enough b.config.stp inc opp start valid) k
