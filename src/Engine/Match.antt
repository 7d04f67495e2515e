-- ===== src/Engine/Match.antt =====
-- The match loop of engine/order_book.cpp. The state that it changes is the opposite side of the book
-- and a `Run`: the buffers, the unfilled rest, and the book's id map, pool and trade counter.
pub mod Rule
pub mod Level
pub mod Conserve
pub mod Fifo
pub mod Account
pub mod Round
pub mod Loop
pub mod Totals
pub mod Prices
pub mod Buffers
use order_matching_engine.Base.{
  ℕ, zero, suc, ◌+◌, ◌-◌, min, List, [], ◌∷◌, Bool, true, false, not, ◌&&◌, Option, none, some, ltb,
  ◌==◌, if◌then◌else◌, elim_option,
}
use mathlib.Core.Option
use order_matching_engine.Base.Int.{leb_ℤ}
use order_matching_engine.Common.Types.{Price, Side, buy, sell}
use order_matching_engine.Engine.Order.{
  Order, NewOrder, OrderType, limit, market, ioc, fok, StpPolicy, cancel_aggressor, cancel_passive,
  cancel_both, Trade, TradeBuffer, StpVictim, StpVictimBuffer, push,
}
use order_matching_engine.Engine.PriceLevel.{PriceLevel, unlink, reduce_quantity, is_empty}
use order_matching_engine.Book.LevelMap.{LevelMap, has_best, level_at, put_level, on_level_emptied}
use order_matching_engine.Book.IdSet.{erase}

pub record Run : Type 0 where
  pub remaining : ℕ
  pub trades : TradeBuffer
  pub victims : Option StpVictimBuffer
  pub ids : List ℕ
  pub in_use : ℕ
  pub next_trade_id : ℕ

pub data MatchOutcome : Type 0 where
  exhausted no_longer_crosses stp_fired : MatchOutcome

unfoldable pub crosses : OrderType → Side → Price → Price → Bool
crosses market side price resting_price = true
crosses kind buy price resting_price = leb_ℤ resting_price price
crosses kind sell price resting_price = leb_ℤ price resting_price

unfoldable pub victim_of : Order → StpVictim
victim_of o = record {
  id = o.id;
  price = o.price;
  quantity = o.quantity;
  remaining = o.remaining;
  participant = o.participant;
  seq = o.seq;
  side = o.side;
}

-- The record of a victim, and its leaving the id map and the pool.
unfoldable pub drop_victim : Run → Order → Run
drop_victim r o = record r {
  victims = Option.map (λ b. push b (victim_of o)) r.victims;
  ids = erase o.id r.ids;
  in_use = r.in_use - 1;
}

-- The trade is at the price of the order that rests.
unfoldable pub trade_of : NewOrder → Order → ℕ → ℕ → Trade
trade_of inc o qty id = record {
  id = id;
  aggressor_id = inc.id;
  passive_id = o.id;
  price = o.price;
  quantity = qty;
  aggressor_side = inc.side;
}

unfoldable pub emit : NewOrder → Order → ℕ → Run → Run
emit inc o qty r = record r {
  remaining = r.remaining - qty;
  trades = push r.trades (trade_of inc o qty r.next_trade_id);
  next_trade_id = r.next_trade_id + 1;
}

unfoldable pub drop_filled : Run → Order → Run
drop_filled r o = record r { ids = erase o.id r.ids; in_use = r.in_use - 1 }

-- The state behind the inner loop. `emptied` says that the self-trade branch has already told the
-- side of its empty level.
pub record QueueResult : Type 0 where
  pub outcome : MatchOutcome
  pub level : PriceLevel
  pub emptied : Bool
  pub run : Run

unfoldable pub halt : MatchOutcome → PriceLevel → Bool → Run → QueueResult
halt outcome l emptied r = record { outcome = outcome; level = l; emptied = emptied; run = r }

-- The level with the queue that the loop has before it.
unfoldable pub with_queue : PriceLevel → List Order → PriceLevel
with_queue l os = record l { queue = os }

unfoldable pub fill : Order → ℕ → Order
fill o qty = record o { remaining = o.remaining - qty }

-- The level behind a trade with its first order.
unfoldable pub traded : PriceLevel → Order → List Order → ℕ → PriceLevel
traded l o os qty = reduce_quantity (with_queue l (fill o qty ∷ os)) qty

-- The inner loop, over the queue of the level `l`, whose other fields are kept up to date. A partly
-- filled order takes all that remains, so that the test of the loop fails behind it.
unfoldable pub match_queue :
    StpPolicy → NewOrder → List Order → PriceLevel → Bool → Run → QueueResult
match_queue stp inc [] l emptied r = halt exhausted (with_queue l []) emptied r
match_queue stp inc (o ∷ os) l emptied r =
    let left : PriceLevel = unlink (with_queue l (o ∷ os)) o in
    let qty : ℕ = min r.remaining o.remaining in
    let behind_victim = match_queue stp inc os left (is_empty left) (drop_victim r o) in
    let behind_filled =
      match_queue stp inc os (unlink (traded l o os qty) (fill o qty)) emptied
        (drop_filled (emit inc o qty r) o) in
    if r.remaining == 0
    then halt exhausted (with_queue l (o ∷ os)) emptied r
    else if o.participant == inc.participant
    then elim stp [
      | cancel_aggressor ↦ halt stp_fired (with_queue l (o ∷ os)) emptied r
      | cancel_passive ↦ behind_victim
      | cancel_both ↦ halt stp_fired left (is_empty left) (drop_victim r o)
    ]
    else if (fill o qty).remaining == 0
    then behind_filled
    else halt exhausted (traded l o os qty) emptied (emit inc o qty r)

pub record MatchResult : Type 0 where
  pub outcome : MatchOutcome
  pub side : LevelMap
  pub run : Run

-- One round of the outer loop: it ends the loop, or goes on.
pub data Visit : Type 0 where
  stop : MatchResult → Visit
  again : LevelMap → Run → Visit

unfoldable pub tell_emptied : Bool → LevelMap → Price → LevelMap
tell_emptied b m p = if b then on_level_emptied m p else m

unfoldable pub leave_level : LevelMap → Price → QueueResult → Visit
leave_level m p q =
    let told = tell_emptied q.emptied (put_level m p q.level) p in
    elim q.outcome [
      | stp_fired ↦ stop (record { outcome = stp_fired; side = told; run = q.run })
      | _ ↦ again (tell_emptied (is_empty q.level) told p) q.run
    ]

-- The best price is always that of a level; without one the loop ends here.
unfoldable pub visit : StpPolicy → NewOrder → LevelMap → Run → Visit
visit stp inc m r =
    if ltb 0 r.remaining && has_best m
    then if crosses inc.kind inc.side inc.price m.best
      then elim_option (level_at m m.best)
          (stop (record { outcome = exhausted; side = m; run = r }))
          (λ l. leave_level m m.best (match_queue stp inc l.queue l false r))
      else stop (record { outcome = no_longer_crosses; side = m; run = r })
    else stop (record { outcome = exhausted; side = m; run = r })

-- The outer loop, on fuel: each round that goes on empties a level or the order.
unfoldable pub match_into : ℕ → StpPolicy → NewOrder → LevelMap → Run → MatchResult
match_into zero stp inc m r = record { outcome = exhausted; side = m; run = r }
match_into (suc fuel) stp inc m r = elim (visit stp inc m r) [
  | stop out ↦ out
  | again m' r' ↦ match_into fuel stp inc m' r'
]
