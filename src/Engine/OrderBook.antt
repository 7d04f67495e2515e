-- ===== src/Engine/OrderBook.antt =====
-- engine/order_book.hpp and engine/order_book.cpp: the book of one instrument and its commands.
-- A command returns the new book beside its results. `Order*` is the order of an id.
pub mod Pair
pub mod Changes
pub mod Invariant
pub mod Submit
pub mod Commands
pub mod Start
pub mod Conserve
pub mod Deals
pub mod Buffers
use order_matching_engine.Base.{
  ℕ, zero, suc, ◌+◌, ◌-◌, ◌*◌, List, [], ◌∷◌, Bool, true, false, not, ◌&&◌, Option, none, some, ltb,
  leb, ◌==◌, if◌then◌else◌, elim_option, get_elem?, length,
}
use mathlib.Core.Option
use order_matching_engine.Base.Int.{ℤ, pos, pos_part, leb_ℤ, eqb_ℤ}
use order_matching_engine.Common.Types.{Price, Side, buy, sell, opposite, empty_sentinel}
use order_matching_engine.Engine.Order.{
  Order, NewOrder, OrderType, is_market, is_fok, limit, market, ioc, fok, StpPolicy, cancel_passive,
  cancel_both, Trade, TradeBuffer, StpVictim, StpVictimBuffer, BookConfig, OrderResult, no_result,
  SubmitStatus, rejected_price_out_of_range, rejected_invalid_quantity, rejected_duplicate_id,
  rejected_pool_exhausted, rejected_unknown_order, rejected_market_into_empty_book,
  rejected_fok_unfillable, cancelled_by_self_trade_prevention, cancelled_residual,
}
use order_matching_engine.Engine.Order
use order_matching_engine.Engine.PriceLevel.{PriceLevel, unlink, is_empty, find}
use order_matching_engine.Book.LevelMap.{
  LevelMap, in_range, index, has_best, level_at, put_level, on_level_emptied, next_occupied,
  add_order,
}
use order_matching_engine.Book.LevelMap
use order_matching_engine.Book.IdSet.{contains, insert, erase}
use order_matching_engine.Engine.Match.{
  Run, MatchOutcome, exhausted, stp_fired, MatchResult, crosses, match_into,
}

pub record OrderBook : Type 0 where
  pub config : BookConfig
  pub bids : LevelMap
  pub asks : LevelMap
  pub ids : List ℕ
  pub in_use : ℕ
  pub seq : ℕ
  pub next_trade_id : ℕ

unfoldable pub init : BookConfig → OrderBook
init c = record {
  config = c;
  bids = LevelMap.init buy c.min_price c.max_price c.tick;
  asks = LevelMap.init sell c.min_price c.max_price c.tick;
  ids = [];
  in_use = 0;
  seq = 0;
  next_trade_id = 0;
}

unfoldable pub side_of : Side → OrderBook → LevelMap
side_of buy b = b.bids
side_of sell b = b.asks

unfoldable pub put_side : Side → LevelMap → OrderBook → OrderBook
put_side buy m b = record b { bids = m }
put_side sell m b = record b { asks = m }

unfoldable pub quantity_at : Side → Price → OrderBook → ℕ
quantity_at s p b = elim_option (level_at (side_of s b) p) 0 (λ l. l.total_qty)

-- `none`: the scan goes on to the next level; `some`: it returns.
unfoldable pub available_in : StpPolicy → NewOrder → List Order → ℕ → ℕ × Bool
available_in stp inc [] sum = (sum, false)
available_in stp inc (o ∷ os) sum =
    let skipped = available_in stp inc os sum in
    let counted = available_in stp inc os (sum + o.remaining) in
    if o.participant == inc.participant
    then elim stp [ cancel_passive ↦ skipped | _ ↦ (sum, true) ]
    else if leb (pos_part inc.quantity) (sum + o.remaining)
    then (sum + o.remaining, true)
    else counted

unfoldable pub available_from : ℕ → StpPolicy → NewOrder → LevelMap → Price → ℕ → ℕ
available_from zero stp inc m p sum = sum
available_from (suc fuel) stp inc m p sum =
    let here = elim_option (level_at m p) (sum, true) (λ l. available_in stp inc l.queue sum) in
    let rest = available_from fuel stp inc m (next_occupied m p) here.0 in
    if eqb_ℤ p (empty_sentinel m.side)
    then sum
    else if crosses inc.kind inc.side inc.price p
    then (if here.1 then here.0 else rest)
    else sum

-- A walk over a side meets each of its levels at most once.
unfoldable pub rounds : LevelMap → ℕ
rounds m = length m.levels + 1

unfoldable pub available_against : OrderBook → NewOrder → ℕ
available_against b inc =
    let m = side_of (opposite inc.side) b in available_from (rounds m) b.config.stp inc m m.best 0

-- The order that the pool gives out, filled in.
unfoldable pub order_of : NewOrder → ℕ → ℕ → Order
order_of o remaining seq = record {
  remaining = remaining;
  participant = o.participant;
  price = o.price;
  id = o.id;
  side = o.side;
  quantity = pos_part o.quantity;
  seq = seq;
}

-- The book with one order more from the pool, in its level and in the id map.
unfoldable pub rested : OrderBook → Order → OrderBook
rested b o =
    put_side o.side (add_order (side_of o.side b) o)
      (record b { ids = insert o.id b.ids; in_use = b.in_use + 1 })

-- `none`: the pool is exhausted.
unfoldable pub rest_residual : OrderBook → NewOrder → ℕ → ℕ → Option OrderBook
unfolding order_of
rest_residual b inc my_seq remaining =
    if ltb b.in_use b.config.max_orders
    then some (rested b (order_of inc remaining my_seq))
    else none

pub record Submitted : Type 0 where
  pub book : OrderBook
  pub result : OrderResult
  pub trades : TradeBuffer
  pub victims : Option StpVictimBuffer

-- What every result of a submission carries.
unfoldable pub echo : NewOrder → OrderResult
echo inc = record no_result {
  price = inc.price;
  quantity = inc.quantity;
  participant = inc.participant;
  side = inc.side;
}

-- The checks of `submitEx`, in its order.
unfoldable pub rejection : OrderBook → NewOrder → Option SubmitStatus
rejection b inc =
    if leb_ℤ inc.quantity (pos 0)
    then some rejected_invalid_quantity
    else if not (is_market inc.kind) && not (in_range b.bids inc.price)
    then some rejected_price_out_of_range
    else if contains inc.id b.ids
    then some rejected_duplicate_id
    else if is_market inc.kind && not (has_best (side_of (opposite inc.side) b))
    then some rejected_market_into_empty_book
    else if is_fok inc.kind && ltb (available_against b inc) (pos_part inc.quantity)
    then some rejected_fok_unfillable
    else none

-- What becomes of the rest of the order, behind the match loop.
unfoldable pub settle : OrderType → OrderBook → NewOrder → OrderResult → OrderBook × OrderResult
settle limit b inc res =
    if res.remaining == 0
    then (b, record res { status = Order.ok })
    else elim_option (rest_residual b inc res.seq res.remaining)
        (b, record res { status = rejected_pool_exhausted })
        (λ b'. (b', record res { status = Order.ok; rested = true }))
settle fok b inc res =
    (b, record res { status = if res.remaining == 0 then Order.ok else rejected_fok_unfillable })
settle _ b inc res =
    (b, record res { status = if res.remaining == 0 then Order.ok else cancelled_residual })

unfoldable pub start_run : OrderBook → NewOrder → TradeBuffer → Option StpVictimBuffer → Run
start_run b inc trades victims = record {
  remaining = pos_part inc.quantity;
  trades = trades;
  victims = victims;
  ids = b.ids;
  in_use = b.in_use;
  next_trade_id = b.next_trade_id;
}

unfoldable pub match_side :
    OrderBook → NewOrder → TradeBuffer → Option StpVictimBuffer → MatchResult
match_side b inc trades victims =
    let m = side_of (opposite inc.side) b in
    match_into (rounds m + 1) b.config.stp inc m (start_run b inc trades victims)

-- The book behind the match loop.
unfoldable pub matched : OrderBook → NewOrder → MatchResult → OrderBook
matched b inc out = put_side (opposite inc.side) out.side (record b {
  ids = out.run.ids;
  in_use = out.run.in_use;
  seq = b.seq + 1;
  next_trade_id = out.run.next_trade_id;
})

unfoldable pub matched_result : OrderBook → NewOrder → MatchResult → OrderResult
matched_result b inc out = record (echo inc) {
  filled = pos_part inc.quantity - out.run.remaining;
  remaining = out.run.remaining;
  seq = b.seq + 1;
}

unfoldable pub conclude_as :
    MatchOutcome → OrderBook → NewOrder → OrderResult → OrderBook × OrderResult
conclude_as stp_fired b inc res = (b, record res { status = cancelled_by_self_trade_prevention })
conclude_as _ b inc res = settle inc.kind b inc res

unfoldable pub conclude : OrderBook → NewOrder → MatchResult → OrderBook × OrderResult
unfolding conclude_as
conclude b inc out = conclude_as out.outcome (matched b inc out) inc (matched_result b inc out)

-- A submission behind its checks.
unfoldable pub submit_checked :
    Option SubmitStatus → OrderBook → NewOrder → TradeBuffer → Option StpVictimBuffer → Submitted
submit_checked (some status) b inc trades victims = record {
  book = b;
  result = record (echo inc) { status = status };
  trades = trades;
  victims = victims;
}
submit_checked none b inc trades victims =
    let out = match_side b inc trades victims in
    record {
      book = (conclude b inc out).0;
      result = (conclude b inc out).1;
      trades = out.run.trades;
      victims = out.run.victims;
    }

unfoldable pub submit_ex : OrderBook → NewOrder → TradeBuffer → Option StpVictimBuffer → Submitted
unfolding submit_checked
submit_ex b inc trades victims = submit_checked (rejection b inc) b inc trades victims

unfoldable pub submit : OrderBook → NewOrder → TradeBuffer → OrderBook × SubmitStatus × TradeBuffer
submit b inc trades = let s = submit_ex b inc trades none in (s.book, s.result.status, s.trades)

-- The order of an id that rests in one of the levels.
unfoldable pub find_in : ℕ → List PriceLevel → Option Order
find_in id [] = none
find_in id (l ∷ ls) = elim_option (find id l.queue) (find_in id ls) some

-- `idMap_.find`.
unfoldable pub find_order : OrderBook → ℕ → Option Order
find_order b id =
    if contains id b.ids
    then elim_option (find_in id b.bids.levels) (find_in id b.asks.levels) some
    else none

-- The unlinking of an order from its level, which is that of its price.
unfoldable pub take_out : LevelMap → Order → LevelMap
take_out m o = elim_option (get_elem? m.levels (index m o.price)) m λ l.
    let l' = unlink l o in
    let m' = put_level m o.price l' in if is_empty l' then on_level_emptied m' o.price else m'

unfoldable pub withdrawn : OrderBook → Order → OrderBook
withdrawn b o =
    put_side o.side (take_out (side_of o.side b) o)
      (record b { ids = erase o.id b.ids; in_use = b.in_use - 1 })

unfoldable pub cancel_result : Order → OrderResult
cancel_result o = record no_result {
  status = Order.ok;
  filled = o.quantity - o.remaining;
  remaining = o.remaining;
  price = o.price;
  quantity = pos o.quantity;
  participant = o.participant;
  seq = o.seq;
  side = o.side;
}

unfoldable pub cancel : OrderBook → ℕ → OrderBook × OrderResult
cancel b id =
    elim_option (find_order b id) (b, record no_result { status = rejected_unknown_order })
      λ o. (withdrawn b o, cancel_result o)

-- The checks of `replace`, in its order.
unfoldable pub replace_rejection : OrderBook → ℕ → NewOrder → Option SubmitStatus
replace_rejection b old_id fresh =
    if not (contains old_id b.ids)
    then some rejected_unknown_order
    else if leb_ℤ fresh.quantity (pos 0)
    then some rejected_invalid_quantity
    else if not (is_market fresh.kind) && not (in_range b.bids fresh.price)
    then some rejected_price_out_of_range
    else if not (fresh.id == old_id) && contains fresh.id b.ids
    then some rejected_duplicate_id
    else none

-- The last part is what goes to `oldResult`: nothing if the checks reject the command.
unfoldable pub replace_checked :
    Option SubmitStatus
    → OrderBook
    → ℕ
    → NewOrder
    → TradeBuffer
    → Option StpVictimBuffer
    → Submitted × Option OrderResult
replace_checked (some status) b old_id fresh trades victims = (
  record {
    book = b;
    result = record no_result { status = status };
    trades = trades;
    victims = victims;
  },
  none,
)
replace_checked none b old_id fresh trades victims =
    (submit_ex (cancel b old_id).0 fresh trades victims, some (cancel b old_id).1)

unfoldable pub replace :
    OrderBook → ℕ → NewOrder → TradeBuffer → Option StpVictimBuffer → Submitted × Option OrderResult
unfolding replace_checked
replace b old_id fresh trades victims =
    replace_checked (replace_rejection b old_id fresh) b old_id fresh trades victims

-- `none`: the pool is exhausted, or the id is there already.
unfoldable pub restore_resting : OrderBook → NewOrder → ℕ → ℕ → Option OrderBook
unfolding order_of
restore_resting b o remaining seq =
    if ltb b.in_use b.config.max_orders
    then (if contains o.id b.ids then none else some (rested b (order_of o remaining seq)))
    else none

unfoldable pub restore_counters : OrderBook → ℕ → ℕ → OrderBook
restore_counters b last_seq next_trade_id = record b {
  seq = last_seq;
  next_trade_id = next_trade_id;
}
