-- ===== src/Engine/OrderBook/Submit.antt =====
-- A submission keeps the invariant of the book.
use order_matching_engine.Base.{
  ℕ, ◌+◌, ◌/◌, ◌≡◌, refl, subst, sym, ap, ◌∙◌, ◌≢◌, ◌<◌, ◌≤◌, inl, inr, true, false, arith, Option,
  none, some, length, Bool-cases, ℕ_discrete, dec_lt, ltb, ◌==◌,
}
use mathlib.Core.Bool.{false≢true}
use order_matching_engine.Base.Int.{pos_part, ◌-ℤ◌, leb_ℤ, ◌<ℤ◌}
use order_matching_engine.Common.Types.{Price, Side, buy, sell, opposite}
use order_matching_engine.Engine.Order.{
  Order, NewOrder, OrderType, limit, market, ioc, fok, is_market, TradeBuffer, StpVictimBuffer,
  SubmitStatus, OrderResult,
}
use order_matching_engine.Book.LevelMap.{LevelMap, occupied, in_range, add_order}
use order_matching_engine.Book.LevelMap.Slots.{IsGrid, price_of, price_of-mono}
use order_matching_engine.Book.LevelMap.Best.{Better, IsBestAt, IsBare}
use order_matching_engine.Book.IdSet.{contains, insert}
use order_matching_engine.Engine.Match.{MatchResult, MatchOutcome, stp_fired, crosses}
use order_matching_engine.Engine.Match.Totals.{Ended, by_stp, filled, bare, apart}
use order_matching_engine.Engine.OrderBook.{
  OrderBook, side_of, put_side, rejection, rest_residual, rested, order_of, settle, conclude,
  conclude_as, matched_result, matched, match_side, submit_ex, submit_checked,
}
use order_matching_engine.Engine.OrderBook.Pair.{in_range-lt}
use order_matching_engine.Engine.OrderBook.Changes.{add_order-IsPair}
use order_matching_engine.Engine.OrderBook.Invariant.{
  IsBook, IsBook-IsPairOf, IsPairOf-IsBook, OnTick, Accepted, rejection-none, put_own-IsPairOf,
  matched-IsBook, side_of-put_side, match_side-Ended, match_side-fresh, side_of-record,
}

slot_lt : (m : LevelMap) → IsGrid m → (i k : ℕ) → price_of m i <ℤ price_of m k → i < k
slot_lt m g i k h = elim (dec_lt i k) [
  | yes p ↦ p
  | no p ↦ elim (ℕ_discrete i k) [
    | yes e ↦
        let h' : price_of m k <ℤ price_of m k = subst (λ x. price_of m x <ℤ price_of m k) e h in
        absurd (omega arith)
    | no ne ↦ absurd (omega (arith, price_of-mono m k i g.tick_pos (omega arith)))
  ]
]

from_first :
    (m : LevelMap) (k j : ℕ)
    → ((n : ℕ) → n < k → occupied m.levels n ≡ false)
    → occupied m.levels j ≡ true
    → k ≤ j
from_first m k j first t = elim (dec_lt j k) [
  | yes p ↦ absurd (false≢true (sym (first j p) ∙ t))
  | no p ↦ omega arith
]

to_last :
    (m : LevelMap) (k j : ℕ)
    → ((n : ℕ) → k < n → occupied m.levels n ≡ false)
    → occupied m.levels j ≡ true
    → j ≤ k
to_last m k j last t = elim (dec_lt k j) [
  | yes p ↦ absurd (false≢true (sym (last j p) ∙ t))
  | no p ↦ omega arith
]

-- Where the best opposite slot does not cross, the limit is on its own side of all opposite slots.
not_crossing :
    (s : Side) (m : LevelMap) (price : Price) (i k j : ℕ)
    → IsGrid m
    → price ≡ price_of m i
    → crosses limit s price (price_of m k) ≡ false
    → ((n : ℕ) → Better (opposite s) n k → occupied m.levels n ≡ false)
    → occupied m.levels j ≡ true
    → Better s j i
unfolding crosses opposite
not_crossing buy m price i k j g e f first t =
    let f' : leb_ℤ (price_of m k) (price_of m i) ≡ false =
      subst (λ p. leb_ℤ (price_of m k) p ≡ false) e f in
    omega (arith, slot_lt m g i k (ground arith), from_first m k j first t)
not_crossing sell m price i k j g e f first t =
    let f' : leb_ℤ (price_of m i) (price_of m k) ≡ false =
      subst (λ p. leb_ℤ p (price_of m k) ≡ false) e f in
    omega (arith, slot_lt m g k i (ground arith), to_last m k j first t)

-- The opposite side of a book that a limit order does not cross.
abbrev Clear : Side → OrderBook → ℕ → Type 0
Clear s b i = (j : ℕ) → occupied (side_of (opposite s) b).levels j ≡ true → Better s j i

-- An order that does not cross may come to rest.
pub rested-IsBook :
    (b : OrderBook) (o : Order) (i : ℕ)
    → IsBook b
    → 0 < o.remaining
    → o.price ≡ price_of (side_of o.side b) i
    → i < length (side_of o.side b).levels
    → contains o.id b.ids ≡ false
    → b.in_use < b.config.max_orders
    → Clear o.side b i
    → IsBook (rested b o)
unfolding rested
rested-IsBook b o i v p at inside new space clear =
    let w = IsBook-IsPairOf o.side b v in
    let b' : OrderBook = record b { ids = insert o.id b.ids; in_use = b.in_use + 1 } in
    IsPairOf-IsBook o.side _ (
      put_own-IsPairOf o.side b' (add_order (side_of o.side b) o) (
        rw
          (side_of-record (opposite o.side) b (insert o.id b.ids) (b.in_use + 1) b.seq
            b.next_trade_id)
          (add_order-IsPair o.side (side_of o.side b) (side_of (opposite o.side) b) b.ids b.in_use
            b.config.max_orders i o inside
            (record { price = at; side = sym w.own_side; positive = p }) new space clear w)))

-- A limit order's own side has the slot of its price.
slot_of_limit :
    (s : Side) (b : OrderBook) (price : Price) (i : ℕ)
    → IsBook b
    → price ≡ price_of b.bids i
    → in_range b.bids price ≡ true
    → (price ≡ price_of (side_of s b) i) × (i < length (side_of s b).levels)
unfolding side_of
slot_of_limit buy b price i v e r =
    (e, in_range-lt b.bids i v.own_valid.grid (subst (λ p. in_range b.bids p ≡ true) e r))
slot_of_limit sell b price i v e r =
    let inside =
      in_range-lt b.bids i v.own_valid.grid (subst (λ p. in_range b.bids p ≡ true) e r) in
    (
      e ∙ same_price,
      omega (arith, inside, v.own_valid.grid.slots, v.opp_valid.grid.slots, same_slots),
    )
  where
    same_price : price_of b.bids i ≡ price_of b.asks i
    same_price = rw (v.grid.0, v.grid.2)

    same_slots :
        pos_part (b.asks.max_price -ℤ b.asks.min_price) / b.asks.tick
        ≡ pos_part (b.bids.max_price -ℤ b.bids.min_price) / b.bids.tick
    same_slots = rw (v.grid.0, v.grid.1, v.grid.2)

-- A book is clear for a limit order that does not cross its best opposite slot.
best-Clear :
    (s : Side) (b : OrderBook) (price : Price) (i k : ℕ)
    → IsBook b
    → price ≡ price_of (side_of s b) i
    → IsBestAt (side_of (opposite s) b) k
    → crosses limit s price (price_of (side_of (opposite s) b) k) ≡ false
    → Clear s b i
best-Clear s b price i k v at best f j t =
    let w = IsBook-IsPairOf s b v in
    let m = side_of (opposite s) b in
    let same : price_of (side_of s b) i ≡ price_of m i = rw (w.grid.0, w.grid.2) in
    not_crossing s m price i k j w.opp_valid.grid (at ∙ same) f
      (λ n h. best.first n (subst (λ x. Better x n k) (sym w.opp_side) h)) t

bare-Clear : (s : Side) (b : OrderBook) (i : ℕ) → IsBare (side_of (opposite s) b) → Clear s b i
bare-Clear s b i none_there j t = absurd (false≢true (sym (none_there.vacant j) ∙ t))

settle-IsBook :
    (kind : OrderType) (b : OrderBook) (inc : NewOrder) (res : OrderResult)
    → IsBook b
    → contains inc.id b.ids ≡ false
    → (kind ≡ limit
        → 0 < res.remaining
        → (i : ℕ) × (inc.price ≡ price_of (side_of inc.side b) i)
          × (i < length (side_of inc.side b).levels)
          × Clear inc.side b i)
    → IsBook (settle kind b inc res).0
unfolding settle rest_residual order_of
settle-IsBook limit b inc res v new place = elim (Bool-cases (res.remaining == 0)) [
  | inl z ↦ rw z v
  | inr more ↦ elim (Bool-cases (ltb b.in_use b.config.max_orders)) [
    | inr full ↦ rw (more, full) v
    | inl space ↦
        let (i, at, inside, clear) = place refl (ground arith) in
        rw (more, space)
          (rested-IsBook b (order_of inc res.remaining res.seq) i v (ground arith) at inside new
            (ground arith) clear)
  ]
]
settle-IsBook fok b inc res v new place = v
settle-IsBook market b inc res v new place = v
settle-IsBook ioc b inc res v new place = v

own_side-put :
    (s : Side) (m : LevelMap) (b : OrderBook) → side_of s (put_side (opposite s) m b) ≡ side_of s b
unfolding side_of put_side opposite
own_side-put buy m b = refl
own_side-put sell m b = refl

ids-put : (s : Side) (m : LevelMap) (b : OrderBook) → (put_side s m b).ids ≡ b.ids
unfolding put_side
ids-put buy m b = refl
ids-put sell m b = refl

module _ (b : OrderBook) (inc : NewOrder) (trades : TradeBuffer) (victims : Option StpVictimBuffer)
    (v : IsBook b) (tick : OnTick b inc) (a : Accepted b inc) where
  abbrev out : MatchResult
  out = match_side b inc trades victims

  opp-matched : side_of (opposite inc.side) (matched b inc out) ≡ out.side
  unfolding matched
  opp-matched = side_of-put_side (opposite inc.side) out.side _

  own-matched : side_of inc.side (matched b inc out) ≡ side_of inc.side b
  unfolding matched
  own-matched = own_side-put inc.side out.side _ ∙ side_of-record inc.side b _ _ _ _

  ids-matched : (matched b inc out).ids ≡ out.run.ids
  unfolding matched
  ids-matched = ids-put (opposite inc.side) out.side _

  limit_priced : inc.kind ≡ limit → is_market inc.kind ≡ false
  unfolding is_market
  limit_priced k = ap is_market k

  place :
      inc.kind ≡ limit
      → 0 < out.run.remaining
      → Ended b.config.stp inc out
      → (out.outcome ≢ stp_fired)
      → let b' = matched b inc out in
        (i : ℕ) × (inc.price ≡ price_of (side_of inc.side b') i)
        × (i < length (side_of inc.side b').levels)
        × Clear inc.side b' i
  place k p end ns =
      let (i, e) = tick k in
      let b' = matched b inc out in
      let v' : IsBook b' = matched-IsBook b inc trades victims v in
      let slot = slot_of_limit inc.side b inc.price i v e (a.ranged (limit_priced k)) in
      let at : inc.price ≡ price_of (side_of inc.side b') i =
        slot.0 ∙ ap (λ m. price_of m i) (sym own-matched) in
      (i, at, rw own-matched slot.1, clear i at end)
    where
      clear :
          (i : ℕ)
          → inc.price ≡ price_of (side_of inc.side (matched b inc out)) i
          → Ended b.config.stp inc out
          → Clear inc.side (matched b inc out) i
      clear i at (by_stp x) = absurd (ns x)
      clear i at (filled n z) = absurd (omega arith)
      clear i at (bare n x) =
          bare-Clear inc.side (matched b inc out) i (subst IsBare (sym opp-matched) x)
      clear i at (apart j n x f) =
          best-Clear inc.side (matched b inc out) inc.price i j
            (matched-IsBook b inc trades victims v) at
            (subst (λ m. IsBestAt m j) (sym opp-matched) x)
            (subst (λ m. crosses limit inc.side inc.price (price_of m j) ≡ false) (sym opp-matched)
              (subst (λ t. crosses t inc.side inc.price (price_of out.side j) ≡ false) k f))

  conclude_as-IsBook :
      (o : MatchOutcome)
      → out.outcome ≡ o
      → IsBook (conclude_as o (matched b inc out) inc (matched_result b inc out)).0
  unfolding conclude_as matched_result
  conclude_as-IsBook stp_fired e = matched-IsBook b inc trades victims v
  conclude_as-IsBook o e =
      settle-IsBook inc.kind (matched b inc out) inc (matched_result b inc out)
        (matched-IsBook b inc trades victims v)
        (ap (contains inc.id) ids-matched ∙ match_side-fresh b inc trades victims v inc.id a.fresh)
        (λ k p. place k p (match_side-Ended b inc trades victims v) (λ x. cc))

  conclude-IsBook : IsBook (conclude b inc out).0
  unfolding conclude
  conclude-IsBook = conclude_as-IsBook out.outcome refl

submit_checked-IsBook :
    (c : Option SubmitStatus) (b : OrderBook) (inc : NewOrder) (trades : TradeBuffer)
    (victims : Option StpVictimBuffer)
    → rejection b inc ≡ c
    → IsBook b
    → OnTick b inc
    → IsBook (submit_checked c b inc trades victims).book
unfolding submit_checked
submit_checked-IsBook (some status) b inc trades victims e v tick = v
submit_checked-IsBook none b inc trades victims e v tick =
    conclude-IsBook b inc trades victims v tick (rejection-none b inc e)

-- On a book in order, a submission of any type (a limit order at a price of the grid) leaves a
-- book in order: each side has its levels and aggregates right and its best price recovered, the
-- book is not crossed, the id map names just the orders that rest, each once, and the pool is used
-- by just these.
pub submit_ex-IsBook :
    (b : OrderBook) (inc : NewOrder) (trades : TradeBuffer) (victims : Option StpVictimBuffer)
    → IsBook b
    → OnTick b inc
    → IsBook (submit_ex b inc trades victims).book
unfolding submit_ex
submit_ex-IsBook b inc trades victims v tick =
    submit_checked-IsBook (rejection b inc) b inc trades victims refl v tick
