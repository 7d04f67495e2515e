-- ===== src/Engine/OrderBook/Pair.antt =====
-- The two sides of a book with its id map and pool: what holds between them, seen from either side.
use native.Mathlib.Nat.{le-div_iff_mul-le}
use order_matching_engine.Base.{
  ℕ, ◌+◌, ◌*◌, ◌≡◌, refl, subst, sym, ◌∙◌, ◌<◌, ◌≤◌, List, [], ◌∷◌, ◌++◌, Bool, true, false, arith,
  some, length, get_elem?, set, if◌then◌else◌, sum_by, sum_by-set, ℕ_discrete,
}
use order_matching_engine.Base.Int.{pos, pos_part, ◌-ℤ◌, ◌≤ℤ◌, +ℤ_parts, -ℤ_parts}
use order_matching_engine.Common.Types.{Price, Side, buy, sell, opposite}
use order_matching_engine.Engine.Order.{Order, NewOrder, StpPolicy}
use order_matching_engine.Engine.PriceLevel.{PriceLevel, enqueue}
use order_matching_engine.Book.LevelMap.{
  LevelMap, occupied, put_level, on_level_emptied, in_range, slot_price, add_order, better_price,
}
use order_matching_engine.Book.LevelMap.Slots.{IsGrid, price_of}
use order_matching_engine.Book.LevelMap.Scan.{occupied-set_ne}
use order_matching_engine.Book.LevelMap.Best.{Better}
use order_matching_engine.Book.LevelMap.Valid.{IsSide}
use order_matching_engine.Book.LevelMap.Add.{Fits, add_order_at, get_elem?-some}
use order_matching_engine.Book.IdSet.{count}
use order_matching_engine.Engine.Match.{Run, tell_emptied, match_into}
use order_matching_engine.Engine.Match.Account.{occurs, occurs-IsTally, length-IsTally}
use order_matching_engine.Engine.Match.Round.{settled, served}
use order_matching_engine.Engine.Match.Loop.{LoopCases, Serves, left, match_into_rule, Enough}
use order_matching_engine.Engine.Match.Totals.{
  over_side, levels-settled, put_level-levels, match_into-le, match_into-IsSide, match_into-ids,
  match_into-in_use,
}

-- The grid of prices of a side.
abbrev pub SameGrid : LevelMap → LevelMap → Type 0
SameGrid m n = (n.min_price ≡ m.min_price) × (n.max_price ≡ m.max_price) × (n.tick ≡ m.tick)

pub record IsPair (s : Side) (own opp : LevelMap) (ids : List ℕ) (in_use cap : ℕ) : Type 0 where
  pub own_valid : IsSide own
  pub opp_valid : IsSide opp
  pub own_side : own.side ≡ s
  pub opp_side : opp.side ≡ opposite s
  pub grid : SameGrid own opp
  -- An order of this side is worse than each of the other: the book is not crossed.
  pub apart : (i j : ℕ) → occupied own.levels i ≡ true → occupied opp.levels j ≡ true → Better s j i
  pub named : (k : ℕ) → count k ids ≡ over_side (occurs k) own + over_side (occurs k) opp
  pub once : (k : ℕ) → count k ids ≤ 1
  pub pooled : in_use ≡ over_side length own + over_side length opp
  pub room : in_use ≤ cap

pub IsPair-swap :
    (s : Side) (own opp : LevelMap) (ids : List ℕ) (in_use cap : ℕ)
    → IsPair s own opp ids in_use cap
    → IsPair (opposite s) opp own ids in_use cap
unfolding opposite
IsPair-swap s own opp ids in_use cap v = record {
  own_valid = v.opp_valid;
  opp_valid = v.own_valid;
  own_side = v.opp_side;
  opp_side = v.own_side ∙ twice s;
  grid = (sym v.grid.0, sym v.grid.1, sym v.grid.2);
  apart = λ i j a b. turn s i j (v.apart j i b a);
  named = λ k. omega (arith, v.named k);
  once = v.once;
  pooled = omega (arith, v.pooled);
  room = v.room;
}
  where
    twice : (s : Side) → s ≡ opposite (opposite s)
    twice buy = refl
    twice sell = refl

    turn : (s : Side) (i j : ℕ) → Better s i j → Better (opposite s) j i
    turn buy i j h = h
    turn sell i j h = h

pub SameGrid-settled : (m : LevelMap) (p : Price) (l : PriceLevel) → SameGrid m (settled m p l)
unfolding tell_emptied put_level on_level_emptied
SameGrid-settled m p l = ground arith

module _ (stp : StpPolicy) (inc : NewOrder) where
  grid_cases : LoopCases stp inc (λ m r out. SameGrid m out.side)
  grid_cases = record {
    over = λ m r v o. (refl, refl, refl);
    apart = λ m r i v p b f. (refl, refl, refl);
    fired = λ m r i l s. SameGrid-settled m (price_of m i) (served stp inc l r).level;
    onward = λ m r i l out s ih.
        let g = SameGrid-settled m (price_of m i) (served stp inc l r).level in
        (ih.0 ∙ g.0, ih.1 ∙ g.1, ih.2 ∙ g.2);
  }

  Shrinks : LevelMap → LevelMap → Type 0
  Shrinks m n = (j : ℕ) → occupied n.levels j ≡ true → occupied m.levels j ≡ true

  left-Shrinks :
      (m : LevelMap) (r : Run) (i : ℕ) (l : PriceLevel)
      → Serves stp inc m r i l
      → Shrinks m (left stp inc m r i l)
  unfolding Shrinks put_level
  left-Shrinks m r i l s j t = elim (ℕ_discrete i j) [
    | yes e ↦ rw (← e) s.best.taken
    | no ne ↦
        let new = (served stp inc l r).level in
        let same =
          levels-settled m (price_of m i) new ∙ put_level-levels m i new s.valid.grid.tick_pos in
        sym (occupied-set_ne m.levels new ne) ∙ subst (λ ls. occupied ls j ≡ true) same t
  ]

  shrink_cases : LoopCases stp inc (λ m r out. Shrinks m out.side)
  unfolding Shrinks
  shrink_cases = record {
    over = λ m r v o j t. t;
    apart = λ m r i v p b f j t. t;
    fired = λ m r i l s. left-Shrinks m r i l s;
    onward = λ m r i l out s ih j t. left-Shrinks m r i l s j (ih j t);
  }

  -- The match loop keeps what holds between the sides.
  pub match_into-IsPair :
      (fuel : ℕ) (s : Side) (own opp : LevelMap) (r : Run) (cap : ℕ)
      → Enough stp inc fuel opp r
      → IsPair s own opp r.ids r.in_use cap
      → let out = match_into fuel stp inc opp r in
        IsPair s own out.side out.run.ids out.run.in_use cap
  unfolding Shrinks
  match_into-IsPair fuel s own opp r cap e v =
      let out = match_into fuel stp inc opp r in
      let valid = match_into-IsSide stp inc fuel opp r v.opp_valid e in
      let g = match_into_rule stp inc grid_cases fuel opp r v.opp_valid e in
      let gone = match_into-ids stp inc fuel opp r v.opp_valid e (λ j. omega (arith, v.named j)) in
      let pool = match_into-in_use stp inc fuel opp r v.opp_valid e (omega (arith, v.pooled)) in
      record {
        own_valid = v.own_valid;
        opp_valid = valid.0;
        own_side = v.own_side;
        opp_side = valid.1 ∙ v.opp_side;
        grid = (g.0 ∙ v.grid.0, g.1 ∙ v.grid.1, g.2 ∙ v.grid.2);
        apart = λ i j a b.
            v.apart i j a (match_into_rule stp inc shrink_cases fuel opp r v.opp_valid e j b);
        named = λ k. omega (arith, v.named k, gone k);
        once = λ k. omega (
          arith,
          v.once k,
          gone k,
          match_into-le stp inc (occurs k) (occurs-IsTally k) fuel opp r v.opp_valid e,
        );
        pooled = omega (arith, v.pooled, pool);
        room = omega (
          arith,
          v.room,
          pool,
          match_into-le stp inc length length-IsTally fuel opp r v.opp_valid e,
        );
      }

pub in_range-lt :
    (m : LevelMap) (i : ℕ) → IsGrid m → in_range m (price_of m i) ≡ true → i < length m.levels
unfolding in_range slot_price
in_range-lt m i g h =
    let d = pos_part (m.max_price -ℤ m.min_price) in
    let top : price_of m i ≤ℤ m.max_price = ground arith in
    let fits : i * m.tick ≤ d = omega (
      arith,
      +ℤ_parts m.min_price (pos (i * m.tick)),
      -ℤ_parts m.max_price m.min_price,
      g.ordered,
    ) in
    omega (arith, g.slots, (le-div_iff_mul-le {x = i} {y = d} g.tick_pos).1 fits)

pub over_side-add_order :
    (f : List Order → ℕ) (c : ℕ) (m : LevelMap) (i : ℕ) (o : Order)
    → ((os : List Order) → f (os ++ (o ∷ [])) ≡ f os + c)
    → i < length m.levels
    → Fits m i o
    → IsSide m
    → over_side f (add_order m o) ≡ over_side f m + c
unfolding enqueue
over_side-add_order f c m i o step inside fits v =
    let (l, at) = get_elem?-some m.levels i inside in
    rw (add_order_at m i o l v.grid.tick_pos fits.price at)
      (added_sum (better_price m.side (price_of m i) m.best) l at)
  where
    set_sum :
        (l : PriceLevel)
        → get_elem? m.levels i ≡ some l
        → sum_by (λ (x : PriceLevel). f x.queue) (set m.levels i (enqueue l o)) ≡ over_side f m + c
    set_sum l at = omega (
      arith,
      sum_by-set (λ (x : PriceLevel). f x.queue) m.levels i l (enqueue l o) at,
      step l.queue,
    )

    added_sum :
        (b : Bool) (l : PriceLevel)
        → get_elem? m.levels i ≡ some l
        → over_side f (
            if b
            then record m { levels = set m.levels i (enqueue l o); best = price_of m i }
            else record m { levels = set m.levels i (enqueue l o) })
          ≡ over_side f m + c
    added_sum true l at = set_sum l at
    added_sum false l at = set_sum l at
