-- ===== src/Engine/Match/Totals.antt =====
-- The whole match loop: what it leaves of the side, of the id map and of the pool, and how it ends.
use order_matching_engine.Base.{
  ℕ, ◌+◌, ◌≡◌, refl, ◌∙◌, ◌≢◌, ◌<◌, ◌≤◌, ◌⊎◌, inl, inr, List, false, arith, some, length, get_elem?,
  set, sum_by, sum_by-set, get_elem?-le_sum,
}
use native.Mathlib.Nat.{le_trans}
use order_matching_engine.Common.Types.{Price}
use order_matching_engine.Engine.Order.{Order, NewOrder, StpPolicy}
use order_matching_engine.Engine.PriceLevel.{PriceLevel}
use order_matching_engine.Engine.PriceLevel.Counted.{sum_remaining}
use order_matching_engine.Book.LevelMap.{LevelMap, put_level}
use order_matching_engine.Book.LevelMap.Slots.{price_of, index-price_of}
use order_matching_engine.Book.LevelMap.Best.{
  IsBestAt, IsBare, levels-on_level_emptied, side-on_level_emptied,
}
use order_matching_engine.Book.LevelMap.Valid.{IsSide}
use order_matching_engine.Book.IdSet.{count}
use order_matching_engine.Engine.Match.{
  Run, MatchResult, exhausted, stp_fired, tell_emptied, crosses, match_into,
}
use order_matching_engine.Engine.Match.Conserve.{
  Kept, KeptVictims, victim_quantity, sum_traded, match_queue-trades, match_queue-flow,
}
use order_matching_engine.Engine.Match.Account.{
  occurs, IsTally, match_queue-ids, match_queue-in_use, match_queue-le,
}
use order_matching_engine.Engine.Match.Round.{settled, served}
use order_matching_engine.Engine.Match.Loop.{
  LoopCases, Serves, ended, left, left-IsSide, match_into_rule, Enough,
}

-- A measure of the queues, summed over a side.
abbrev pub over_side : (List Order → ℕ) → LevelMap → ℕ
over_side f m = sum_by (λ (l : PriceLevel). f l.queue) m.levels

pub levels-settled :
    (m : LevelMap) (p : Price) (l : PriceLevel) → (settled m p l).levels ≡ (put_level m p l).levels
unfolding tell_emptied
levels-settled m p l = ground (arith, levels-on_level_emptied (put_level m p l) p)

pub side-settled : (m : LevelMap) (p : Price) (l : PriceLevel) → (settled m p l).side ≡ m.side
unfolding tell_emptied put_level
side-settled m p l = ground (arith, side-on_level_emptied (put_level m p l) p)

pub put_level-levels :
    (m : LevelMap) (i : ℕ) (l : PriceLevel)
    → 0 < m.tick
    → (put_level m (price_of m i) l).levels ≡ set m.levels i l
unfolding put_level
put_level-levels m i l h = rw (index-price_of m i h)

pub over_side-settled :
    (f : List Order → ℕ) (m : LevelMap) (i : ℕ) (old l : PriceLevel)
    → IsSide m
    → get_elem? m.levels i ≡ some old
    → over_side f (settled m (price_of m i) l) + f old.queue ≡ over_side f m + f l.queue
over_side-settled f m i old l v e =
    rw (levels-settled m (price_of m i) l, put_level-levels m i l v.grid.tick_pos)
      (sum_by-set (λ (x : PriceLevel). f x.queue) m.levels i old l e)

-- The queue of a level is a part of its side.
pub queue-le-over_side :
    (f : List Order → ℕ) (m : LevelMap) (i : ℕ) (l : PriceLevel)
    → get_elem? m.levels i ≡ some l
    → f l.queue ≤ over_side f m
queue-le-over_side f m i l e = get_elem?-le_sum (λ (x : PriceLevel). f x.queue) m.levels i l e

module _ (stp : StpPolicy) (inc : NewOrder) where
  valid_cases : LoopCases stp inc (λ m r out. IsSide out.side × (out.side.side ≡ m.side))
  valid_cases = record {
    over = λ m r v o. (v, refl);
    apart = λ m r i v p b f. (v, refl);
    fired = λ m r i l s.
        (left-IsSide stp inc m r i l s, side-settled m (price_of m i) (served stp inc l r).level);
    onward =
        λ m r i l out s ih. (ih.0, ih.1 ∙ side-settled m (price_of m i) (served stp inc l r).level);
  }

  -- The opposite side stays valid.
  pub match_into-IsSide :
      (fuel : ℕ) (m : LevelMap) (r : Run)
      → IsSide m
      → Enough stp inc fuel m r
      → let out = match_into fuel stp inc m r in IsSide out.side × (out.side.side ≡ m.side)
  match_into-IsSide = match_into_rule stp inc valid_cases

  -- How the loop may end.
  pub data Ended (out : MatchResult) : Type 0 where
    by_stp : out.outcome ≡ stp_fired → Ended out
    filled : out.outcome ≢ stp_fired → out.run.remaining ≡ 0 → Ended out
    bare : out.outcome ≢ stp_fired → IsBare out.side → Ended out
    apart :
        (i : ℕ)
        → out.outcome ≢ stp_fired
        → IsBestAt out.side i
        → crosses inc.kind inc.side inc.price (price_of out.side i) ≡ false
        → Ended out

  Ended-cases : LoopCases stp inc (λ m r out. Ended out)
  Ended-cases = record {
    over = λ m r v o. over_end m r o;
    apart = λ m r i v p b f. apart i (λ e. cc) b f;
    fired = λ m r i l s. by_stp refl;
    onward = λ m r i l out s ih. ih;
  }
    where
      over_end :
          (m : LevelMap) (r : Run) → (r.remaining ≡ 0) ⊎ IsBare m → Ended (ended exhausted m r)
      over_end m r (inl z) = filled (λ e. cc) z
      over_end m r (inr b) = bare (λ e. cc) b

  pub match_into-Ended :
      (fuel : ℕ) (m : LevelMap) (r : Run)
      → IsSide m
      → Enough stp inc fuel m r
      → Ended (match_into fuel stp inc m r)
  match_into-Ended = match_into_rule stp inc Ended-cases

  abbrev pub Covered : LevelMap → List ℕ → Type 0
  Covered m ids = (j : ℕ) → over_side (occurs j) m ≤ count j ids

  served_ids :
      (m : LevelMap) (r : Run) (i : ℕ) (l : PriceLevel) (k : ℕ)
      → Serves stp inc m r i l
      → Covered m r.ids
      → count k r.ids + over_side (occurs k) (left stp inc m r i l)
        ≡ count k (served stp inc l r).run.ids + over_side (occurs k) m
  served_ids m r i l k s c = omega (
    arith,
    match_queue-ids stp inc k l.queue l false r
        (λ j. le_trans (queue-le-over_side (occurs j) m i l s.at) (c j)),
    over_side-settled (occurs k) m i l (served stp inc l r).level s.valid s.at,
  )

  Ids-cases : LoopCases stp inc (λ m r out.
      Covered m r.ids
      → (k : ℕ)
      → count k r.ids + over_side (occurs k) out.side
        ≡ count k out.run.ids + over_side (occurs k) m)
  Ids-cases = record {
    over = λ m r v o c k. refl;
    apart = λ m r i v p b f c k. refl;
    fired = λ m r i l s c k. served_ids m r i l k s c;
    onward = λ m r i l out s ih c k.
        omega (
          arith,
          served_ids m r i l k s c,
          ih (λ j. omega (arith, served_ids m r i l j s c, c j)) k,
        );
  }

  -- The id map loses just the orders that leave the side.
  pub match_into-ids :
      (fuel : ℕ) (m : LevelMap) (r : Run)
      → IsSide m
      → Enough stp inc fuel m r
      → Covered m r.ids
      → (k : ℕ)
      → let out = match_into fuel stp inc m r in
        count k r.ids + over_side (occurs k) out.side ≡ count k out.run.ids + over_side (occurs k) m
  match_into-ids = match_into_rule stp inc Ids-cases

  served_pool :
      (m : LevelMap) (r : Run) (i : ℕ) (l : PriceLevel)
      → Serves stp inc m r i l
      → over_side length m ≤ r.in_use
      → r.in_use + over_side length (left stp inc m r i l)
        ≡ (served stp inc l r).run.in_use + over_side length m
  served_pool m r i l s h = omega (
    arith,
    match_queue-in_use stp inc l.queue l false r
        (le_trans (queue-le-over_side length m i l s.at) h),
    over_side-settled length m i l (served stp inc l r).level s.valid s.at,
  )

  Pool-cases : LoopCases stp inc (λ m r out.
      over_side length m ≤ r.in_use
      → r.in_use + over_side length out.side ≡ out.run.in_use + over_side length m)
  Pool-cases = record {
    over = λ m r v o h. refl;
    apart = λ m r i v p b f h. refl;
    fired = λ m r i l s h. served_pool m r i l s h;
    onward = λ m r i l out s ih h.
        omega (arith, served_pool m r i l s h, ih (omega (arith, served_pool m r i l s h)));
  }

  -- The pool gets back just the orders that leave the side.
  pub match_into-in_use :
      (fuel : ℕ) (m : LevelMap) (r : Run)
      → IsSide m
      → Enough stp inc fuel m r
      → over_side length m ≤ r.in_use
      → let out = match_into fuel stp inc m r in
        r.in_use + over_side length out.side ≡ out.run.in_use + over_side length m
  match_into-in_use = match_into_rule stp inc Pool-cases

  Flow-cases : LoopCases stp inc (λ m r out.
      KeptVictims out.run.victims
      → KeptVictims r.victims
        × (out.run.remaining ≤ r.remaining)
        × (over_side sum_remaining m + victim_quantity r.victims + out.run.remaining
            ≡ over_side sum_remaining out.side + victim_quantity out.run.victims + r.remaining))
  Flow-cases = record {
    over = λ m r v o k. (k, omega arith, refl);
    apart = λ m r i v p b f k. (k, omega arith, refl);
    fired = λ m r i l s k.
        let q = match_queue-flow stp inc l.queue l false r k in
        let t = over_side-settled sum_remaining m i l (served stp inc l r).level s.valid s.at in
        (q.0, q.1, omega (arith, q, t));
    onward = λ m r i l out s ih k.
        let rest = ih k in
        let q = match_queue-flow stp inc l.queue l false r rest.0 in
        let t = over_side-settled sum_remaining m i l (served stp inc l r).level s.valid s.at in
        (q.0, omega (arith, q, rest), omega (arith, q, rest, t));
  }

  -- What leaves the side has been traded with the aggressor or is a victim.
  pub match_into-flow :
      (fuel : ℕ) (m : LevelMap) (r : Run)
      → IsSide m
      → Enough stp inc fuel m r
      → let out = match_into fuel stp inc m r in
        KeptVictims out.run.victims
        → KeptVictims r.victims
          × (out.run.remaining ≤ r.remaining)
          × (over_side sum_remaining m + victim_quantity r.victims + out.run.remaining
              ≡ over_side sum_remaining out.side + victim_quantity out.run.victims + r.remaining)
  match_into-flow = match_into_rule stp inc Flow-cases

  Trades-cases : LoopCases stp inc (λ m r out.
      Kept out.run.trades
      → Kept r.trades
        × (out.run.remaining ≤ r.remaining)
        × (sum_traded out.run.trades.slots + out.run.remaining
            ≡ sum_traded r.trades.slots + r.remaining))
  Trades-cases = record {
    over = λ m r v o k. omega arith;
    apart = λ m r i v p b f k. omega arith;
    fired = λ m r i l s k. match_queue-trades stp inc l.queue l false r k;
    onward = λ m r i l out s ih k.
        omega (arith, ih k, match_queue-trades stp inc l.queue l false r (ih k).0);
  }

  -- What the aggressor has got stands in the trades.
  pub match_into-trades :
      (fuel : ℕ) (m : LevelMap) (r : Run)
      → IsSide m
      → Enough stp inc fuel m r
      → let out = match_into fuel stp inc m r in
        Kept out.run.trades
        → Kept r.trades
          × (out.run.remaining ≤ r.remaining)
          × (sum_traded out.run.trades.slots + out.run.remaining
              ≡ sum_traded r.trades.slots + r.remaining)
  match_into-trades = match_into_rule stp inc Trades-cases

module _ (stp : StpPolicy) (inc : NewOrder) (f : List Order → ℕ) (t : IsTally f) where
  served-le :
      (m : LevelMap) (r : Run) (i : ℕ) (l : PriceLevel)
      → Serves stp inc m r i l
      → over_side f (left stp inc m r i l) ≤ over_side f m
  served-le m r i l s = omega (
    arith,
    match_queue-le stp inc f t l.queue l false r,
    over_side-settled f m i l (served stp inc l r).level s.valid s.at,
  )

  le_cases : LoopCases stp inc (λ m r out. over_side f out.side ≤ over_side f m)
  le_cases = record {
    over = λ m r v o. omega arith;
    apart = λ m r i v p b x. omega arith;
    fired = λ m r i l s. served-le m r i l s;
    onward = λ m r i l out s ih. le_trans ih (served-le m r i l s);
  }

  -- The loop adds nothing to the side.
  pub match_into-le :
      (fuel : ℕ) (m : LevelMap) (r : Run)
      → IsSide m
      → Enough stp inc fuel m r
      → over_side f (match_into fuel stp inc m r).side ≤ over_side f m
  match_into-le = match_into_rule stp inc le_cases
