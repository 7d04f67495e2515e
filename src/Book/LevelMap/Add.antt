-- ===== src/Book/LevelMap/Add.antt =====
-- An order added to a side: it joins the back of the queue of its price, and the best price follows.
use order_matching_engine.Base.{
  ℕ, zero, suc, ◌≡◌, refl, subst, sym, ◌∙◌, ◌≢◌, ◌<◌, ◌⊎◌, inl, inr, List, [], ◌∷◌, ◌++◌, true,
  false, arith, some, length, get_elem?, set, length-set, if◌then◌else◌, Bool-cases, ℕ_discrete,
}
use order_matching_engine.Common.Types.{Price, Side, buy, sell, empty_sentinel}
use order_matching_engine.Engine.Order.{Order}
use order_matching_engine.Engine.PriceLevel.{PriceLevel, is_empty, enqueue}
use order_matching_engine.Engine.PriceLevel.Counted.{AllAt-snoc, enqueue-IsCounted}
use order_matching_engine.Book.LevelMap.{
  LevelMap, occupied, put_level, add_order, is_better, better_price,
}
use order_matching_engine.Book.LevelMap.Slots.{IsGrid, price_of, index-price_of}
use order_matching_engine.Book.LevelMap.Scan.{occupied-set_self, occupied-set_ne}
use order_matching_engine.Book.LevelMap.Best.{IsBest, IsBestAt, Better}
use order_matching_engine.Book.LevelMap.Valid.{
  IsLevel, IsSide, AreLevels, put_level-AreLevels, is_better_lem, is_better_sentinel,
}

-- What a side may take: an order of its own, at a price of the grid, that is not filled.
pub record Fits (m : LevelMap) (i : ℕ) (o : Order) : Type 0 where
  pub price : o.price ≡ price_of m i
  pub side : o.side ≡ m.side
  pub positive : 0 < o.remaining

enqueue-IsLevel :
    (s : Side) (p : Price) (l : PriceLevel) (o : Order)
    → o.side ≡ s
    → o.price ≡ p
    → 0 < o.remaining
    → IsLevel s p l
    → IsLevel s p (enqueue l o)
unfolding enqueue
enqueue-IsLevel s p l o es ep h v = record {
  counted = enqueue-IsCounted l o h v.counted;
  price = v.price;
  at = AllAt-snoc s p l.queue o v.at (es, ep);
}

enqueue_occupied : (l : PriceLevel) (o : Order) → is_empty (enqueue l o) ≡ false
unfolding is_empty enqueue
enqueue_occupied l o = go l.queue
  where
    go : (os : List Order) → (elim (os ++ (o ∷ [])) [ [] ↦ true | _ ∷ _ ↦ false ]) ≡ false
    go [] = refl
    go (x ∷ os) = refl

Better-irrefl : (s : Side) (i : ℕ) → ¬ (Better s i i)
Better-irrefl buy i h = omega arith
Better-irrefl sell i h = omega arith

Better-trans : (s : Side) (i j k : ℕ) → Better s i j → Better s j k → Better s i k
Better-trans buy i j k p q = omega arith
Better-trans sell i j k p q = omega arith

module _ (m : LevelMap) (v : IsSide m) (i : ℕ) (l : PriceLevel) (inside : i < length m.levels) where
  abbrev n : List PriceLevel
  n = set m.levels i l

  joined : is_empty l ≡ false → occupied n i ≡ true
  joined full = occupied-set_self m.levels i l inside ∙ rw full

  others : (j : ℕ) → i ≢ j → occupied m.levels j ≡ false → occupied n j ≡ false
  others j ne x = occupied-set_ne m.levels l ne ∙ x

  vacant_gain :
      (k : ℕ)
      → IsBestAt m k
      → Better m.side i k
      → (j : ℕ) → Better m.side j i
      → occupied n j ≡ false
  vacant_gain k b bi j bj =
      others j (λ e. Better-irrefl m.side j (subst (Better m.side j) e bj))
        (b.first j (Better-trans m.side j i k bj bi))

  raised :
      is_empty l ≡ false
      → IsBest m
      → better_price m.side (price_of m i) m.best ≡ true
      → IsBestAt (record m { levels = n; best = price_of m i }) i
  raised full (inl b) t = record {
    price = refl;
    taken = joined full;
    first =
        λ j bj. others j (λ e. Better-irrefl m.side j (subst (Better m.side j) e bj)) (b.vacant j);
  }
  raised full (inr (k, b)) t = record {
    price = refl;
    taken = joined full;
    first = vacant_gain k b ((is_better_lem m.side m v.grid i k).0 (rw (← b.price) t));
  }

  kept :
      is_empty l ≡ false
      → IsBest m
      → better_price m.side (price_of m i) m.best ≡ false
      → IsBest (record m { levels = n })
  kept full (inl b) t =
      let s = is_better_sentinel m.side m v.grid i inside in
      let t' : better_price m.side (price_of m i) (empty_sentinel m.side) ≡ false =
        rw (← b.price) t in
      absurd (cc (s, t'))
  kept full (inr (k, b)) t = inr (
    k,
    record {
      price = b.price;
      taken = taken_k ((is_better_lem m.side m v.grid i k).1 (rw (← b.price) t));
      first = λ j bj.
          others j
            (λ e. not_better j e bj ((is_better_lem m.side m v.grid i k).1 (rw (← b.price) t)))
            (b.first j bj);
    },
  )
    where
      taken_k : (i ≡ k) ⊎ Better m.side k i → occupied n k ≡ true
      taken_k x = elim (ℕ_discrete i k) [
        | yes e ↦ rw (← e) (joined full)
        | no ne ↦ occupied-set_ne m.levels l ne ∙ b.taken
      ]

      not_better : (j : ℕ) → i ≡ j → Better m.side j k → (i ≡ k) ⊎ Better m.side k i → ⊥
      not_better j e bj (inl same) =
          Better-irrefl m.side k (subst (λ x. Better m.side x k) (sym e ∙ same) bj)
      not_better j e bj (inr worse) =
          Better-irrefl m.side k
            (Better-trans m.side k i k worse (subst (λ x. Better m.side x k) (sym e) bj))

pub get_elem?-some :
    {A : Type 0} (xs : List A) (i : ℕ) → i < length xs → (x : A) × (get_elem? xs i ≡ some x)
get_elem?-some [] i h = absurd (omega arith)
get_elem?-some (x ∷ xs) zero h = (x, refl)
get_elem?-some (x ∷ xs) (suc i) h = get_elem?-some xs i (omega arith)

-- The side with the order, by the slot of its price.
abbrev added : LevelMap → ℕ → PriceLevel → LevelMap
added m i l =
    if better_price m.side (price_of m i) m.best
    then record m { levels = set m.levels i l; best = price_of m i }
    else record m { levels = set m.levels i l }

pub add_order_at :
    (m : LevelMap) (i : ℕ) (o : Order) (l : PriceLevel)
    → 0 < m.tick
    → o.price ≡ price_of m i
    → get_elem? m.levels i ≡ some l
    → add_order m o ≡ added m i (enqueue l o)
unfolding add_order is_better put_level
add_order_at m i o l h e at = rw (e, index-price_of m i h, at)

added-IsSide :
    (m : LevelMap) (i : ℕ) (l : PriceLevel)
    → i < length m.levels
    → is_empty l ≡ false
    → IsLevel m.side (price_of m i) l
    → IsSide m
    → IsSide (added m i l)
unfolding put_level
added-IsSide m i l inside full new v =
    elim (Bool-cases (better_price m.side (price_of m i) m.best)) [
      | inl t ↦ rw t (record {
        grid = grid_of (price_of m i);
        levels = levels;
        best = inr (i, raised m v i l inside full v.best t);
      })
      | inr f ↦ rw f (record {
        grid = grid_of m.best;
        levels = levels;
        best = kept m v i l inside full v.best f;
      })
    ]
  where
    grid_of : (p : Price) → IsGrid (record m { levels = set m.levels i l; best = p })
    grid_of p = record {
      tick_pos = v.grid.tick_pos;
      above_sentinel = v.grid.above_sentinel;
      below_sentinel = v.grid.below_sentinel;
      ordered = v.grid.ordered;
      slots = length-set m.levels i l ∙ v.grid.slots;
    }

    levels : AreLevels (record m { levels = set m.levels i l })
    levels =
        rw (index-price_of m i v.grid.tick_pos) at (put_level-AreLevels m v.grid i l new v.levels)

pub add_order-IsSide :
    (m : LevelMap) (i : ℕ) (o : Order)
    → i < length m.levels
    → Fits m i o
    → IsSide m
    → IsSide (add_order m o)
add_order-IsSide m i o inside f v =
    let (l, at) = get_elem?-some m.levels i inside in
    rw (add_order_at m i o l v.grid.tick_pos f.price at) (
      added-IsSide m i (enqueue l o) inside (enqueue_occupied l o)
        (enqueue-IsLevel m.side (price_of m i) l o f.side f.price f.positive (v.levels i l at)) v)
