-- ===== src/Book/LevelMap/Valid.antt =====
-- A valid side: a grid of levels, each with right aggregates and orders of its price, and the best
-- price that of its best level. The operations of the side keep it.
use order_matching_engine.Base.{
  ℕ, zero, suc, ◌≡◌, subst, sym, ◌∙◌, ◌<◌, ◌≤◌, ◌⊎◌, inl, inr, List, [], ◌∷◌, true, false, not,
  arith, some, length, get_elem?, set, length-set, Bool-cases, get_elem?-set_self, get_elem?-set_ne,
  dec_lt, ℕ_discrete,
}
use order_matching_engine.Base.Int.{eqb_ℤ, ◌≤ℤ◌}
use order_matching_engine.Common.Types.{Price, Side, buy, sell, empty_sentinel}
use order_matching_engine.Engine.PriceLevel.{PriceLevel, is_empty}
use order_matching_engine.Engine.PriceLevel.Counted.{IsCounted, AllAt}
use order_matching_engine.Book.LevelMap.{
  LevelMap, occupied, on_level_emptied, put_level, level_at, better_price,
}
use order_matching_engine.Book.LevelMap.Slots.{
  IsGrid, price_of, index-price_of, price_of-in_range, price_of-mono, price_of-ge_min,
  price_of-le_max,
}
use order_matching_engine.Book.LevelMap.Best.{
  IsBest, IsBestAt, IsPriced, Better, AfterBest, put-IsBest, put_emptied-IsBest, put_emptied_best,
  put_level-IsGrid, on_level_emptied-IsGrid,
}

pub record IsLevel (s : Side) (p : Price) (l : PriceLevel) : Type 0 where
  pub counted : IsCounted l
  pub price : l.price ≡ p
  pub at : AllAt s p l.queue

abbrev pub AreLevels : LevelMap → Type 0
AreLevels m =
    (i : ℕ) (l : PriceLevel) → get_elem? m.levels i ≡ some l → IsLevel m.side (price_of m i) l

pub record IsSide (m : LevelMap) : Type 0 where
  pub grid : IsGrid m
  pub levels : AreLevels m
  pub best : IsBest m

AreLevels-IsPriced : (m : LevelMap) → AreLevels m → IsPriced m
AreLevels-IsPriced m v i l e = (v i l e).price

pub get_elem?-lt :
    {A : Type 0} (xs : List A) (i : ℕ) (x : A) → get_elem? xs i ≡ some x → i < length xs
get_elem?-lt [] i x e = absurd (ground arith)
get_elem?-lt (y ∷ xs) zero x e = omega arith
get_elem?-lt (y ∷ xs) (suc i) x e = omega (arith, get_elem?-lt xs i x e)

pub level_at-price_of :
    (m : LevelMap)
    → IsGrid m
    → (i : ℕ) → i < length m.levels
    → level_at m (price_of m i) ≡ get_elem? m.levels i
unfolding level_at
level_at-price_of m g i h = rw (price_of-in_range g i h, index-price_of m i g.tick_pos)

pub put_level-AreLevels :
    (m : LevelMap)
    → IsGrid m
    → (i : ℕ) (l : PriceLevel) → IsLevel m.side (price_of m i) l
    → AreLevels m
    → AreLevels (put_level m (price_of m i) l)
unfolding put_level
put_level-AreLevels m g i l new v j x = rw (index-price_of m i g.tick_pos) λ e.
    elim (ℕ_discrete i j) [
      | no ne ↦ v j x (sym (get_elem?-set_ne m.levels l ne) ∙ e)
      | yes same ↦
          let inside : j < length m.levels =
            omega (arith, get_elem?-lt (set m.levels i l) j x e, length-set m.levels i l) in
          let it : l ≡ x = ground (arith, get_elem?-set_self m.levels j l inside) in
          subst (λ k. IsLevel m.side (price_of m k) x) same
            (subst (IsLevel m.side (price_of m i)) it new)
    ]

on_level_emptied-AreLevels :
    (m : LevelMap) (p : Price) → AreLevels m → AreLevels (on_level_emptied m p)
unfolding on_level_emptied
on_level_emptied-AreLevels m p v = elim (Bool-cases (eqb_ℤ p m.best)) [
  | inl t ↦ rw t v
  | inr f ↦ rw f v
]

pub occupied-level :
    (m : LevelMap) (i : ℕ) (l : PriceLevel)
    → get_elem? m.levels i ≡ some l
    → occupied m.levels i ≡ not (is_empty l)
unfolding occupied
occupied-level m i l e = rw e

-- A level that holds orders, written over one that does.
pub put-IsSide :
    (m : LevelMap) (i : ℕ) (old l : PriceLevel)
    → get_elem? m.levels i ≡ some old
    → is_empty old ≡ false
    → is_empty l ≡ false
    → IsLevel m.side (price_of m i) l
    → IsSide m
    → IsSide (put_level m (price_of m i) l)
put-IsSide m i old l e held full new v = record {
  grid = put_level-IsGrid m (price_of m i) l v.grid;
  levels = put_level-AreLevels m v.grid i l new v.levels;
  best = put-IsBest m v.grid.tick_pos i l (occupied-level m i old e ∙ rw held) full v.best;
}

-- An empty level, written and reported.
pub put_emptied-IsSide :
    (m : LevelMap) (i : ℕ) (l : PriceLevel)
    → i < length m.levels
    → is_empty l ≡ true
    → IsLevel m.side (price_of m i) l
    → IsSide m
    → IsSide (on_level_emptied (put_level m (price_of m i) l) (price_of m i))
put_emptied-IsSide m i l inside bare new v =
    let levels : AreLevels (put_level m (price_of m i) l) =
      put_level-AreLevels m v.grid i l new v.levels in
    let m' : LevelMap = put_level m (price_of m i) l in
    record {
      grid = on_level_emptied-IsGrid m' (price_of m i) (put_level-IsGrid m (price_of m i) l v.grid);
      levels = on_level_emptied-AreLevels m' (price_of m i) levels;
      best = put_emptied-IsBest m v.grid i l inside bare (AreLevels-IsPriced m' levels) v.best;
    }

pub put_emptied-AfterBest :
    (m : LevelMap) (i : ℕ) (l : PriceLevel)
    → i < length m.levels
    → is_empty l ≡ true
    → IsLevel m.side (price_of m i) l
    → IsSide m
    → IsBestAt m i
    → AfterBest (on_level_emptied (put_level m (price_of m i) l) (price_of m i)) i
put_emptied-AfterBest m i l inside bare new v b =
    let levels : AreLevels (put_level m (price_of m i) l) =
      put_level-AreLevels m v.grid i l new v.levels in
    put_emptied_best m v.grid i l inside bare
      (AreLevels-IsPriced (put_level m (price_of m i) l) levels) b

-- Slots with prices in order are in order.
monotone : (m : LevelMap) → IsGrid m → (i k : ℕ) → price_of m k ≤ℤ price_of m i → k ≤ i
monotone m g i k h = elim (dec_lt i k) [
  | yes less ↦ absurd (omega (arith, price_of-mono m i k g.tick_pos less))
  | no more ↦ omega arith
]

-- The comparison of prices is that of slots.
pub is_better_lem :
    (s : Side) (m : LevelMap)
    → IsGrid m
    → (i k : ℕ)
    → (better_price s (price_of m i) (price_of m k) ≡ true → Better s i k)
      × (better_price s (price_of m i) (price_of m k) ≡ false → (i ≡ k) ⊎ Better s k i)
unfolding better_price
is_better_lem buy m g i k =
    (λ t. ground (arith, monotone m g i k), λ f. ground (arith, monotone m g k i))
is_better_lem sell m g i k =
    (λ t. ground (arith, monotone m g k i), λ f. ground (arith, monotone m g i k))

pub is_better_sentinel :
    (s : Side) (m : LevelMap)
    → IsGrid m
    → (i : ℕ) → i < length m.levels
    → better_price s (price_of m i) (empty_sentinel s) ≡ true
unfolding better_price empty_sentinel
is_better_sentinel buy m g i h = ground (arith, price_of-ge_min m i, g.above_sentinel)
is_better_sentinel sell m g i h = ground (arith, price_of-le_max g i h, g.below_sentinel)
