-- ===== src/Book/LevelMap/Best.antt =====
-- The tracked best price is that of the best occupied slot, whatever is written to the side.
use order_matching_engine.Base.{
  ℕ, ◌≡◌, refl, subst, sym, ap, ◌∙◌, ◌≢◌, ◌<◌, ◌⊎◌, inl, inr, List, true, false, arith, Option,
  none, some, length, get_elem?, set, length-set, elim_option, Bool-cases, Option-cases, ℕ_discrete,
}
use order_matching_engine.Base.Int.{eqb_ℤ, eqb_ℤ_iff}
use order_matching_engine.Common.Types.{Price, Side, buy, sell, empty_sentinel}
use order_matching_engine.Engine.PriceLevel.{PriceLevel, is_empty}
use order_matching_engine.Book.LevelMap.{
  LevelMap, index, occupied, occupied_below, occupied_above, next_occupied, on_level_emptied,
  put_level, search, price_found,
}
use order_matching_engine.Book.LevelMap.Slots.{
  IsGrid, price_of, index-price_of, price_of-ne_sentinel,
}
use order_matching_engine.Book.LevelMap.Scan.{
  Below, Above, occupied_below-Below, occupied_above-Above, occupied-set_self, occupied-set_ne,
  occupied-lt,
}

-- Slot `j` has the better price.
abbrev pub Better : Side → ℕ → ℕ → Type 0
Better buy j i = i < j
Better sell j i = j < i

-- The best price is that of slot `i`.
pub record IsBestAt (m : LevelMap) (i : ℕ) : Type 0 where
  pub price : m.best ≡ price_of m i
  pub taken : occupied m.levels i ≡ true
  pub first : (j : ℕ) → Better m.side j i → occupied m.levels j ≡ false

pub record IsBare (m : LevelMap) : Type 0 where
  pub price : m.best ≡ empty_sentinel m.side
  pub vacant : (j : ℕ) → occupied m.levels j ≡ false

abbrev pub IsBest : LevelMap → Type 0
IsBest m = IsBare m ⊎ ((i : ℕ) × IsBestAt m i)

-- Each level carries the price of its slot.
abbrev pub IsPriced : LevelMap → Type 0
IsPriced m = (i : ℕ) (l : PriceLevel) → get_elem? m.levels i ≡ some l → l.price ≡ price_of m i

price_of-injective : (m : LevelMap) (i j : ℕ) → 0 < m.tick → price_of m i ≡ price_of m j → i ≡ j
price_of-injective m i j h e = sym (index-price_of m i h) ∙ (ap (index m) e ∙ index-price_of m j h)

pub IsBestAt-unique : (m : LevelMap) (i j : ℕ) → 0 < m.tick → IsBestAt m i → IsBestAt m j → i ≡ j
IsBestAt-unique m i j h b c = price_of-injective m i j h (sym b.price ∙ c.price)

-- What the walk from slot `i` on leads to.
pub data Next (m : LevelMap) (i : ℕ) (p : Price) : Type 0 where
  nothing :
      p ≡ empty_sentinel m.side
      → ((j : ℕ) → Better m.side i j → occupied m.levels j ≡ false)
      → Next m i p
  slot :
      (k : ℕ)
      → p ≡ price_of m k
      → Better m.side i k
      → occupied m.levels k ≡ true
      → ((j : ℕ) → Better m.side i j → Better m.side j k → occupied m.levels j ≡ false)
      → Next m i p

level_price :
    (m : LevelMap)
    → IsPriced m
    → (k : ℕ) → occupied m.levels k ≡ true
    → (d : Price) → elim_option (get_elem? m.levels k) d (λ l. l.price) ≡ price_of m k
unfolding occupied
level_price m priced k t d = elim (Option-cases (get_elem? m.levels k)) [
  | inl e ↦ absurd (ground arith)
  | inr (l, e) ↦ rw e (priced k l e)
]

-- What the search from slot `i` gives on a side.
abbrev Found : Side → List PriceLevel → ℕ → Option ℕ → Type 0
Found s ls i none = (j : ℕ) → Better s i j → occupied ls j ≡ false
Found s ls i (some k) =
    Better s i k
    × (occupied ls k ≡ true)
    × ((j : ℕ) → Better s i j → Better s j k → occupied ls j ≡ false)

search-Found : (s : Side) (ls : List PriceLevel) (i : ℕ) → Found s ls i (search s ls i)
unfolding search
search-Found buy ls i = go (occupied_below ls i) (occupied_below-Below ls i)
  where
    go : (o : Option ℕ) → Below ls i o → Found buy ls i o
    go none v = λ j h. v j (omega arith) h
    go (some k) b = (b.0, b.1, λ j h g. b.2 j g h)
search-Found sell ls i = go (occupied_above ls i) (occupied_above-Above ls i)
  where
    go : (o : Option ℕ) → Above ls i o → Found sell ls i o
    go none v = v
    go (some k) b = (b.0, b.1, λ j h g. b.2 j h g)

pub next_occupied-Next :
    (m : LevelMap) → 0 < m.tick → IsPriced m → (i : ℕ) → Next m i (next_occupied m (price_of m i))
unfolding next_occupied price_found
next_occupied-Next m h priced i =
    subst (λ k. Next m i (price_found m (search m.side m.levels k))) (sym (index-price_of m i h))
      (go (search m.side m.levels i) (search-Found m.side m.levels i))
  where
    go : (o : Option ℕ) → Found m.side m.levels i o → Next m i (price_found m o)
    go none v = nothing refl v
    go (some k) b = slot k (level_price m priced k b.1 (empty_sentinel m.side)) b.0 b.1 b.2

IsBest-of_occupied :
    (m : LevelMap) (ls : List PriceLevel)
    → ((j : ℕ) → occupied ls j ≡ occupied m.levels j)
    → IsBest m
    → IsBest (record m { levels = ls })
IsBest-of_occupied m ls same (inl b) =
    inl (record { price = b.price; vacant = λ j. same j ∙ b.vacant j })
IsBest-of_occupied m ls same (inr (i, b)) =
    inr
      (i, record { price = b.price; taken = same i ∙ b.taken; first = λ j h. same j ∙ b.first j h })

-- The best price where a level that is not empty is written over another.
pub put-IsBest :
    (m : LevelMap)
    → 0 < m.tick
    → (i : ℕ) (l : PriceLevel) → occupied m.levels i ≡ true
    → is_empty l ≡ false
    → IsBest m
    → IsBest (put_level m (price_of m i) l)
unfolding put_level
put-IsBest m h i l t full b =
    rw (index-price_of m i h) (IsBest-of_occupied m (set m.levels i l) same b)
  where
    same : (j : ℕ) → occupied (set m.levels i l) j ≡ occupied m.levels j
    same j = elim (ℕ_discrete i j) [
      | yes e ↦
          rw (← e) (occupied-set_self m.levels i l (occupied-lt m.levels i t) ∙ (rw full (sym t)))
      | no ne ↦ occupied-set_ne m.levels l ne
    ]

Better-cases : (s : Side) (i j : ℕ) → (Better s i j) ⊎ ((i ≡ j) ⊎ (Better s j i))
Better-cases buy i j = omega arith
Better-cases sell i j = omega arith

-- Where the best slot has been emptied, the side is bare or has a worse best slot.
abbrev pub AfterBest : LevelMap → ℕ → Type 0
AfterBest m i = IsBare m ⊎ ((k : ℕ) × Better m.side i k × IsBestAt m k)

pub on_level_emptied-best :
    (m : LevelMap) (i : ℕ)
    → 0 < m.tick
    → IsPriced m
    → m.best ≡ price_of m i
    → occupied m.levels i ≡ false
    → ((j : ℕ) → Better m.side j i → occupied m.levels j ≡ false)
    → AfterBest (on_level_emptied m (price_of m i)) i
unfolding on_level_emptied
on_level_emptied-best m i h priced e gone first =
    rw ((eqb_ℤ_iff (price_of m i) m.best).1 (sym e)) (go (next_occupied-Next m h priced i))
  where
    nearer :
        (j : ℕ) → (Better m.side i j → occupied m.levels j ≡ false) → occupied m.levels j ≡ false
    nearer j farther = elim (Better-cases m.side i j) [
      | inl b ↦ farther b
      | inr (inl e) ↦ rw (← e) gone
      | inr (inr b) ↦ first j b
    ]

    go :
        Next m i (next_occupied m (price_of m i))
        → AfterBest (record m { best = next_occupied m (price_of m i) }) i
    go (nothing p v) = inl (record { price = p; vacant = λ j. nearer j (v j) })
    go (slot k p b t v) =
        inr (k, b, record { price = p; taken = t; first = λ j bj. nearer j (λ bi. v j bi bj) })

pub on_level_emptied-other : (m : LevelMap) (p : Price) → p ≢ m.best → on_level_emptied m p ≡ m
unfolding on_level_emptied
on_level_emptied-other m p ne = elim (Bool-cases (eqb_ℤ p m.best)) [
  | inl t ↦ absurd (ne ((eqb_ℤ_iff p m.best).0 t))
  | inr f ↦ rw f
]

-- An empty slot is not the best one, so a second report of it changes nothing.
pub on_level_emptied_again :
    (m : LevelMap)
    → IsGrid m
    → (i : ℕ) → i < length m.levels
    → occupied m.levels i ≡ false
    → IsBest m
    → on_level_emptied m (price_of m i) ≡ m
on_level_emptied_again m g i inside gone (inl b) =
    on_level_emptied-other m (price_of m i)
      (λ e. price_of-ne_sentinel g i inside m.side (e ∙ b.price))
on_level_emptied_again m g i inside gone (inr (k, b)) = on_level_emptied-other m (price_of m i) λ e.
    let same : i ≡ k = price_of-injective m i k g.tick_pos (e ∙ b.price) in
    let taken : occupied m.levels i ≡ true = rw same b.taken in cc (gone, taken)

pub put_level-IsGrid :
    (m : LevelMap) (p : Price) (l : PriceLevel) → IsGrid m → IsGrid (put_level m p l)
unfolding put_level
put_level-IsGrid m p l g = record {
  tick_pos = g.tick_pos;
  above_sentinel = g.above_sentinel;
  below_sentinel = g.below_sentinel;
  ordered = g.ordered;
  slots = length-set m.levels (index m p) l ∙ g.slots;
}

pub on_level_emptied-IsGrid : (m : LevelMap) (p : Price) → IsGrid m → IsGrid (on_level_emptied m p)
unfolding on_level_emptied
on_level_emptied-IsGrid m p g = ground arith

-- A report changes the best price alone.
pub levels-on_level_emptied : (m : LevelMap) (p : Price) → (on_level_emptied m p).levels ≡ m.levels
unfolding on_level_emptied
levels-on_level_emptied m p = ground arith

pub side-on_level_emptied : (m : LevelMap) (p : Price) → (on_level_emptied m p).side ≡ m.side
unfolding on_level_emptied
side-on_level_emptied m p = ground arith

pub price_of-on_level_emptied :
    (m : LevelMap) (p : Price) (i : ℕ) → price_of (on_level_emptied m p) i ≡ price_of m i
unfolding on_level_emptied
price_of-on_level_emptied m p i = ground arith

-- A write and the report of the emptied level.
module _ (m : LevelMap) (g : IsGrid m) (i : ℕ) (l : PriceLevel) (inside : i < length m.levels)
    (bare : is_empty l ≡ true) (priced : IsPriced (put_level m (price_of m i) l)) where
  emptied_slot : occupied (put_level m (price_of m i) l).levels i ≡ false
  unfolding put_level
  emptied_slot =
      rw (index-price_of m i g.tick_pos) (occupied-set_self m.levels i l inside ∙ rw bare)

  other_slot :
      (j : ℕ) → i ≢ j → occupied (put_level m (price_of m i) l).levels j ≡ occupied m.levels j
  unfolding put_level
  other_slot j ne = rw (index-price_of m i g.tick_pos) (occupied-set_ne m.levels l ne)

  still_vacant :
      (j : ℕ)
      → occupied m.levels j ≡ false
      → occupied (put_level m (price_of m i) l).levels j ≡ false
  still_vacant j v = elim (ℕ_discrete i j) [
    | yes e ↦ rw (← e) emptied_slot
    | no ne ↦ other_slot j ne ∙ v
  ]

  pub put_emptied_best :
      IsBestAt m i → AfterBest (on_level_emptied (put_level m (price_of m i) l) (price_of m i)) i
  unfolding put_level
  put_emptied_best b =
      let m' : LevelMap = put_level m (price_of m i) l in
      on_level_emptied-best m' i g.tick_pos priced b.price emptied_slot
        (λ j h. still_vacant j (b.first j h))

  pub put_emptied-IsBest :
      IsBest m → IsBest (on_level_emptied (put_level m (price_of m i) l) (price_of m i))
  unfolding put_level
  put_emptied-IsBest (inl b) =
      rw
        (on_level_emptied-other (put_level m (price_of m i) l) (price_of m i)
          (λ e. price_of-ne_sentinel g i inside m.side (e ∙ b.price)))
        (inl (record { price = b.price; vacant = λ j. still_vacant j (b.vacant j) }))
  put_emptied-IsBest (inr (k, b)) = elim (ℕ_discrete i k) [
    | yes e ↦ worse (put_emptied_best (rw e b))
    | no ne ↦
        rw
          (on_level_emptied-other (put_level m (price_of m i) l) (price_of m i)
            (λ e. ne (price_of-injective m i k g.tick_pos (e ∙ b.price))))
          (inr (
            k,
            record {
              price = b.price;
              taken = other_slot k ne ∙ b.taken;
              first = λ j h. still_vacant j (b.first j h);
            },
          ))
  ]
    where
      worse : {n : LevelMap} → AfterBest n i → IsBest n
      worse (inl x) = inl x
      worse (inr (j, h, x)) = inr (j, x)
