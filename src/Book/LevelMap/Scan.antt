-- ===== src/Book/LevelMap/Scan.antt =====
-- The scan for the next occupied slot finds the nearest one, and nothing where there is none.
use order_matching_engine.Base.{
  ℕ, zero, suc, ◌+◌, ◌-◌, ◌≡◌, refl, ◌≢◌, ◌<◌, ◌≤◌, inl, inr, List, [], ◌∷◌, true, false, not,
  arith, Option, none, some, length, set, Bool-cases, get_elem?-set_self, get_elem?-set_ne, dec_lt,
  ℕ_discrete,
}
use order_matching_engine.Engine.PriceLevel.{PriceLevel, is_empty}
use order_matching_engine.Book.LevelMap.{occupied, occupied_below, occupied_from, occupied_above}

-- Between `i` and `j`, both left out, no slot is occupied.
abbrev pub Vacant : List PriceLevel → ℕ → ℕ → Type 0
Vacant ls i j = (k : ℕ) → i ≤ k → k < j → occupied ls k ≡ false

pub occupied_past : (ls : List PriceLevel) (k : ℕ) → length ls ≤ k → occupied ls k ≡ false
unfolding occupied
occupied_past [] k h = refl
occupied_past (l ∷ ls) zero h = absurd (omega arith)
occupied_past (l ∷ ls) (suc k) h = occupied_past ls k (omega arith)

pub occupied-lt : (ls : List PriceLevel) (k : ℕ) → occupied ls k ≡ true → k < length ls
occupied-lt ls k h = elim (dec_lt k (length ls)) [
  | yes p ↦ p
  | no p ↦ absurd (ground (arith, occupied_past ls k))
]

-- What a scan below `i` finds.
abbrev pub Below : List PriceLevel → ℕ → Option ℕ → Type 0
Below ls i none = Vacant ls 0 i
Below ls i (some j) = (j < i) × (occupied ls j ≡ true) × Vacant ls (suc j) i

pub occupied_below-Below : (ls : List PriceLevel) (i : ℕ) → Below ls i (occupied_below ls i)
unfolding occupied_below
occupied_below-Below ls zero = λ k h less. absurd (omega arith)
occupied_below-Below ls (suc i) = elim (Bool-cases (occupied ls i)) [
  | inl t ↦ rw t (omega arith, t, λ k h less. absurd (omega arith))
  | inr f ↦ rw f (step (occupied_below ls i) f (occupied_below-Below ls i))
]
  where
    last : {a : ℕ} → occupied ls i ≡ false → Vacant ls a i → Vacant ls a (suc i)
    last f v k h less = elim (ℕ_discrete k i) [ yes e ↦ rw e f | no ne ↦ v k h (omega arith) ]

    step : (o : Option ℕ) → occupied ls i ≡ false → Below ls i o → Below ls (suc i) o
    step none f b = last f b
    step (some j) f b = (omega (arith, b.0), b.1, last f b.2)

abbrev pub From : List PriceLevel → ℕ → ℕ → Option ℕ → Type 0
From ls i n none = Vacant ls i (i + n)
From ls i n (some j) = (i ≤ j) × (j < i + n) × (occupied ls j ≡ true) × Vacant ls i j

pub occupied_from-From : (ls : List PriceLevel) (i n : ℕ) → From ls i n (occupied_from ls i n)
unfolding occupied_from
occupied_from-From ls i zero = λ k h less. absurd (omega arith)
occupied_from-From ls i (suc n) = elim (Bool-cases (occupied ls i)) [
  | inl t ↦ rw t (omega arith, omega arith, t, λ k h less. absurd (omega arith))
  | inr f ↦ rw f (step (occupied_from ls (i + 1) n) f (occupied_from-From ls (i + 1) n))
]
  where
    first : {b b' : ℕ} → b ≡ b' → occupied ls i ≡ false → Vacant ls (i + 1) b → Vacant ls i b'
    first e f v k h less = elim (ℕ_discrete k i) [
      | yes same ↦ rw same f
      | no ne ↦ v k (omega arith) (omega arith)
    ]

    step : (o : Option ℕ) → occupied ls i ≡ false → From ls (i + 1) n o → From ls i (suc n) o
    step none f v = first (omega arith) f v
    step (some j) f b = (omega (arith, b.0), omega (arith, b.1), b.2, first refl f b.3)

-- What a scan above `i` finds.
abbrev pub Above : List PriceLevel → ℕ → Option ℕ → Type 0
Above ls i none = (k : ℕ) → i < k → occupied ls k ≡ false
Above ls i (some j) = (i < j) × (occupied ls j ≡ true) × Vacant ls (suc i) j

pub occupied_above-Above : (ls : List PriceLevel) (i : ℕ) → Above ls i (occupied_above ls i)
unfolding occupied_above
occupied_above-Above ls i =
    go (occupied_from ls (i + 1) (length ls - (i + 1)))
      (occupied_from-From ls (i + 1) (length ls - (i + 1)))
  where
    go : (o : Option ℕ) → From ls (i + 1) (length ls - (i + 1)) o → Above ls i o
    go none v = λ k h. elim (dec_lt k (length ls)) [
      | yes p ↦ v k (omega arith) (omega arith)
      | no p ↦ occupied_past ls k (omega arith)
    ]
    go (some j) b = (omega (arith, b.0), b.2, λ k h less. b.3 k (omega arith) less)

-- A write of a level.
pub occupied-set_self :
    (ls : List PriceLevel) (i : ℕ) (l : PriceLevel)
    → i < length ls
    → occupied (set ls i l) i ≡ not (is_empty l)
unfolding occupied
occupied-set_self ls i l h = rw (get_elem?-set_self ls i l h)

pub occupied-set_ne :
    (ls : List PriceLevel) {i k : ℕ} (l : PriceLevel)
    → i ≢ k
    → occupied (set ls i l) k ≡ occupied ls k
unfolding occupied
occupied-set_ne ls l h = rw (get_elem?-set_ne ls l h)
