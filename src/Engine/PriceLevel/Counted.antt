-- ===== src/Engine/PriceLevel/Counted.antt =====
-- The aggregates of a level are those of its queue, and no order in it is empty.
use order_matching_engine.Base.{
  ℕ, ◌+◌, ◌≡◌, refl, ◌<◌, List, [], ◌∷◌, ◌++◌, arith, length, length-append, some,
}
use order_matching_engine.Common.Types.{Price, Side}
use order_matching_engine.Engine.Order.{Order}
use order_matching_engine.Engine.PriceLevel.{PriceLevel, init, enqueue, unlink, remove, find}

abbrev pub sum_remaining : List Order → ℕ
sum_remaining [] = 0
sum_remaining (o ∷ os) = o.remaining + sum_remaining os

abbrev pub AllPositive : List Order → Type 0
AllPositive [] = Unit {0}
AllPositive (o ∷ os) = (0 < o.remaining) × AllPositive os

-- All orders are of one side and price.
abbrev pub AllAt : Side → Price → List Order → Type 0
AllAt s p [] = Unit {0}
AllAt s p (o ∷ os) = ((o.side ≡ s) × (o.price ≡ p)) × AllAt s p os

pub record IsCounted (l : PriceLevel) : Type 0 where
  pub total : l.total_qty ≡ sum_remaining l.queue
  pub counted : l.count ≡ length l.queue
  pub positive : AllPositive l.queue

pub sum_remaining-snoc :
    (os : List Order) (o : Order) → sum_remaining (os ++ (o ∷ [])) ≡ sum_remaining os + o.remaining
sum_remaining-snoc [] o = omega arith
sum_remaining-snoc (x ∷ os) o = omega (arith, sum_remaining-snoc os o)

pub AllPositive-snoc :
    (os : List Order) (o : Order) → AllPositive os → 0 < o.remaining → AllPositive (os ++ (o ∷ []))
AllPositive-snoc [] o a h = (h, tt)
AllPositive-snoc (x ∷ os) o a h = (a.0, AllPositive-snoc os o a.1 h)

pub AllAt-snoc :
    (s : Side) (p : Price) (os : List Order) (o : Order)
    → AllAt s p os
    → (o.side ≡ s) × (o.price ≡ p)
    → AllAt s p (os ++ (o ∷ []))
AllAt-snoc s p [] o a h = (h, tt)
AllAt-snoc s p (x ∷ os) o a h = (a.0, AllAt-snoc s p os o a.1 h)

pub sum_remaining-remove :
    (id : ℕ) (os : List Order) (o : Order)
    → find id os ≡ some o
    → (sum_remaining (remove id os) + o.remaining ≡ sum_remaining os)
      × (length (remove id os) + 1 ≡ length os)
unfolding find remove
sum_remaining-remove id [] o e = absurd (ground arith)
sum_remaining-remove id (x ∷ os) o e = ground (arith, sum_remaining-remove id os o)

pub AllPositive-remove : (id : ℕ) (os : List Order) → AllPositive os → AllPositive (remove id os)
unfolding remove
AllPositive-remove id [] a = tt
AllPositive-remove id (x ∷ os) a = ground (arith, AllPositive-remove id os a.1)

pub AllAt-remove :
    (s : Side) (p : Price) (id : ℕ) (os : List Order) → AllAt s p os → AllAt s p (remove id os)
unfolding remove
AllAt-remove s p id [] a = tt
AllAt-remove s p id (x ∷ os) a = ground (arith, AllAt-remove s p id os a.1)

pub find-AllAt :
    (s : Side) (p : Price) (id : ℕ) (os : List Order) (o : Order)
    → AllAt s p os
    → find id os ≡ some o
    → (o.side ≡ s) × (o.price ≡ p) × (o.id ≡ id)
unfolding find
find-AllAt s p id [] o a e = absurd (ground arith)
find-AllAt s p id (x ∷ os) o a e = ground (arith, find-AllAt s p id os o a.1)

pub init-IsCounted : (p : Price) → IsCounted (init p)
unfolding init
init-IsCounted p = record { total = refl; counted = refl; positive = tt }

pub enqueue-IsCounted :
    (l : PriceLevel) (o : Order) → 0 < o.remaining → IsCounted l → IsCounted (enqueue l o)
unfolding enqueue
enqueue-IsCounted l o h v = record {
  total = omega (arith, v.total, sum_remaining-snoc l.queue o);
  counted = omega (arith, v.counted, length-append l.queue (o ∷ []));
  positive = AllPositive-snoc l.queue o v.positive h;
}

pub unlink-IsCounted :
    (l : PriceLevel) (o : Order) → find o.id l.queue ≡ some o → IsCounted l → IsCounted (unlink l o)
unfolding unlink
unlink-IsCounted l o e v = record {
  total = omega (arith, v.total, sum_remaining-remove o.id l.queue o e);
  counted = omega (arith, v.counted, sum_remaining-remove o.id l.queue o e);
  positive = AllPositive-remove o.id l.queue v.positive;
}
