-- ===== src/Common/ObjectPool.antt =====
-- common/object_pool.hpp: the pool of orders. A slot is known by its place in the block; the free list,
-- which goes through the unused slots, is the list of their places.
use order_matching_engine.Base.{
  ℕ, zero, suc, ◌+◌, ◌-◌, ◌≡◌, ap, ◌<◌, refl, List, [], ◌∷◌, Option, none, some, true, length,
  arith, ltb, if◌then◌else◌, min,
}
use order_matching_engine.Book.IdSet.{count, erase, contains, count-erase, contains-count}

pub record ObjectPool : Type 0 where
  pub free : List ℕ
  pub capacity : ℕ
  pub in_use : ℕ

-- The slots from `i` on, each linked to the next.
unfoldable pub thread : ℕ → ℕ → List ℕ
thread i zero = []
thread i (suc n) = i ∷ thread (i + 1) n

unfoldable pub create : ℕ → ObjectPool
unfolding thread
create capacity = record { free = thread 0 capacity; capacity = capacity; in_use = 0 }

-- `none`: the pool is exhausted.
unfoldable pub acquire_from : List ℕ → ObjectPool → Option ℕ × ObjectPool
acquire_from [] p = (none, p)
acquire_from (s ∷ rest) p = (some s, record p { free = rest; in_use = p.in_use + 1 })

unfoldable pub acquire : ObjectPool → Option ℕ × ObjectPool
unfolding acquire_from
acquire p = acquire_from p.free p

unfoldable pub release : ObjectPool → ℕ → ObjectPool
release p s = record p { free = s ∷ p.free; in_use = p.in_use - 1 }

unfoldable pub available : ObjectPool → ℕ
available p = p.capacity - p.in_use

-- Each slot is either free or held by a client, and by one only.
pub record IsPool (p : ObjectPool) (held : List ℕ) : Type 0 where
  pub one_place : (s : ℕ) → count s p.free + count s held ≡ (if ltb s p.capacity then 1 else 0)
  pub used : p.in_use ≡ length held
  pub whole : length p.free + p.in_use ≡ p.capacity

count-thread :
    (s i n : ℕ) → count s (thread i n) ≡ (if ltb s i then 0 else if ltb s (i + n) then 1 else 0)
unfolding count thread
count-thread s i zero = ground arith
count-thread s i (suc n) = ground (arith, count-thread s (i + 1) n)

length-thread : (i n : ℕ) → length (thread i n) ≡ n
unfolding thread
length-thread i zero = refl
length-thread i (suc n) = omega (arith, length-thread (i + 1) n)

pub create-IsPool : (n : ℕ) → IsPool (create n) []
unfolding create count
create-IsPool n = record {
  one_place = λ s. ground (arith, count-thread s 0 n);
  used = refl;
  whole = omega (arith, length-thread 0 n);
}

-- What `acquire` may do.
abbrev pub Acquired : ObjectPool → List ℕ → Option ℕ × ObjectPool → Type 0
Acquired p held (none, q) = (q ≡ p) × (length held ≡ p.capacity)
Acquired p held (some s, q) = (s < p.capacity) × (count s held ≡ 0) × IsPool q (s ∷ held)

-- From a pool in order, where each slot is free or held by one client and the count of used slots
-- is right, acquire gives a slot that nobody holds and leaves the pool in order with that slot
-- held, or gives none and changes nothing, and then all slots are held.
pub acquire-Acquired :
    (p : ObjectPool) (held : List ℕ) → IsPool p held → Acquired p held (acquire p)
unfolding acquire
acquire-Acquired p held v = go p.free refl
  where
    go : (fs : List ℕ) → p.free ≡ fs → Acquired p held (acquire_from fs p)
    go [] e = (refl, omega (arith, v.whole, v.used, ap length e))
    go (s ∷ rest) e =
        let at : (k : ℕ) → count k p.free ≡ count k (s ∷ rest) = λ k. ap (count k) e in
        unfold count in
        (
          ground (arith, v.one_place s, at s),
          ground (arith, v.one_place s, at s),
          record {
            one_place = λ k. ground (arith, v.one_place k, at k);
            used = omega (arith, v.used);
            whole = omega (arith, v.whole, ap length e);
          },
        )

length-erase : (s : ℕ) (xs : List ℕ) → length (erase s xs) + min 1 (count s xs) ≡ length xs
unfolding erase count
length-erase s [] = refl
length-erase s (x ∷ xs) = ground (arith, length-erase s xs)

-- The release of a slot that is held leaves a pool in order, with the slot free.
pub release-IsPool :
    (p : ObjectPool) (held : List ℕ) (s : ℕ)
    → IsPool p held
    → contains s held ≡ true
    → IsPool (release p s) (erase s held)
unfolding release count
release-IsPool p held s v c = record {
  one_place = λ k.
      ground (arith, v.one_place k, v.one_place s, count-erase s k held, contains-count s held);
  used = ground (arith, v.used, length-erase s held, contains-count s held);
  whole = ground (arith, v.used, v.whole, length-erase s held, contains-count s held);
}
