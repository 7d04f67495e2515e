-- ===== src/Book/IdSet.antt =====
-- What engine/order_book.cpp relies on of book/order_id_map.hpp: the ids of the orders that rest.
-- A pointer to an order is known by the id of that order, which is unique among those that rest.
use order_matching_engine.Base.{
  ℕ, ◌+◌, List, [], ◌∷◌, Bool, false, true, ◌==◌, if◌then◌else◌, ◌≡◌, min, ltb, arith,
}

unfoldable pub contains : ℕ → List ℕ → Bool
contains id [] = false
contains id (j ∷ js) = if j == id then true else contains id js

-- The map rejects an id that it holds.
unfoldable pub insert : ℕ → List ℕ → List ℕ
insert id ids = if contains id ids then ids else id ∷ ids

unfoldable pub erase : ℕ → List ℕ → List ℕ
erase id [] = []
erase id (j ∷ js) = if j == id then js else j ∷ erase id js

-- How often an id stands in the set.
unfoldable pub count : ℕ → List ℕ → ℕ
count id [] = 0
count id (j ∷ js) = (if j == id then 1 else 0) + count id js

pub count-erase :
    (j k : ℕ) (ids : List ℕ)
    → count k (erase j ids) + (if j == k then min 1 (count j ids) else 0) ≡ count k ids
unfolding count erase
count-erase j k [] = ground arith
count-erase j k (i ∷ ids) = ground (arith, count-erase j k ids)

pub contains-count : (k : ℕ) (ids : List ℕ) → contains k ids ≡ ltb 0 (count k ids)
unfolding contains count
contains-count k [] = ground arith
contains-count k (i ∷ ids) = ground (arith, contains-count k ids)

pub count-insert :
    (j k : ℕ) (ids : List ℕ)
    → contains j ids ≡ false
    → count k (insert j ids) ≡ count k ids + (if j == k then 1 else 0)
unfolding insert count
count-insert j k ids h = ground arith
