-- ===== src/Ipc/SpscRing/Refine.antt =====
-- The ring against a queue of bounded length.
use order_matching_engine.Base.{
  ℕ, suc, ◌+◌, ◌-◌, ◌%◌, ◌<◌, ◌≤◌, ◌≡◌, refl, sym, ap, ap₂, subst, ◌∙◌, List, [], ◌∷◌, ◌++◌, map,
  map-append, ◌==◌, Bool, true, false, Option, none, some, length, get_or, drop, set, ltb, leb,
  ltb→lt, if◌then◌else◌, arith, Bool-cases, Option-cases, inl, inr, length-set, length-map,
  length-replicate,
}
use order_matching_engine.Ipc.SpscRing.{
  SpscRing, empty_ring, try_claim, write_slot, publish, push, try_peek, read_slot, consume, pop,
}
use order_matching_engine.Ipc.SpscRing.Window.{window, length-window, window-set}

module _ {A : Type 0} where
  -- The cursors of a ring in order, the cached ones included.
  pub record IsRing (r : SpscRing A) : Type 0 where
    pub full_storage : length r.storage ≡ r.capacity
    pub some_slot : 0 < r.capacity
    pub stale_tail : r.cached_tail ≤ r.tail
    pub seen_head : r.tail ≤ r.cached_head
    pub stale_head : r.cached_head ≤ r.head
    pub bounded : r.head - r.tail ≤ r.capacity

  abbrev pub contents : SpscRing A → List (Option A)
  contents r = window r.storage r.capacity r.tail (r.head - r.tail)

  pub record Holds (r : SpscRing A) (q : List A) : Type 0 where
    pub ring : IsRing r
    pub values : contents r ≡ map some q

  pub Holds-length : (r : SpscRing A) (q : List A) → Holds r q → length q ≡ r.head - r.tail
  Holds-length r q h =
      sym (length-map q some)
      ∙ ap length (sym h.values)
      ∙ length-window r.storage r.capacity r.tail (r.head - r.tail)

  -- The queue that a ring stands for.
  abbrev pub offer : ℕ → List A → A → List A × Bool
  offer cap q v = if ltb (length q) cap then (q ++ (v ∷ []), true) else (q, false)

  abbrev pub poll : List A → List A × Option A
  poll [] = ([], none)
  poll (v ∷ q) = (q, some v)

  -- What a claim finds out: the cached cursor changes nothing in the answer.
  pub try_claim_lem :
      (r : SpscRing A)
      → IsRing r
      → (try_claim r).0
        ≡ (if ltb (r.head - r.tail) r.capacity then some (r.head % r.capacity) else none)
  unfolding try_claim
  try_claim_lem r ok = ground (arith, ok.stale_tail)

  pub try_claim-Holds : (r : SpscRing A) (q : List A) → Holds r q → Holds (try_claim r).1 q
  unfolding try_claim
  try_claim-Holds r q h = elim (Bool-cases (leb r.capacity (r.head - r.cached_tail))) [
    | inl e ↦ rw e (record {
      ring = record {
        full_storage = h.ring.full_storage;
        some_slot = h.ring.some_slot;
        stale_tail = omega arith;
        seen_head = h.ring.seen_head;
        stale_head = h.ring.stale_head;
        bounded = h.ring.bounded;
      };
      values = h.values;
    })
    | inr e ↦ rw e h
  ]

  pub try_claim-head : (r : SpscRing A) → (try_claim r).1.head ≡ r.head
  unfolding try_claim
  try_claim-head r = elim (Bool-cases (leb r.capacity (r.head - r.cached_tail))) [
    | inl e ↦ rw e refl
    | inr e ↦ rw e refl
  ]

  pub try_claim-capacity : (r : SpscRing A) → (try_claim r).1.capacity ≡ r.capacity
  unfolding try_claim
  try_claim-capacity r = elim (Bool-cases (leb r.capacity (r.head - r.cached_tail))) [
    | inl e ↦ rw e refl
    | inr e ↦ rw e refl
  ]

  -- A value written to the slot past the window is the queue's last once it is published.
  pub publish-Holds :
      (r : SpscRing A) (q : List A) (v : A)
      → Holds r q
      → length q < r.capacity
      → Holds (publish (write_slot r (r.head % r.capacity) v)) (q ++ (v ∷ []))
  unfolding publish write_slot
  publish-Holds r q v h room =
      let n : length q ≡ r.head - r.tail = Holds-length r q h in
      let at : r.tail + (r.head - r.tail) ≡ r.head =
        omega (arith, h.ring.seen_head, h.ring.stale_head) in
      record {
        ring = record {
          full_storage = length-set r.storage (r.head % r.capacity) v ∙ h.ring.full_storage;
          some_slot = h.ring.some_slot;
          stale_tail = h.ring.stale_tail;
          seen_head = h.ring.seen_head;
          stale_head = omega (arith, h.ring.stale_head);
          bounded = omega (arith, room, n);
        };
        values =
            ap (λ k. window (set r.storage (r.head % r.capacity) v) r.capacity r.tail k)
              {y = suc (r.head - r.tail)} (omega (arith, at))
            ∙ ap
                (λ i.
                  window (set r.storage (i % r.capacity) v) r.capacity r.tail
                    (suc (r.head - r.tail)))
                (sym at)
            ∙ window-set r.storage r.capacity r.tail (r.head - r.tail) v h.ring.full_storage
                (omega (arith, room, n))
            ∙ ap (λ xs. xs ++ (some v ∷ [])) h.values
            ∙ sym (map-append some q (v ∷ []));
      }

  pub push_lem :
      (r : SpscRing A) (q : List A) (v : A)
      → Holds r q
      → Holds (push r v).0 (offer r.capacity q v).0 × ((push r v).1 ≡ (offer r.capacity q v).1)
  unfolding push
  push_lem r q v h =
      let claimed = try_claim-Holds r q h in
      let answer = try_claim_lem r h.ring in
      let n : length q ≡ r.head - r.tail = Holds-length r q h in
      let cap : (try_claim r).1.capacity ≡ r.capacity = try_claim-capacity r in
      elim (Bool-cases (ltb (length q) r.capacity)) [
        | inl e ↦
            rw (e, answer, sym n, e)
              (
                subst (λ i. Holds (publish (write_slot (try_claim r).1 i v)) (q ++ (v ∷ [])))
                    (ap₂ (λ x y. x % y) (try_claim-head r) cap)
                    (publish-Holds (try_claim r).1 q v claimed
                      (omega (arith, cap, ltb→lt (length q) r.capacity e))),
                refl,
              )
        | inr e ↦ rw (e, answer, sym n, e) (claimed, refl)
      ]

  pub try_peek_lem :
      (r : SpscRing A)
      → IsRing r
      → (try_peek r).0 ≡ (if r.tail == r.head then none else some (r.tail % r.capacity))
  unfolding try_peek
  try_peek_lem r ok = ground (arith, ok.seen_head, ok.stale_head)

  pub try_peek-Holds : (r : SpscRing A) (q : List A) → Holds r q → Holds (try_peek r).1 q
  unfolding try_peek
  try_peek-Holds r q h = elim (Bool-cases (r.tail == r.cached_head)) [
    | inl e ↦ rw e (record {
      ring = record {
        full_storage = h.ring.full_storage;
        some_slot = h.ring.some_slot;
        stale_tail = h.ring.stale_tail;
        seen_head = omega (arith, h.ring.seen_head, h.ring.stale_head);
        stale_head = omega arith;
        bounded = h.ring.bounded;
      };
      values = h.values;
    })
    | inr e ↦ rw e h
  ]

  pub try_peek-tail : (r : SpscRing A) → (try_peek r).1.tail ≡ r.tail
  unfolding try_peek
  try_peek-tail r = elim (Bool-cases (r.tail == r.cached_head)) [
    | inl e ↦ rw e refl
    | inr e ↦ rw e refl
  ]

  pub try_peek-head : (r : SpscRing A) → (try_peek r).1.head ≡ r.head
  unfolding try_peek
  try_peek-head r = elim (Bool-cases (r.tail == r.cached_head)) [
    | inl e ↦ rw e refl
    | inr e ↦ rw e refl
  ]

  pub try_peek-capacity : (r : SpscRing A) → (try_peek r).1.capacity ≡ r.capacity
  unfolding try_peek
  try_peek-capacity r = elim (Bool-cases (r.tail == r.cached_head)) [
    | inl e ↦ rw e refl
    | inr e ↦ rw e refl
  ]

  -- With a value in the queue the slot at the tail has the first one, and its release takes it out.
  pub consume-Holds :
      (r : SpscRing A) (v : A) (q : List A)
      → Holds r (v ∷ q)
      → r.tail < r.cached_head
      → (read_slot r (r.tail % r.capacity) ≡ some v) × Holds (consume r) q
  unfolding consume read_slot
  consume-Holds r v q h seen =
      let n : r.head - r.tail ≡ suc (r.head - (r.tail + 1)) = omega (arith, h.ring.stale_head) in
      let e = sym (ap (λ k. window r.storage r.capacity r.tail k) n) ∙ h.values in
      (
        ap (λ xs. get_or xs 0 none) e,
        record {
          ring = record {
            full_storage = h.ring.full_storage;
            some_slot = h.ring.some_slot;
            stale_tail = omega (arith, h.ring.stale_tail);
            seen_head = omega arith;
            stale_head = h.ring.stale_head;
            bounded = omega (arith, h.ring.bounded);
          };
          values = ap (λ xs. drop 1 xs) e;
        },
      )

  pub try_peek-seen :
      (r : SpscRing A) → IsRing r → r.tail < r.head → r.tail < (try_peek r).1.cached_head
  unfolding try_peek
  try_peek-seen r ok lt = elim (Bool-cases (r.tail == r.cached_head)) [
    | inl e ↦ rw e lt
    | inr e ↦ rw e (ground (arith, e, ok.seen_head))
  ]

  pub pop_lem :
      (r : SpscRing A) (q : List A)
      → Holds r q
      → Holds (pop r).0 (poll q).0 × ((pop r).1 ≡ (poll q).1)
  unfolding pop
  pop_lem r [] h =
      let empty : (r.tail == r.head) ≡ true =
        ground (arith, Holds-length r [] h, h.ring.seen_head, h.ring.stale_head) in
      rw (try_peek_lem r h.ring, empty) (try_peek-Holds r [] h, refl)
  pop_lem r (v ∷ q) h =
      let full : (r.tail == r.head) ≡ false = ground (arith, Holds-length r (v ∷ q) h) in
      let tail : (try_peek r).1.tail ≡ r.tail = try_peek-tail r in
      let taken =
        consume-Holds (try_peek r).1 v q (try_peek-Holds r (v ∷ q) h)
          (omega (arith, tail, try_peek-seen r h.ring (omega (arith, Holds-length r (v ∷ q) h)))) in
      rw (try_peek_lem r h.ring, full)
        (
          taken.1,
          ap (λ i. read_slot (try_peek r).1 i) (sym (ap₂ (λ x y. x % y) tail (try_peek-capacity r)))
              ∙ taken.0,
        )

  pub push-capacity : (r : SpscRing A) (v : A) → (push r v).0.capacity ≡ r.capacity
  unfolding push publish write_slot
  push-capacity r v = elim (Option-cases (try_claim r).0) [
    | inl e ↦ rw e (try_claim-capacity r)
    | inr p ↦ rw p.1 (try_claim-capacity r)
  ]

  pub pop-capacity : (r : SpscRing A) → (pop r).0.capacity ≡ r.capacity
  unfolding pop consume
  pop-capacity r = elim (Option-cases (try_peek r).0) [
    | inl e ↦ rw e (try_peek-capacity r)
    | inr p ↦ rw p.1 (try_peek-capacity r)
  ]

  pub empty_ring-Holds : (cap : ℕ) (d : A) → 0 < cap → Holds (empty_ring cap d) []
  unfolding empty_ring
  empty_ring-Holds cap d pos = record {
    ring = record {
      full_storage = length-replicate cap d;
      some_slot = pos;
      stale_tail = omega arith;
      seen_head = omega arith;
      stale_head = omega arith;
      bounded = omega arith;
    };
    values = refl;
  }
