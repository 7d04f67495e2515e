-- ===== src/Ipc/SpscRing/Threads/Order.antt =====
-- What holds of the ring whatever the order of the two threads' steps is.
use order_matching_engine.Base.{
  ℕ, zero, ◌+◌, ◌-◌, ◌%◌, ◌<◌, ◌≤◌, ◌≡◌, refl, sym, ap, ◌∙◌, List, ◌++◌, map, some, get_elem?, set,
  get_elem?-set_ne, arith, length-replicate,
}
use order_matching_engine.Ipc.SpscRing.{empty_ring}
use order_matching_engine.Ipc.SpscRing.Window.{slots_apart}
use order_matching_engine.Ipc.SpscRing.Refine.{IsRing, contents}
use order_matching_engine.Ipc.SpscRing.Threads.{
  Producer, idle, claimed, filled, Consumer, watching, peeked, taken, System, start,
}

module _ {A : Type 0} where
  -- What a producer at some point of `push` knows of the storage, the capacity, the head and the tail.
  abbrev pub Between : List A → ℕ → ℕ → ℕ → Producer A → Type 0
  Between st c h t idle = zero ≡ zero
  Between st c h t (claimed i) = (i ≡ h % c) × (h - t < c)
  Between st c h t (filled v) = (get_elem? st (h % c) ≡ some v) × (h - t < c)

  -- The same of a consumer, with the head that it has read.
  abbrev pub Seen : List A → ℕ → ℕ → ℕ → Consumer A → Type 0
  Seen st c t ch watching = zero ≡ zero
  Seen st c t ch (peeked i) = (i ≡ t % c) × (t < ch)
  Seen st c t ch (taken o) = (o ≡ get_elem? st (t % c)) × (t < ch)

  pub record IsSystem (s : System A) : Type 0 where
    pub ring : IsRing s.ring
    pub produces : Between s.ring.storage s.ring.capacity s.ring.head s.ring.tail s.producer
    pub consumes : Seen s.ring.storage s.ring.capacity s.ring.tail s.ring.cached_head s.consumer
    pub account : s.received ++ contents s.ring ≡ map some s.sent

  pub start-IsSystem : (cap : ℕ) (d : A) → 0 < cap → IsSystem (start cap d)
  unfolding empty_ring
  start-IsSystem c d pos = record {
    ring = record {
      full_storage = length-replicate c d;
      some_slot = pos;
      stale_tail = omega arith;
      seen_head = omega arith;
      stale_head = omega arith;
      bounded = omega arith;
    };
    produces = refl;
    consumes = refl;
    account = refl;
  }

  -- The consumer's step forward leaves the producer its place.
  pub consume-Between :
      (st : List A) (c h t : ℕ) (p : Producer A) → Between st c h t p → Between st c h (t + 1) p
  consume-Between st c h t idle b = b
  consume-Between st c h t (claimed i) b = (b.0, omega (arith, b.1))
  consume-Between st c h t (filled v) b = (b.0, omega (arith, b.1))

  -- The producer writes to another slot than the one that the consumer reads.
  pub write-Seen :
      (st : List A) (c h t ch : ℕ) (v : A) (k : Consumer A)
      → ch ≤ h
      → h - t < c
      → Seen st c t ch k
      → Seen (set st (h % c) v) c t ch k
  write-Seen st c h t ch v watching le lt b = b
  write-Seen st c h t ch v (peeked i) le lt b = b
  write-Seen st c h t ch v (taken o) le lt b =
      let at : t + (h - t) ≡ h = omega (arith, b.1, le) in
      (
        b.0
            ∙ sym (
                ap (λ i. get_elem? (set st (i % c) v) (t % c)) (sym at)
                ∙ get_elem?-set_ne st v (slots_apart c t (h - t) (omega (arith, b.1, le)) lt)),
        b.1,
      )
