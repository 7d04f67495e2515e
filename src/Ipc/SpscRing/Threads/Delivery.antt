-- ===== src/Ipc/SpscRing/Threads/Delivery.antt =====
-- What the two threads of a ring get from each other.
use order_matching_engine.Base.{
  ℕ, zero, suc, ◌+◌, ◌-◌, ◌%◌, ◌<◌, ◌≤◌, ◌≡◌, ◌≢◌, refl, sym, ap, ap₂, subst, get_elem?, ◌∙◌, ◌++◌,
  map, append-nil, Option, some, length, arith, elim_option,
}
use order_matching_engine.Ipc.SpscRing.{
  SpscRing, empty_ring, publish, write_slot, try_peek, read_slot, consume,
}
use order_matching_engine.Ipc.SpscRing.Window.{window, slots_apart, length-window}
use order_matching_engine.Ipc.SpscRing.Refine.{
  contents, try_peek_lem, try_peek-head, try_peek-tail, try_peek-capacity, try_claim-capacity,
}
use order_matching_engine.Ipc.SpscRing.Threads.{
  claimed, Consumer, watching, peeked, taken, System, Consume, peeks, reads, consumes, claims,
  writes, publishes, Reach, begin, producer, consumer,
}
use order_matching_engine.Ipc.SpscRing.Threads.Order.{Between, Seen, IsSystem}
use order_matching_engine.Ipc.SpscRing.Threads.Steps.{Reach-IsSystem, Consume-IsSystem}

module _ {A : Type 0} where
  Reach-capacity : (c : ℕ) (d : A) (s : System A) → Reach c d s → s.ring.capacity ≡ c
  unfolding publish write_slot consume empty_ring
  Reach-capacity c d s begin = refl
  Reach-capacity c d s (producer {s = t} p (claims e)) =
      try_claim-capacity t.ring ∙ Reach-capacity c d t p
  Reach-capacity c d s (producer {s = t} p (writes i v e)) = Reach-capacity c d t p
  Reach-capacity c d s (producer {s = t} p (publishes v e)) = Reach-capacity c d t p
  Reach-capacity c d s (consumer {s = t} p (peeks e)) =
      try_peek-capacity t.ring ∙ Reach-capacity c d t p
  Reach-capacity c d s (consumer {s = t} p (reads i e)) = Reach-capacity c d t p
  Reach-capacity c d s (consumer {s = t} p (consumes o e)) = Reach-capacity c d t p

  -- In every state that the interleaved steps of producer and consumer reach on a ring with some
  -- capacity, the values received and those in the ring are the values sent, in order and each
  -- once, and the ring holds at most its capacity.
  pub delivery :
      (c : ℕ) (d : A) (s : System A)
      → 0 < c
      → Reach c d s
      → (s.received ++ contents s.ring ≡ map some s.sent) × (length (contents s.ring) ≤ c)
  delivery c d s pos p =
      let v = Reach-IsSystem c d s pos p in
      (
        v.account,
        omega (
          arith,
          length-window s.ring.storage s.ring.capacity s.ring.tail (s.ring.head - s.ring.tail),
          v.ring.bounded,
          Reach-capacity c d s p,
        ),
      )

  -- In every reachable state of a ring with some capacity, the slot that the producer is about to
  -- write is not the one that the consumer is about to read.
  pub slots_apart-Reach :
      (c : ℕ) (d : A) (s : System A) (i j : ℕ)
      → 0 < c
      → Reach c d s
      → s.producer ≡ claimed i
      → s.consumer ≡ peeked j
      → i ≢ j
  slots_apart-Reach c d s i j pos p e f =
      let v = Reach-IsSystem c d s pos p in
      let r : SpscRing A = s.ring in
      let mine : (i ≡ r.head % r.capacity) × (r.head - r.tail < r.capacity) =
        subst (λ k. Between r.storage r.capacity r.head r.tail k) e v.produces in
      let yours : (j ≡ r.tail % r.capacity) × (r.tail < r.cached_head) =
        subst (λ k. Seen r.storage r.capacity r.tail r.cached_head k) f v.consumes in
      let at : r.tail + (r.head - r.tail) ≡ r.head =
        omega (arith, v.ring.seen_head, v.ring.stale_head) in
      λ same.
        slots_apart r.capacity r.tail (r.head - r.tail) (omega (arith, yours.1, v.ring.stale_head))
          mine.1 (ap (λ k. k % r.capacity) at ∙ sym mine.0 ∙ same ∙ yours.0)

  -- Steps of the consumer alone.
  pub data Alone : System A → System A → Type 0 where
    rests : (s : System A) → Alone s s
    steps : {s t u : System A} → Consume s t → Alone t u → Alone s u

  abbrev pub Drained : System A → Type 0
  Drained s = (t : System A) × Alone s t × (t.received ≡ map some s.sent)

  then_Drained : {s t : System A} → Consume s t → s.sent ≡ t.sent → Drained t → Drained s
  then_Drained st same d = (d.0, steps st d.1, d.2 ∙ ap (λ xs. map some xs) (sym same))

-- How the consumer goes on when `n` values are left behind the one it has in hand.
abbrev GoesOn : (A : Type 0) → ℕ → Type 0
GoesOn A n =
    (u : System A) → IsSystem u → u.consumer ≡ watching → u.ring.head - u.ring.tail ≡ n → Drained u

module _ {A : Type 0} where
  taken_Drained :
      (n : ℕ) (s : System A) (o : Option A)
      → GoesOn A n
      → IsSystem s
      → s.consumer ≡ taken o
      → s.ring.head - s.ring.tail ≡ suc n
      → Drained s
  unfolding consume
  taken_Drained n s o on v e m =
      let st : Consume s _ = consumes o e in
      then_Drained st refl (on _ (Consume-IsSystem v st) refl (omega (arith, m)))

  peeked_Drained :
      (n : ℕ) (s : System A) (i : ℕ)
      → GoesOn A n
      → IsSystem s
      → s.consumer ≡ peeked i
      → s.ring.head - s.ring.tail ≡ suc n
      → Drained s
  peeked_Drained n s i on v e m =
      let st : Consume s _ = reads i e in
      then_Drained st refl
        (taken_Drained n _ (read_slot s.ring i) on (Consume-IsSystem v st) refl m)

  watching_Drained : (n : ℕ) → GoesOn A n
  watching_Drained zero s v e m = (
    s,
    rests s,
    sym (append-nil s.received)
        ∙ ap (λ k. s.received ++ window s.ring.storage s.ring.capacity s.ring.tail k) (sym m)
        ∙ v.account,
  )
  watching_Drained (suc n) s v e m =
      let st : Consume s _ = peeks e in
      let answer : (try_peek s.ring).0 ≡ some (s.ring.tail % s.ring.capacity) =
        try_peek_lem s.ring v.ring ∙ ground (arith, m) in
      then_Drained st refl (
        peeked_Drained n _ (s.ring.tail % s.ring.capacity) (watching_Drained n)
          (Consume-IsSystem v st) (ap (λ o. elim_option o watching peeked) answer)
          (ap₂ (λ h t. h - t) (try_peek-head s.ring) (try_peek-tail s.ring) ∙ m))

  IsSystem-Drained : (s : System A) (k : Consumer A) → s.consumer ≡ k → IsSystem s → Drained s
  IsSystem-Drained s watching e v = watching_Drained (s.ring.head - s.ring.tail) s v e refl
  IsSystem-Drained s (peeked i) e v =
      let mine : (i ≡ s.ring.tail % s.ring.capacity) × (s.ring.tail < s.ring.cached_head) =
        subst (λ k. Seen s.ring.storage s.ring.capacity s.ring.tail s.ring.cached_head k) e
          v.consumes in
      peeked_Drained (s.ring.head - (s.ring.tail + 1)) s i
        (watching_Drained (s.ring.head - (s.ring.tail + 1))) v e
        (omega (arith, mine.1, v.ring.stale_head))
  IsSystem-Drained s (taken o) e v =
      let mine : (o ≡ get_elem? s.ring.storage (s.ring.tail % s.ring.capacity))
          × (s.ring.tail < s.ring.cached_head) =
        subst (λ k. Seen s.ring.storage s.ring.capacity s.ring.tail s.ring.cached_head k) e
          v.consumes in
      taken_Drained (s.ring.head - (s.ring.tail + 1)) s o
        (watching_Drained (s.ring.head - (s.ring.tail + 1))) v e
        (omega (arith, mine.1, v.ring.stale_head))

  -- From every reachable state of a ring with some capacity, steps of the consumer alone lead to a
  -- state where it has received all that had been sent.
  pub drain : (c : ℕ) (d : A) (s : System A) → 0 < c → Reach c d s → Drained s
  drain c d s pos p = IsSystem-Drained s s.consumer refl (Reach-IsSystem c d s pos p)
