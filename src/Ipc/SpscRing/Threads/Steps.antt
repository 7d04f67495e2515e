-- ===== src/Ipc/SpscRing/Threads/Steps.antt =====
-- Every step of the two threads keeps the ring in order.
use order_matching_engine.Base.{
  ℕ, suc, ◌+◌, ◌-◌, ◌%◌, ◌<◌, ◌≡◌, refl, sym, ap, subst, ◌∙◌, [], ◌∷◌, ◌++◌, map-append,
  append_assoc, Option, some, get_elem?, set, length-set, get_elem?-set_self, arith, Bool-cases,
  inl, inr, leb, elim_option, ◌==◌,
}
use order_matching_engine.Ipc.SpscRing.{
  SpscRing, try_claim, write_slot, publish, try_peek, read_slot, consume,
}
use order_matching_engine.Ipc.SpscRing.Window.{window, window-snoc, window-set_ahead}
use order_matching_engine.Ipc.SpscRing.Refine.{IsRing, contents}
use native.Mathlib.Nat.{mod-lt}
use order_matching_engine.Ipc.SpscRing.Threads.{
  Producer, idle, claimed, filled, Consumer, watching, peeked, taken, System, Produce, claims,
  writes, publishes, Consume, peeks, reads, consumes, Reach, begin, producer, consumer,
}
use order_matching_engine.Ipc.SpscRing.Threads.Order.{
  Between, IsSystem, Seen, consume-Between, start-IsSystem, write-Seen,
}

module _ {A : Type 0} where
  claims-IsSystem :
      (s : System A)
      → IsSystem s
      → IsSystem (record s {
        ring = (try_claim s.ring).1;
        producer = elim_option (try_claim s.ring).0 Producer.idle Producer.claimed;
      })
  unfolding try_claim
  claims-IsSystem s v =
      let read : IsRing (record s.ring { cached_tail = s.ring.tail }) = record {
        full_storage = v.ring.full_storage;
        some_slot = v.ring.some_slot;
        stale_tail = omega arith;
        seen_head = v.ring.seen_head;
        stale_head = v.ring.stale_head;
        bounded = v.ring.bounded;
      } in
      elim (Bool-cases (leb s.ring.capacity (s.ring.head - s.ring.cached_tail))) [
        | inl e ↦ elim (Bool-cases (leb s.ring.capacity (s.ring.head - s.ring.tail))) [
          | inl f ↦
              rw (e, f)
                (record {
                  ring = read;
                  produces = refl;
                  consumes = v.consumes;
                  account = v.account;
                })
          | inr f ↦
              rw (e, f)
                (record {
                  ring = read;
                  produces = (refl, ground (arith, f));
                  consumes = v.consumes;
                  account = v.account;
                })
        ]
        | inr e ↦ rw e (record {
          ring = v.ring;
          produces = (refl, ground (arith, e, v.ring.stale_tail));
          consumes = v.consumes;
          account = v.account;
        })
      ]

  peeks-IsSystem :
      (s : System A)
      → IsSystem s
      → IsSystem (record s {
        ring = (try_peek s.ring).1;
        consumer = elim_option (try_peek s.ring).0 Consumer.watching Consumer.peeked;
      })
  unfolding try_peek
  peeks-IsSystem s v =
      let read : IsRing (record s.ring { cached_head = s.ring.head }) = record {
        full_storage = v.ring.full_storage;
        some_slot = v.ring.some_slot;
        stale_tail = v.ring.stale_tail;
        seen_head = omega (arith, v.ring.seen_head, v.ring.stale_head);
        stale_head = omega arith;
        bounded = v.ring.bounded;
      } in
      elim (Bool-cases (s.ring.tail == s.ring.cached_head)) [
        | inl e ↦ elim (Bool-cases (s.ring.tail == s.ring.head)) [
          | inl f ↦
              rw (e, f)
                (record {
                  ring = read;
                  produces = v.produces;
                  consumes = refl;
                  account = v.account;
                })
          | inr f ↦
              rw (e, f)
                (record {
                  ring = read;
                  produces = v.produces;
                  consumes = (refl, ground (arith, f, v.ring.seen_head, v.ring.stale_head));
                  account = v.account;
                })
        ]
        | inr e ↦ rw e (record {
          ring = v.ring;
          produces = v.produces;
          consumes = (refl, ground (arith, e, v.ring.seen_head));
          account = v.account;
        })
      ]

  writes-IsSystem :
      (s : System A) (i : ℕ) (a : A)
      → IsSystem s
      → s.producer ≡ claimed i
      → IsSystem (record s { ring = write_slot s.ring i a; producer = filled a })
  unfolding write_slot
  writes-IsSystem s i a v e =
      let r : SpscRing A = s.ring in
      let mine : (i ≡ r.head % r.capacity) × (r.head - r.tail < r.capacity) =
        subst (λ p. Between r.storage r.capacity r.head r.tail p) e v.produces in
      let at : r.tail + (r.head - r.tail) ≡ r.head =
        omega (arith, v.ring.seen_head, v.ring.stale_head) in
      let low : r.head % r.capacity < r.capacity =
        mod-lt r.head {m = r.capacity} v.ring.some_slot in
      rw mine.0 (record {
        ring = record {
          full_storage = length-set r.storage (r.head % r.capacity) a ∙ v.ring.full_storage;
          some_slot = v.ring.some_slot;
          stale_tail = v.ring.stale_tail;
          seen_head = v.ring.seen_head;
          stale_head = v.ring.stale_head;
          bounded = v.ring.bounded;
        };
        produces = (
          get_elem?-set_self r.storage (r.head % r.capacity) a
              (omega (arith, low, v.ring.full_storage)),
          mine.1,
        );
        consumes =
            write-Seen r.storage r.capacity r.head r.tail r.cached_head a s.consumer
              v.ring.stale_head mine.1 v.consumes;
        account =
            ap (λ xs. s.received ++ xs)
              (ap
                  (λ k.
                    window (set r.storage (k % r.capacity) a) r.capacity r.tail (r.head - r.tail))
                  (sym at)
                ∙ window-set_ahead r.storage r.capacity r.tail (r.head - r.tail) (r.head - r.tail) a
                    (omega arith) mine.1)
            ∙ v.account;
      })

  publishes-IsSystem :
      (s : System A) (a : A)
      → IsSystem s
      → s.producer ≡ filled a
      → IsSystem (record s { ring = publish s.ring; producer = idle; sent = s.sent ++ (a ∷ []) })
  unfolding publish
  publishes-IsSystem s a v e =
      let r : SpscRing A = s.ring in
      let mine : (get_elem? r.storage (r.head % r.capacity) ≡ some a)
          × (r.head - r.tail < r.capacity) =
        subst (λ p. Between r.storage r.capacity r.head r.tail p) e v.produces in
      let at : r.tail + (r.head - r.tail) ≡ r.head =
        omega (arith, v.ring.seen_head, v.ring.stale_head) in
      record {
        ring = record {
          full_storage = v.ring.full_storage;
          some_slot = v.ring.some_slot;
          stale_tail = v.ring.stale_tail;
          seen_head = v.ring.seen_head;
          stale_head = omega (arith, v.ring.stale_head);
          bounded = omega (arith, mine.1);
        };
        produces = refl;
        consumes = v.consumes;
        account =
            ap (λ xs. s.received ++ xs)
              (ap (λ k. window r.storage r.capacity r.tail k) {y = suc (r.head - r.tail)}
                  (omega (arith, at))
                ∙ window-snoc r.storage r.capacity r.tail (r.head - r.tail)
                ∙ ap (λ x. contents r ++ (x ∷ []))
                    (ap (λ k. get_elem? r.storage (k % r.capacity)) at ∙ mine.0))
            ∙ sym (append_assoc s.received (contents r) (some a ∷ []))
            ∙ ap (λ xs. xs ++ (some a ∷ [])) v.account
            ∙ sym (map-append some s.sent (a ∷ []));
      }

  reads-IsSystem :
      (s : System A) (i : ℕ)
      → IsSystem s
      → s.consumer ≡ peeked i
      → IsSystem (record s { consumer = taken (read_slot s.ring i) })
  unfolding read_slot
  reads-IsSystem s i v e =
      let r : SpscRing A = s.ring in
      let mine : (i ≡ r.tail % r.capacity) × (r.tail < r.cached_head) =
        subst (λ p. Seen r.storage r.capacity r.tail r.cached_head p) e v.consumes in
      record {
        ring = v.ring;
        produces = v.produces;
        consumes = (ap (λ k. get_elem? r.storage k) mine.0, mine.1);
        account = v.account;
      }

  consumes-IsSystem :
      (s : System A) (o : Option A)
      → IsSystem s
      → s.consumer ≡ taken o
      → IsSystem (record s {
        ring = consume s.ring;
        consumer = watching;
        received = s.received ++ (o ∷ []);
      })
  unfolding consume
  consumes-IsSystem s o v e =
      let r : SpscRing A = s.ring in
      let mine : (o ≡ get_elem? r.storage (r.tail % r.capacity)) × (r.tail < r.cached_head) =
        subst (λ p. Seen r.storage r.capacity r.tail r.cached_head p) e v.consumes in
      let n : r.head - r.tail ≡ suc (r.head - (r.tail + 1)) =
        omega (arith, mine.1, v.ring.stale_head) in
      record {
        ring = record {
          full_storage = v.ring.full_storage;
          some_slot = v.ring.some_slot;
          stale_tail = omega (arith, v.ring.stale_tail);
          seen_head = omega (arith, mine.1);
          stale_head = v.ring.stale_head;
          bounded = omega (arith, v.ring.bounded);
        };
        produces = consume-Between r.storage r.capacity r.head r.tail s.producer v.produces;
        consumes = refl;
        account =
            append_assoc s.received (o ∷ [])
              (window r.storage r.capacity (r.tail + 1) (r.head - (r.tail + 1)))
            ∙ ap
                (λ x.
                  s.received
                  ++ (x ∷ window r.storage r.capacity (r.tail + 1) (r.head - (r.tail + 1))))
                mine.0
            ∙ ap (λ k. s.received ++ window r.storage r.capacity r.tail k) (sym n)
            ∙ v.account;
      }

  pub Produce-IsSystem : {s t : System A} → IsSystem s → Produce s t → IsSystem t
  Produce-IsSystem {s} v (claims e) = claims-IsSystem s v
  Produce-IsSystem {s} v (writes i a e) = writes-IsSystem s i a v e
  Produce-IsSystem {s} v (publishes a e) = publishes-IsSystem s a v e

  pub Consume-IsSystem : {s t : System A} → IsSystem s → Consume s t → IsSystem t
  Consume-IsSystem {s} v (peeks e) = peeks-IsSystem s v
  Consume-IsSystem {s} v (reads i e) = reads-IsSystem s i v e
  Consume-IsSystem {s} v (consumes o e) = consumes-IsSystem s o v e

  pub Reach-IsSystem : (c : ℕ) (d : A) (s : System A) → 0 < c → Reach c d s → IsSystem s
  Reach-IsSystem c d s pos begin = start-IsSystem c d pos
  Reach-IsSystem c d s pos (producer p st) = Produce-IsSystem (Reach-IsSystem c d _ pos p) st
  Reach-IsSystem c d s pos (consumer p st) = Consume-IsSystem (Reach-IsSystem c d _ pos p) st
