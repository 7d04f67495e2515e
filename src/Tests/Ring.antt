-- ===== src/Tests/Ring.antt =====
-- ipc/spsc_ring.hpp at small inputs.
use order_matching_engine.Base.{
  ℕ, ◌≤◌, ◌≡◌, ◌≢◌, refl, List, [], ◌∷◌, ◌++◌, map, true, false, some, none, length, arith,
}
use order_matching_engine.Ipc.SpscRing.{
  empty_ring, try_claim, write_slot, publish, push, try_peek, read_slot, consume, pop,
}
use order_matching_engine.Ipc.SpscRing.Refine.{contents}
use order_matching_engine.Ipc.SpscRing.Runs.{
  Call, pushes, pops, pushed, popped, run, run_queue, run-queue,
}
use order_matching_engine.Ipc.SpscRing.Threads.{
  System, Reach, begin, producer, consumer, claims, writes, publishes, peeks, claimed, peeked,
}
use order_matching_engine.Ipc.SpscRing.Threads.Delivery.{
  delivery, slots_apart-Reach, Drained, drain,
}

abbrev calls : List (Call ℕ)
calls = pushes 7 ∷ pushes 8 ∷ pushes 9 ∷ pops ∷ pushes 10 ∷ pops ∷ pops ∷ pops ∷ []

-- The third push finds no room, and after the last value a pop finds none.
run_test :
    run (empty_ring 2 0) calls
    ≡ pushed true
      ∷ pushed true
      ∷ pushed false
      ∷ popped (some 7)
      ∷ pushed true
      ∷ popped (some 8)
      ∷ popped (some 10)
      ∷ popped none
      ∷ []
unfolding run empty_ring push try_claim publish write_slot pop try_peek read_slot consume
run_test = refl

run-queue_example : run (empty_ring 2 0) calls ≡ run_queue 2 [] calls
run-queue_example = run-queue 2 0 calls (omega arith)

-- One value is sent, a second one has its slot, and the consumer is about to read the first.
abbrev busy : System ℕ
busy = record {
  ring = record {
    storage = 7 ∷ 0 ∷ [];
    capacity = 2;
    head = 1;
    tail = 0;
    cached_tail = 0;
    cached_head = 1;
  };
  producer = claimed 1;
  consumer = peeked 0;
  sent = 7 ∷ [];
  received = [];
}

busy-Reach : Reach 2 0 busy
unfolding empty_ring try_claim publish write_slot try_peek
busy-Reach =
    consumer
      (producer
        (producer (producer (producer begin (claims refl)) (writes 0 7 refl)) (publishes 7 refl))
        (claims refl))
      (peeks refl)

delivery_example :
    (busy.received ++ contents busy.ring ≡ map some busy.sent) × (length (contents busy.ring) ≤ 2)
delivery_example = delivery 2 0 busy (omega arith) busy-Reach

slots_apart-Reach_example : ◌≢◌ {A = ℕ} 1 0
slots_apart-Reach_example = slots_apart-Reach 2 0 busy 1 0 (omega arith) busy-Reach refl refl

drain_example : Drained busy
drain_example = drain 2 0 busy (omega arith) busy-Reach
