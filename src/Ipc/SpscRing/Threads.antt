-- ===== src/Ipc/SpscRing/Threads.antt =====
-- The two threads of a ring, interleaved: a step is one access to shared memory and what its thread
-- does on its own with the answer.
pub mod Order
pub mod Steps
pub mod Delivery
use order_matching_engine.Base.{ℕ, ◌≡◌, List, [], ◌∷◌, ◌++◌, Option, elim_option}
use order_matching_engine.Ipc.SpscRing.{
  SpscRing, empty_ring, try_claim, write_slot, publish, try_peek, read_slot, consume,
}

-- Where the producer is in `push`.
pub data Producer (A : Type 0) : Type 0 where
  idle : Producer A
  claimed : ℕ → Producer A
  filled : A → Producer A

-- Where the consumer is in `pop`.
pub data Consumer (A : Type 0) : Type 0 where
  watching : Consumer A
  peeked : ℕ → Consumer A
  taken : Option A → Consumer A

-- `sent` and `received` are the values of the calls that have returned.
pub record System (A : Type 0) : Type 0 where
  pub ring : SpscRing A
  pub producer : Producer A
  pub consumer : Consumer A
  pub sent : List A
  pub received : List (Option A)

module _ {A : Type 0} where
  abbrev pub start : ℕ → A → System A
  start capacity d = record {
    ring = empty_ring capacity d;
    producer = Producer.idle;
    consumer = Consumer.watching;
    sent = [];
    received = [];
  }

  pub data Produce (s : System A) : System A → Type 0 where
    claims :
        s.producer ≡ Producer.idle
        → Produce s (record s {
          ring = (try_claim s.ring).1;
          producer = elim_option (try_claim s.ring).0 Producer.idle Producer.claimed;
        })
    writes :
        (i : ℕ) (v : A)
        → s.producer ≡ Producer.claimed i
        → Produce s (record s { ring = write_slot s.ring i v; producer = Producer.filled v })
    publishes :
        (v : A)
        → s.producer ≡ Producer.filled v
        → Produce s (record s {
          ring = publish s.ring;
          producer = Producer.idle;
          sent = s.sent ++ (v ∷ []);
        })

  pub data Consume (s : System A) : System A → Type 0 where
    peeks :
        s.consumer ≡ Consumer.watching
        → Consume s (record s {
          ring = (try_peek s.ring).1;
          consumer = elim_option (try_peek s.ring).0 Consumer.watching Consumer.peeked;
        })
    reads :
        (i : ℕ)
        → s.consumer ≡ Consumer.peeked i
        → Consume s (record s { consumer = Consumer.taken (read_slot s.ring i) })
    consumes :
        (o : Option A)
        → s.consumer ≡ Consumer.taken o
        → Consume s (record s {
          ring = consume s.ring;
          consumer = Consumer.watching;
          received = s.received ++ (o ∷ []);
        })

  -- The states that the two threads can come to.
  pub data Reach (capacity : ℕ) (d : A) : System A → Type 0 where
    begin : Reach capacity d (start capacity d)
    producer : {s t : System A} → Reach capacity d s → Produce s t → Reach capacity d t
    consumer : {s t : System A} → Reach capacity d s → Consume s t → Reach capacity d t
