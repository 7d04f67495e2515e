-- ===== src/Ipc/SpscRing.antt =====
-- ipc/spsc_ring.hpp: a ring between one producer and one consumer. A slot is known by its index. The
-- capacity is a power of two, so that `& (Capacity - 1)` is the remainder by it. The cursors only grow;
-- that one of them passes 2 ^ 64 is left out.
pub mod Window
pub mod Refine
pub mod Runs
pub mod Threads
use order_matching_engine.Base.{
  ℕ, ◌+◌, ◌-◌, ◌%◌, List, Bool, true, false, Option, none, some, leb, ◌==◌, if◌then◌else◌,
  elim_option, get_elem?, set, replicate,
}

pub record SpscRing (A : Type 0) : Type 0 where
  pub storage : List A
  pub capacity : ℕ
  pub head : ℕ
  pub tail : ℕ
  pub cached_tail : ℕ
  pub cached_head : ℕ

module _ {A : Type 0} where
  -- Every slot is touched: it holds a default value.
  unfoldable pub empty_ring : ℕ → A → SpscRing A
  empty_ring capacity d = record {
    storage = replicate capacity d;
    capacity = capacity;
    head = 0;
    tail = 0;
    cached_tail = 0;
    cached_head = 0;
  }

  -- `none`: the ring is full. The consumer's cursor is read again only where the cached one says so.
  unfoldable pub try_claim : SpscRing A → Option ℕ × SpscRing A
  try_claim r =
      if leb r.capacity (r.head - r.cached_tail)
      then (
        if leb r.capacity (r.head - r.tail) then none else some (r.head % r.capacity),
        record r { cached_tail = r.tail },
      )
      else (some (r.head % r.capacity), r)

  -- `*slot = v`.
  unfoldable pub write_slot : SpscRing A → ℕ → A → SpscRing A
  write_slot r i v = record r { storage = set r.storage i v }

  unfoldable pub publish : SpscRing A → SpscRing A
  publish r = record r { head = r.head + 1 }

  unfoldable pub push : SpscRing A → A → SpscRing A × Bool
  push r v =
      let claim = try_claim r in
      elim_option claim.0 (claim.1, false) (λ i. (publish (write_slot claim.1 i v), true))

  -- `none`: the ring is empty.
  unfoldable pub try_peek : SpscRing A → Option ℕ × SpscRing A
  try_peek r =
      if r.tail == r.cached_head
      then (
        if r.tail == r.head then none else some (r.tail % r.capacity),
        record r { cached_head = r.head },
      )
      else (some (r.tail % r.capacity), r)

  -- A read through the slot.
  unfoldable pub read_slot : SpscRing A → ℕ → Option A
  read_slot r i = get_elem? r.storage i

  unfoldable pub consume : SpscRing A → SpscRing A
  consume r = record r { tail = r.tail + 1 }

  unfoldable pub pop : SpscRing A → SpscRing A × Option A
  pop r =
      let peek = try_peek r in
      elim_option peek.0 (peek.1, none) (λ i. (consume peek.1, read_slot peek.1 i))
