-- ===== src/Engine/Match/Account.antt =====
-- The id map and the pool under the inner match loop, and what it says of an emptied level.
use order_matching_engine.Base.{
  ℕ, ◌+◌, ◌≡◌, refl, ◌≤◌, ◌⊎◌, inl, inr, List, [], ◌∷◌, Bool, true, arith, length, ◌==◌,
  if◌then◌else◌,
}
use order_matching_engine.Engine.Order.{Order, NewOrder, StpPolicy}
use order_matching_engine.Engine.PriceLevel.{
  PriceLevel, unlink, reduce_quantity, is_empty, remove-head,
}
use order_matching_engine.Book.IdSet.{erase, count, count-erase}
use order_matching_engine.Engine.Match.{
  Run, QueueResult, stp_fired, exhausted, halt, with_queue, fill, traded, drop_victim, drop_filled,
  emit, match_queue,
}
use order_matching_engine.Engine.Match.Rule.{QueueCases, match_queue_rule}

-- How often an id stands in a queue.
abbrev pub occurs : ℕ → List Order → ℕ
occurs k [] = 0
occurs k (o ∷ os) = (if o.id == k then 1 else 0) + occurs k os

module _ (stp : StpPolicy) (inc : NewOrder) (k : ℕ) where
  Ids : List Order → PriceLevel → Bool → Run → QueueResult → Type 0
  Ids os l e r q =
      ((j : ℕ) → occurs j os ≤ count j r.ids)
      → count k r.ids + occurs k q.level.queue ≡ count k q.run.ids + occurs k os

  left_covered :
      (o : Order) (os : List Order) (ids : List ℕ)
      → ((j : ℕ) → occurs j (o ∷ os) ≤ count j ids)
      → (j : ℕ) → occurs j os ≤ count j (erase o.id ids)
  left_covered o os ids h j = ground (arith, h j, h o.id, count-erase o.id j ids)

  erased_head :
      (o : Order) (os : List Order) (ids : List ℕ)
      → ((j : ℕ) → occurs j (o ∷ os) ≤ count j ids)
      → count k ids ≡ count k (erase o.id ids) + (if o.id == k then 1 else 0)
  erased_head o os ids h = ground (arith, h o.id, count-erase o.id k ids)

  Ids-cases : QueueCases stp inc Ids
  unfolding Ids halt with_queue traded reduce_quantity unlink fill drop_victim drop_filled emit
  Ids-cases = record {
    nil = λ l e r h. refl;
    done = λ o os l e r z h. refl;
    aggressor = λ o os l e r p own a h. refl;
    both = λ o os l e r p own b h. rw (remove-head o os) (omega (arith, erased_head o os r.ids h));
    passive = λ o os l e r q p own b ih h.
        omega (arith, ih (left_covered o os r.ids h), erased_head o os r.ids h);
    filled = λ o os l e r q p own b ih h.
        omega (arith, ih (left_covered o os r.ids h), erased_head o os r.ids h);
    partial = λ o os l e r p own b h. refl;
  }

  -- The id map loses just the orders that leave the queue.
  pub match_queue-ids :
      (os : List Order) (l : PriceLevel) (e : Bool) (r : Run)
      → ((j : ℕ) → occurs j os ≤ count j r.ids)
      → let q = match_queue stp inc os l e r in
        count k r.ids + occurs k q.level.queue ≡ count k q.run.ids + occurs k os
  unfolding Ids
  match_queue-ids = match_queue_rule stp inc Ids-cases

module _ (stp : StpPolicy) (inc : NewOrder) where
  Pool : List Order → PriceLevel → Bool → Run → QueueResult → Type 0
  Pool os l e r q =
      length os ≤ r.in_use → r.in_use + length q.level.queue ≡ q.run.in_use + length os

  Pool-cases : QueueCases stp inc Pool
  unfolding Pool halt with_queue traded reduce_quantity unlink drop_victim drop_filled emit
  Pool-cases = record {
    nil = λ l e r h. omega arith;
    done = λ o os l e r z h. omega arith;
    aggressor = λ o os l e r p own a h. omega arith;
    both = λ o os l e r p own b h. rw (remove-head o os) (omega arith);
    passive = λ o os l e r q p own b ih h. omega (arith, ih (omega arith));
    filled = λ o os l e r q p own b ih h. omega (arith, ih (omega arith));
    partial = λ o os l e r p own b h. omega arith;
  }

  -- The pool gets back just the orders that leave the queue.
  pub match_queue-in_use :
      (os : List Order) (l : PriceLevel) (e : Bool) (r : Run)
      → length os ≤ r.in_use
      → let q = match_queue stp inc os l e r in
        r.in_use + length q.level.queue ≡ q.run.in_use + length os
  unfolding Pool
  match_queue-in_use = match_queue_rule stp inc Pool-cases

  Told : List Order → PriceLevel → Bool → Run → QueueResult → Type 0
  Told os l e r q =
      (e ≡ true → os ≡ [])
      → (q.emptied ≡ true → is_empty q.level ≡ true)
        × (q.outcome ≡ stp_fired → q.emptied ≡ is_empty q.level)

  Told-cases : QueueCases stp inc Told
  unfolding Told halt with_queue traded reduce_quantity unlink is_empty
  Told-cases = record {
    nil = λ l e r h. ground arith;
    done = λ o os l e r z h. ground arith;
    aggressor = λ o os l e r p own a h. ground arith;
    both = λ o os l e r p own b h. ground arith;
    passive = λ o os l e r q p own b ih h. ih (rw (remove-head o os) (λ x. ground arith));
    filled = λ o os l e r q p own b ih h. ih (λ x. ground (arith, h x));
    partial = λ o os l e r p own b h. ground arith;
  }

  -- The self-trade branch speaks of an emptied level exactly where the level is empty.
  pub match_queue-emptied :
      (os : List Order) (l : PriceLevel) (e : Bool) (r : Run)
      → (e ≡ true → os ≡ [])
      → let q = match_queue stp inc os l e r in
        (q.emptied ≡ true → is_empty q.level ≡ true)
        × (q.outcome ≡ stp_fired → q.emptied ≡ is_empty q.level)
  unfolding Told
  match_queue-emptied = match_queue_rule stp inc Told-cases

module _ (stp : StpPolicy) (inc : NewOrder) where
  Ends : List Order → PriceLevel → Bool → Run → QueueResult → Type 0
  Ends os l e r q =
      (q.outcome ≡ stp_fired)
      ⊎ ((q.outcome ≡ exhausted) × ((is_empty q.level ≡ true) ⊎ (q.run.remaining ≡ 0)))

  Ends-cases : QueueCases stp inc Ends
  unfolding Ends halt with_queue emit is_empty
  Ends-cases = record {
    nil = λ l e r. inr (refl, inl refl);
    done = λ o os l e r z. inr (refl, inr z);
    aggressor = λ o os l e r p own a. inl refl;
    both = λ o os l e r p own b. inl refl;
    passive = λ o os l e r q p own b ih. ih;
    filled = λ o os l e r q p own b ih. ih;
    partial = λ o os l e r p own b. inr (refl, inr (omega arith));
  }

  -- The inner loop ends by a self-trade, with the level empty, or with nothing left to trade.
  pub match_queue-ends :
      (os : List Order) (l : PriceLevel) (e : Bool) (r : Run)
      → let q = match_queue stp inc os l e r in
        (q.outcome ≡ stp_fired)
        ⊎ ((q.outcome ≡ exhausted) × ((is_empty q.level ≡ true) ⊎ (q.run.remaining ≡ 0)))
  unfolding Ends
  match_queue-ends = match_queue_rule stp inc Ends-cases

-- A measure of queues that an order more does not lower, and that does not see quantities.
pub record IsTally (f : List Order → ℕ) : Type 0 where
  pub grows : (o : Order) (os : List Order) → f os ≤ f (o ∷ os)
  pub blind : (o : Order) (n : ℕ) (os : List Order) → f (fill o n ∷ os) ≡ f (o ∷ os)

pub occurs-IsTally : (k : ℕ) → IsTally (occurs k)
unfolding fill
occurs-IsTally k = record { grows = λ o os. omega arith; blind = λ o n os. refl }

pub length-IsTally : IsTally length
length-IsTally = record { grows = λ o os. omega arith; blind = λ o n os. refl }

module _ (stp : StpPolicy) (inc : NewOrder) (f : List Order → ℕ) (t : IsTally f) where
  Tally : List Order → PriceLevel → Bool → Run → QueueResult → Type 0
  Tally os l e r q = f q.level.queue ≤ f os

  Tally-cases : QueueCases stp inc Tally
  unfolding Tally halt with_queue traded reduce_quantity unlink
  Tally-cases = record {
    nil = λ l e r. omega arith;
    done = λ o os l e r z. omega arith;
    aggressor = λ o os l e r p own a. omega arith;
    both = λ o os l e r p own b. rw (remove-head o os) (t.grows o os);
    passive = λ o os l e r q p own b ih. omega (arith, ih, t.grows o os);
    filled = λ o os l e r q p own b ih. omega (arith, ih, t.grows o os);
    partial = λ o os l e r p own b. omega (arith, t.blind o r.remaining os);
  }

  pub match_queue-le :
      (os : List Order) (l : PriceLevel) (e : Bool) (r : Run)
      → f (match_queue stp inc os l e r).level.queue ≤ f os
  unfolding Tally
  match_queue-le = match_queue_rule stp inc Tally-cases
