-- ===== src/Engine/Match/Level.antt =====
-- What the inner match loop keeps of a level: its aggregates are those of its queue, and no order
-- in it is empty.
use order_matching_engine.Base.{◌≡◌, refl, List, Bool, arith}
use order_matching_engine.Common.Types.{Price, Side}
use order_matching_engine.Engine.Order.{Order, NewOrder, StpPolicy}
use order_matching_engine.Engine.PriceLevel.{PriceLevel, unlink, reduce_quantity, remove}
use order_matching_engine.Engine.PriceLevel.Counted.{AllAt, IsCounted}
use order_matching_engine.Engine.Match.{
  Run, QueueResult, halt, with_queue, fill, traded, match_queue,
}
use order_matching_engine.Engine.Match.Rule.{QueueCases, match_queue_rule}

module _ (stp : StpPolicy) (inc : NewOrder) where
  Q : List Order → PriceLevel → Bool → Run → QueueResult → Type 0
  Q os l e r q = IsCounted (with_queue l os) → IsCounted q.level

  cases : QueueCases stp inc Q
  unfolding Q halt with_queue traded unlink fill reduce_quantity remove
  cases = record {
    nil = λ l e r h. h;
    done = λ o os l e r z h. h;
    aggressor = λ o os l e r p own a h. h;
    both = λ o os l e r p own b h. ground arith;
    passive = λ o os l e r q p own b ih h. ih (ground arith);
    filled = λ o os l e r q p own b ih h. ih (ground arith);
    partial = λ o os l e r p own b h. ground arith;
  }

  pub match_queue-IsCounted :
      (os : List Order) (l : PriceLevel) (e : Bool) (r : Run)
      → IsCounted (with_queue l os)
      → IsCounted (match_queue stp inc os l e r).level
  unfolding Q
  match_queue-IsCounted os l e r h = match_queue_rule stp inc cases os l e r h

module _ (stp : StpPolicy) (inc : NewOrder) (s : Side) (p : Price) where
  At : List Order → PriceLevel → Bool → Run → QueueResult → Type 0
  At os l e r q = AllAt s p os → AllAt s p q.level.queue

  At-cases : QueueCases stp inc At
  unfolding At halt with_queue traded reduce_quantity fill unlink remove
  At-cases = record {
    nil = λ l e r h. h;
    done = λ o os l e r z h. h;
    aggressor = λ o os l e r x own a h. h;
    both = λ o os l e r x own b h. ground arith;
    passive = λ o os l e r q x own b ih h. ih h.1;
    filled = λ o os l e r q x own b ih h. ih h.1;
    partial = λ o os l e r x own b h. h;
  }

  pub match_queue-AllAt :
      (os : List Order) (l : PriceLevel) (e : Bool) (r : Run)
      → AllAt s p os
      → AllAt s p (match_queue stp inc os l e r).level.queue
  unfolding At
  match_queue-AllAt = match_queue_rule stp inc At-cases

module _ (stp : StpPolicy) (inc : NewOrder) where
  Named : List Order → PriceLevel → Bool → Run → QueueResult → Type 0
  Named os l e r q = q.level.price ≡ l.price

  Named-cases : QueueCases stp inc Named
  unfolding Named halt with_queue traded reduce_quantity unlink
  Named-cases = record {
    nil = λ l e r. refl;
    done = λ o os l e r z. refl;
    aggressor = λ o os l e r x own a. refl;
    both = λ o os l e r x own b. refl;
    passive = λ o os l e r q x own b ih. ih;
    filled = λ o os l e r q x own b ih. ih;
    partial = λ o os l e r x own b. refl;
  }

  pub price-match_queue :
      (os : List Order) (l : PriceLevel) (e : Bool) (r : Run)
      → (match_queue stp inc os l e r).level.price ≡ l.price
  unfolding Named
  price-match_queue = match_queue_rule stp inc Named-cases
