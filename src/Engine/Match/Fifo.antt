-- ===== src/Engine/Match/Fifo.antt =====
-- Time priority: the inner match loop serves a level from the front of its queue, skips nobody, and
-- trades with no order of the aggressor's own participant.
use order_matching_engine.Base.{
  ℕ, ◌+◌, ◌≡◌, refl, sym, ap, ◌∙◌, ◌≢◌, ◌<◌, List, [], ◌∷◌, ◌++◌, Bool, arith, append_assoc,
  append-nil, length,
}
use order_matching_engine.Engine.Order.{Order, NewOrder, StpPolicy, Buffer, Trade, push}
use order_matching_engine.Engine.PriceLevel.{PriceLevel, unlink, reduce_quantity, remove-head}
use order_matching_engine.Engine.Match.{
  Run, QueueResult, halt, with_queue, fill, traded, drop_victim, drop_filled, emit, trade_of,
  match_queue,
}
use order_matching_engine.Engine.Match.Rule.{QueueCases, match_queue_rule}
use order_matching_engine.Engine.Match.Conserve.{Kept}

-- `Served inc n before behind ts`: from the queue `before` the order `inc` leaves `behind`, by the
-- trades `ts`, which are numbered from `n`.
pub data Served (inc : NewOrder) : ℕ → List Order → List Order → List Trade → Type 0 where
  untouched :
      {n : ℕ} {os qs : List Order} {ts : List Trade} → qs ≡ os → ts ≡ [] → Served inc n os qs ts
  own_removed :
      {n : ℕ} {o : Order} {os qs : List Order} {ts : List Trade}
      → o.participant ≡ inc.participant
      → Served inc n os qs ts
      → Served inc n (o ∷ os) qs ts
  whole :
      {n : ℕ} {o : Order} {os qs : List Order} {ts us : List Trade}
      → o.participant ≢ inc.participant
      → us ≡ trade_of inc o o.remaining n ∷ ts
      → Served inc (n + 1) os qs ts
      → Served inc n (o ∷ os) qs us
  part :
      {n : ℕ} {o : Order} {os qs : List Order} {ts : List Trade} (qty : ℕ)
      → o.participant ≢ inc.participant
      → 0 < qty
      → qty < o.remaining
      → qs ≡ fill o qty ∷ os
      → ts ≡ trade_of inc o qty n ∷ []
      → Served inc n (o ∷ os) qs ts

pub push-Kept :
    {A : Type 0} (b : Buffer A) (x : A)
    → Kept (push b x)
    → Kept b × ((push b x).slots ≡ b.slots ++ (x ∷ []))
unfolding push
push-Kept b x k = ground arith

-- What the trades of a run have grown by.
pub record Grown (inc : NewOrder) (r r' : Run) (os qs : List Order) : Type 0 where
  pub before : Kept r.trades
  pub new : List Trade
  pub slots : r'.trades.slots ≡ r.trades.slots ++ new
  pub next : r'.next_trade_id ≡ r.next_trade_id + length new
  pub served : Served inc r.next_trade_id os qs new

module _ (stp : StpPolicy) (inc : NewOrder) where
  Q : List Order → PriceLevel → Bool → Run → QueueResult → Type 0
  Q os l e r q = Kept q.run.trades → Grown inc r q.run os q.level.queue

  same : (r : Run) (os qs : List Order) → qs ≡ os → Kept r.trades → Grown inc r r os qs
  same r os qs e k = record {
    before = k;
    new = [];
    slots = sym (append-nil r.trades.slots);
    next = omega arith;
    served = untouched e refl;
  }

  after_victim :
      (o : Order) (os qs : List Order) (r r' : Run)
      → o.participant ≡ inc.participant
      → Grown inc (drop_victim r o) r' os qs
      → Grown inc r r' (o ∷ os) qs
  unfolding drop_victim
  after_victim o os qs r r' own g = record {
    before = g.before;
    new = g.new;
    slots = g.slots;
    next = g.next;
    served = own_removed own g.served;
  }

  after_trade :
      (o : Order) (os qs : List Order) (r r' : Run)
      → o.participant ≢ inc.participant
      → Grown inc (drop_filled (emit inc o o.remaining r) o) r' os qs
      → Grown inc r r' (o ∷ os) qs
  unfolding drop_filled emit
  after_trade o os qs r r' other g =
      let t = trade_of inc o o.remaining r.next_trade_id in
      let k = push-Kept r.trades t g.before in
      record {
        before = k.0;
        new = t ∷ g.new;
        slots = g.slots ∙ (ap (λ s. s ++ g.new) k.1 ∙ append_assoc r.trades.slots (t ∷ []) g.new);
        next = omega (arith, g.next);
        served = whole other refl g.served;
      }

  part_trade :
      (o : Order) (os : List Order) (r : Run)
      → o.participant ≢ inc.participant
      → 0 < r.remaining
      → r.remaining < o.remaining
      → Kept (emit inc o r.remaining r).trades
      → Grown inc r (emit inc o r.remaining r) (o ∷ os) (fill o r.remaining ∷ os)
  unfolding emit
  part_trade o os r other p less k =
      let t = trade_of inc o r.remaining r.next_trade_id in
      let b = push-Kept r.trades t k in
      record {
        before = b.0;
        new = t ∷ [];
        slots = b.1;
        next = omega arith;
        served = part r.remaining other p less refl refl;
      }

  cases : QueueCases stp inc Q
  unfolding Q halt with_queue traded reduce_quantity unlink
  cases = record {
    nil = λ l e r k. same r [] [] refl k;
    done = λ o os l e r z k. same r (o ∷ os) (o ∷ os) refl k;
    aggressor = λ o os l e r p own a k. same r (o ∷ os) (o ∷ os) refl k;
    both = λ o os l e r p own b k.
        after_victim o os _ r _ own (same (drop_victim r o) os _ (remove-head o os) k);
    passive = λ o os l e r q p own b ih k. after_victim o os _ r _ own (ih k);
    filled = λ o os l e r q p other b ih k. after_trade o os _ r _ other (ih k);
    partial = λ o os l e r p other b k. part_trade o os r other p b k;
  }

  -- Time priority, where the trade buffer keeps all that is pushed: the inner loop serves a level
  -- from the front of its queue, skips no order but those of the aggressor's own participant that
  -- it removes, fills each wholly before the next, leaves a partly filled order at the front, and
  -- numbers the trades in sequence.
  pub match_queue-Grown :
      (os : List Order) (l : PriceLevel) (e : Bool) (r : Run)
      → let q = match_queue stp inc os l e r in
        Kept q.run.trades → Grown inc r q.run os q.level.queue
  unfolding Q
  match_queue-Grown = match_queue_rule stp inc cases
