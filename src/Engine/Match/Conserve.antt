-- ===== src/Engine/Match/Conserve.antt =====
-- Where the quantities of the inner match loop go: into trades, victims and what still rests.
use mathlib.Core.Option
use order_matching_engine.Base.{
  ℕ, ◌+◌, ◌≡◌, ◌≤◌, List, [], ◌∷◌, ◌++◌, Bool, arith, Option, none, some,
}
use order_matching_engine.Engine.Order.{
  Order, NewOrder, StpPolicy, Buffer, Trade, StpVictim, StpVictimBuffer, push,
}
use order_matching_engine.Engine.PriceLevel.{
  PriceLevel, unlink, reduce_quantity, remove, remove-head,
}
use order_matching_engine.Engine.Match.{
  Run, QueueResult, halt, with_queue, fill, traded, drop_victim, drop_filled, emit, victim_of,
  trade_of, match_queue,
}
use order_matching_engine.Engine.Match.Rule.{QueueCases, match_queue_rule}
use order_matching_engine.Engine.PriceLevel.Counted.{sum_remaining}

abbrev pub sum_traded : List Trade → ℕ
sum_traded [] = 0
sum_traded (t ∷ ts) = t.quantity + sum_traded ts

abbrev pub sum_victims : List StpVictim → ℕ
sum_victims [] = 0
sum_victims (v ∷ vs) = v.remaining + sum_victims vs

pub sum_traded-snoc :
    (ts : List Trade) (t : Trade) → sum_traded (ts ++ (t ∷ [])) ≡ sum_traded ts + t.quantity
sum_traded-snoc [] t = omega arith
sum_traded-snoc (x ∷ ts) t = omega (arith, sum_traded-snoc ts t)

pub sum_victims-snoc :
    (vs : List StpVictim) (v : StpVictim)
    → sum_victims (vs ++ (v ∷ [])) ≡ sum_victims vs + v.remaining
sum_victims-snoc [] v = omega arith
sum_victims-snoc (x ∷ vs) v = omega (arith, sum_victims-snoc vs v)

-- No push was lost.
abbrev pub Kept : {A : Type 0} → Buffer A → Type 0
Kept b = b.count ≤ b.capacity

abbrev pub KeptVictims : Option StpVictimBuffer → Type 0
KeptVictims none = ⊥
KeptVictims (some b) = Kept b

abbrev pub victim_quantity : Option StpVictimBuffer → ℕ
victim_quantity none = 0
victim_quantity (some b) = sum_victims b.slots

-- One step of the loop, as it passes quantities on.
pub drop_victim-quantity :
    (r : Run) (o : Order)
    → KeptVictims (drop_victim r o).victims
    → KeptVictims r.victims
      × (victim_quantity (drop_victim r o).victims ≡ victim_quantity r.victims + o.remaining)
unfolding drop_victim push victim_of
drop_victim-quantity r o k = go r.victims k
  where
    go :
        (v : Option StpVictimBuffer)
        → KeptVictims (Option.map (λ b. push b (victim_of o)) v)
        → KeptVictims v
          × (victim_quantity (Option.map (λ b. push b (victim_of o)) v)
              ≡ victim_quantity v + o.remaining)
    go none k = absurd k
    go (some b) k = ground (arith, sum_victims-snoc b.slots (victim_of o))

pub emit-quantity :
    (inc : NewOrder) (o : Order) (qty : ℕ) (r : Run)
    → Kept (emit inc o qty r).trades
    → Kept r.trades × (sum_traded (emit inc o qty r).trades.slots ≡ sum_traded r.trades.slots + qty)
unfolding emit push trade_of
emit-quantity inc o qty r k =
    ground (arith, sum_traded-snoc r.trades.slots (trade_of inc o qty r.next_trade_id))

module _ (stp : StpPolicy) (inc : NewOrder) where
  Trades : List Order → PriceLevel → Bool → Run → QueueResult → Type 0
  Trades os l e r q =
      Kept q.run.trades
      → Kept r.trades
        × (q.run.remaining ≤ r.remaining)
        × (sum_traded q.run.trades.slots + q.run.remaining
            ≡ sum_traded r.trades.slots + r.remaining)

  Trades-cases : QueueCases stp inc Trades
  unfolding Trades halt drop_victim drop_filled
  Trades-cases = record {
    nil = λ l e r h. omega arith;
    done = λ o os l e r z h. omega arith;
    aggressor = λ o os l e r p own a h. omega arith;
    both = λ o os l e r p own b h. omega arith;
    passive = λ o os l e r q p own b ih h. ih h;
    filled = λ o os l e r q p own b ih h.
        unfold emit in omega (arith, ih h, emit-quantity inc o o.remaining r (ih h).0);
    partial =
        λ o os l e r p own b h. unfold emit in omega (arith, emit-quantity inc o r.remaining r h);
  }

  -- What the loop takes from the aggressor stands in the trades.
  pub match_queue-trades :
      (os : List Order) (l : PriceLevel) (e : Bool) (r : Run)
      → let q = match_queue stp inc os l e r in
        Kept q.run.trades
        → Kept r.trades
          × (q.run.remaining ≤ r.remaining)
          × (sum_traded q.run.trades.slots + q.run.remaining
              ≡ sum_traded r.trades.slots + r.remaining)
  unfolding Trades
  match_queue-trades = match_queue_rule stp inc Trades-cases

  Flow : List Order → PriceLevel → Bool → Run → QueueResult → Type 0
  Flow os l e r q =
      KeptVictims q.run.victims
      → KeptVictims r.victims
        × (q.run.remaining ≤ r.remaining)
        × (sum_remaining os + victim_quantity r.victims + q.run.remaining
            ≡ sum_remaining q.level.queue + victim_quantity q.run.victims + r.remaining)

  Flow-cases : QueueCases stp inc Flow
  unfolding Flow halt with_queue unlink remove traded reduce_quantity fill
  Flow-cases = record {
    nil = λ l e r h. (h, omega arith, omega arith);
    done = λ o os l e r z h. (h, omega arith, omega arith);
    aggressor = λ o os l e r p own a h. (h, omega arith, omega arith);
    both = λ o os l e r p own b h.
        let v = drop_victim-quantity r o h in
        (
          v.0,
          unfold drop_victim in omega arith,
          unfold drop_victim in rw (remove-head o os) (omega (arith, v)),
        );
    passive = λ o os l e r q p own b ih h.
        let rest = ih h in
        let v = drop_victim-quantity r o rest.0 in
        (
          v.0,
          unfold drop_victim in omega (arith, rest),
          unfold drop_victim in omega (arith, rest, v),
        );
    filled = λ o os l e r q p own b ih h.
        let rest = ih h in
        unfold emit drop_filled in (rest.0, omega (arith, rest), omega (arith, rest));
    partial = λ o os l e r p own b h. unfold emit in (h, omega arith, omega arith);
  }

  -- What leaves the queue has been traded or is a victim.
  pub match_queue-flow :
      (os : List Order) (l : PriceLevel) (e : Bool) (r : Run)
      → let q = match_queue stp inc os l e r in
        KeptVictims q.run.victims
        → KeptVictims r.victims
          × (q.run.remaining ≤ r.remaining)
          × (sum_remaining os + victim_quantity r.victims + q.run.remaining
              ≡ sum_remaining q.level.queue + victim_quantity q.run.victims + r.remaining)
  unfolding Flow
  match_queue-flow = match_queue_rule stp inc Flow-cases
