-- ===== src/Engine/Match/Rule.antt =====
-- The ways through the inner match loop: one rule by which a statement of the loop is proved for
-- each of its branches.
use order_matching_engine.Base.{
  ◌≡◌, refl, ◌≢◌, ◌<◌, ◌≤◌, min, List, [], ◌∷◌, Bool, true, false, arith, inl, inr, ◌⊎◌, dec_lt,
  Bool-cases, ◌==◌,
}
use order_matching_engine.Engine.Order.{
  Order, NewOrder, StpPolicy, cancel_aggressor, cancel_passive, cancel_both,
}
use order_matching_engine.Engine.PriceLevel.{PriceLevel, unlink, is_empty}
use order_matching_engine.Engine.Match.{
  Run, QueueResult, exhausted, stp_fired, halt, with_queue, fill, traded, drop_victim, drop_filled,
  emit, match_queue,
}

StpPolicy-cases :
    (s : StpPolicy) → (s ≡ cancel_aggressor) ⊎ ((s ≡ cancel_passive) ⊎ (s ≡ cancel_both))
StpPolicy-cases cancel_aggressor = inl refl
StpPolicy-cases cancel_passive = inr (inl refl)
StpPolicy-cases cancel_both = inr (inr refl)

abbrev pub QueueClaim : Type 1
QueueClaim = List Order → PriceLevel → Bool → Run → QueueResult → Type 0

module _ (stp : StpPolicy) (inc : NewOrder) where
  pub record QueueCases (Q : QueueClaim) : Type 0 where
    pub nil :
        (l : PriceLevel) (e : Bool) (r : Run) → Q [] l e r (halt exhausted (with_queue l []) e r)
    pub done :
        (o : Order) (os : List Order) (l : PriceLevel) (e : Bool) (r : Run)
        → r.remaining ≡ 0
        → Q (o ∷ os) l e r (halt exhausted (with_queue l (o ∷ os)) e r)
    pub aggressor :
        (o : Order) (os : List Order) (l : PriceLevel) (e : Bool) (r : Run)
        → 0 < r.remaining
        → o.participant ≡ inc.participant
        → stp ≡ cancel_aggressor
        → Q (o ∷ os) l e r (halt stp_fired (with_queue l (o ∷ os)) e r)
    pub both :
        (o : Order) (os : List Order) (l : PriceLevel) (e : Bool) (r : Run)
        → 0 < r.remaining
        → o.participant ≡ inc.participant
        → stp ≡ cancel_both
        → let left = unlink (with_queue l (o ∷ os)) o in
          Q (o ∷ os) l e r (halt stp_fired left (is_empty left) (drop_victim r o))
    pub passive :
        (o : Order) (os : List Order) (l : PriceLevel) (e : Bool) (r : Run) (q : QueueResult)
        → 0 < r.remaining
        → o.participant ≡ inc.participant
        → stp ≡ cancel_passive
        → (let left = unlink (with_queue l (o ∷ os)) o in
            Q os left (is_empty left) (drop_victim r o) q)
        → Q (o ∷ os) l e r q
    pub filled :
        (o : Order) (os : List Order) (l : PriceLevel) (e : Bool) (r : Run) (q : QueueResult)
        → 0 < r.remaining
        → o.participant ≢ inc.participant
        → o.remaining ≤ r.remaining
        → Q os
            (unlink (traded l o os o.remaining) (fill o o.remaining))
            e
            (drop_filled (emit inc o o.remaining r) o)
            q
        → Q (o ∷ os) l e r q
    pub partial :
        (o : Order) (os : List Order) (l : PriceLevel) (e : Bool) (r : Run)
        → 0 < r.remaining
        → o.participant ≢ inc.participant
        → r.remaining < o.remaining
        → Q (o ∷ os) l e r (halt exhausted (traded l o os r.remaining) e (emit inc o r.remaining r))

  pub match_queue_rule :
      {Q : QueueClaim}
      → QueueCases Q
      → (os : List Order) (l : PriceLevel) (e : Bool) (r : Run)
      → Q os l e r (match_queue stp inc os l e r)
  unfolding match_queue fill
  match_queue_rule c [] l e r = c.nil l e r
  match_queue_rule {Q} c (o ∷ os) l e r = elim (Bool-cases (r.remaining == 0)) [
    | inl t ↦ rw t (c.done o os l e r (ground arith))
    | inr t ↦ elim (Bool-cases (o.participant == inc.participant)) [
      | inl own ↦
          rw (t, own)
            (elim (StpPolicy-cases stp) [
              | inl a ↦ rw a (c.aggressor o os l e r (ground arith) (ground arith) a)
              | inr (inl p) ↦ rw p (
                  c.passive o os l e r _ (ground arith) (ground arith) p
                    (match_queue_rule c os _ _ _))
              | inr (inr b) ↦ rw b (c.both o os l e r (ground arith) (ground arith) b)
            ])
      | inr other ↦
          rw (t, other)
            (elim (dec_lt r.remaining o.remaining) [
              | yes less ↦
                  rw (smaller less, not_filled less)
                    (c.partial o os l e r (ground arith) (ground arith) less)
              | no more ↦
                  rw (greater more, all_filled)
                    (c.filled o os l e r _ (ground arith) (ground arith) (omega arith)
                      (match_queue_rule c os _ _ _))
            ])
    ]
  ]
    where
      smaller : r.remaining < o.remaining → min r.remaining o.remaining ≡ r.remaining
      smaller h = omega arith

      not_filled : r.remaining < o.remaining → ((fill o r.remaining).remaining == 0) ≡ false
      not_filled h = ground arith

      greater : ¬ (r.remaining < o.remaining) → min r.remaining o.remaining ≡ o.remaining
      greater h = omega arith

      all_filled : ((fill o o.remaining).remaining == 0) ≡ true
      all_filled = ground arith
