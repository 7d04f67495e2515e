-- ===== src/Engine/Match/Buffers.antt =====
-- The buffers of a run take part in nothing: two runs that differ in them alone go the same way.
use order_matching_engine.Base.{
  ℕ, zero, suc, min, ◌≡◌, refl, sym, ap, ◌∙◌, List, [], ◌∷◌, Bool, false, ◌&&◌, none, ltb, ◌==◌,
  Bool-cases, Option-cases, inl, inr,
}
use order_matching_engine.Common.Types.{Price}
use order_matching_engine.Engine.Order.{
  Order, NewOrder, StpPolicy, cancel_aggressor, cancel_passive, cancel_both,
}
use order_matching_engine.Engine.PriceLevel.{PriceLevel, unlink, is_empty}
use order_matching_engine.Book.LevelMap.{LevelMap, has_best, level_at, put_level}
use order_matching_engine.Engine.Match.{
  Run, MatchOutcome, exhausted, no_longer_crosses, stp_fired, crosses, drop_victim, emit,
  drop_filled, QueueResult, halt, with_queue, fill, traded, match_queue, MatchResult, Visit, stop,
  again, tell_emptied, leave_level, visit, match_into,
}

-- What is left of a run, and of what is made of it, without the buffers.
abbrev pub bare_run : Run → Run
bare_run r = record r { trades = record { slots = []; capacity = 0; count = 0 }; victims = none }

abbrev pub bare_queue : QueueResult → QueueResult
bare_queue q = record q { run = bare_run q.run }

abbrev pub bare_result : MatchResult → MatchResult
bare_result out = record out { run = bare_run out.run }

abbrev pub bare_visit : Visit → Visit
bare_visit (stop out) = stop (bare_result out)
bare_visit (again m r) = again m (bare_run r)

policy :
    (s : StpPolicy) (a a' b b' c c' : QueueResult)
    → bare_queue a ≡ bare_queue a'
    → bare_queue b ≡ bare_queue b'
    → bare_queue c ≡ bare_queue c'
    → bare_queue (elim s as (λ _. QueueResult) [
      | cancel_aggressor ↦ a
      | cancel_passive ↦ b
      | cancel_both ↦ c
    ])
      ≡ bare_queue (elim s as (λ _. QueueResult) [
        | cancel_aggressor ↦ a'
        | cancel_passive ↦ b'
        | cancel_both ↦ c'
      ])
policy cancel_aggressor a a' b b' c c' p q r = p
policy cancel_passive a a' b b' c c' p q r = q
policy cancel_both a a' b b' c c' p q r = r

match_queue_bare :
    (stp : StpPolicy) (inc : NewOrder) (os : List Order) (l : PriceLevel) (e : Bool) (r : Run)
    → bare_queue (match_queue stp inc os l e r)
      ≡ bare_queue (match_queue stp inc os l e (bare_run r))
unfolding match_queue halt drop_victim emit drop_filled
match_queue_bare stp inc [] l e r = refl
match_queue_bare stp inc (o ∷ os) l e r =
    let left : PriceLevel = unlink (with_queue l (o ∷ os)) o in
    let qty : ℕ = min r.remaining o.remaining in
    let l' : PriceLevel = unlink (traded l o os qty) (fill o qty) in
    let victim =
      match_queue_bare stp inc os left (is_empty left) (drop_victim r o)
      ∙ sym (match_queue_bare stp inc os left (is_empty left) (drop_victim (bare_run r) o)) in
    let filled =
      match_queue_bare stp inc os l' e (drop_filled (emit inc o qty r) o)
      ∙ sym (match_queue_bare stp inc os l' e (drop_filled (emit inc o qty (bare_run r)) o)) in
    elim (Bool-cases (r.remaining == 0)) [
      | inl a ↦ rw a refl
      | inr a ↦ elim (Bool-cases (o.participant == inc.participant)) [
        | inl b ↦ rw (a, b) (policy stp _ _ _ _ _ _ refl victim refl)
        | inr b ↦ elim (Bool-cases ((fill o qty).remaining == 0)) [
          | inl c ↦ rw (a, b, c) filled
          | inr c ↦ rw (a, b, c) refl
        ]
      ]
    ]

leave_level_bare :
    (m : LevelMap) (p : Price) (q : QueueResult)
    → bare_visit (leave_level m p q) ≡ bare_visit (leave_level m p (bare_queue q))
unfolding leave_level
leave_level_bare m p q = go q.outcome
  where
    go :
        (o : MatchOutcome)
        → (let told = tell_emptied q.emptied (put_level m p q.level) p in
            bare_visit (elim o as (λ _. Visit) [
              | stp_fired ↦ stop (record { outcome = stp_fired; side = told; run = q.run })
              | exhausted ↦ again (tell_emptied (is_empty q.level) told p) q.run
              | no_longer_crosses ↦ again (tell_emptied (is_empty q.level) told p) q.run
            ])
            ≡ bare_visit (elim o as (λ _. Visit) [
              | stp_fired ↦ stop (record { outcome = stp_fired; side = told; run = bare_run q.run })
              | exhausted ↦ again (tell_emptied (is_empty q.level) told p) (bare_run q.run)
              | no_longer_crosses ↦ again (tell_emptied (is_empty q.level) told p) (bare_run q.run)
            ]))
    go stp_fired = refl
    go exhausted = refl
    go no_longer_crosses = refl

visit_bare :
    (stp : StpPolicy) (inc : NewOrder) (m : LevelMap) (r : Run)
    → bare_visit (visit stp inc m r) ≡ bare_visit (visit stp inc m (bare_run r))
unfolding visit
visit_bare stp inc m r = elim (Bool-cases (ltb 0 r.remaining && has_best m)) [
  | inr a ↦ rw a refl
  | inl a ↦ elim (Bool-cases (crosses inc.kind inc.side inc.price m.best)) [
    | inr b ↦ rw (a, b) refl
    | inl b ↦ elim (Option-cases (level_at m m.best)) [
      | inl c ↦ rw (a, b, c) refl
      | inr (l, c) ↦
          rw (a, b, c)
            (leave_level_bare m m.best (match_queue stp inc l.queue l false r)
              ∙ ap (λ q. bare_visit (leave_level m m.best q))
                  (match_queue_bare stp inc l.queue l false r)
              ∙ sym (leave_level_bare m m.best (match_queue stp inc l.queue l false (bare_run r))))
    ]
  ]
]

pub match_into_bare :
    (n : ℕ) (stp : StpPolicy) (inc : NewOrder) (m : LevelMap) (r : Run)
    → bare_result (match_into n stp inc m r) ≡ bare_result (match_into n stp inc m (bare_run r))
unfolding match_into
match_into_bare zero stp inc m r = refl
match_into_bare (suc n) stp inc m r =
    next (λ m' r'. match_into_bare n stp inc m' r') (visit stp inc m r)
    ∙ ap
        (λ v. bare_result (elim v as (λ _. MatchResult) [
          | stop out ↦ out
          | again m' r' ↦ match_into n stp inc m' r'
        ]))
        (visit_bare stp inc m r)
    ∙ sym (next (λ m' r'. match_into_bare n stp inc m' r') (visit stp inc m (bare_run r)))
  where
    next :
        ((m' : LevelMap) (r' : Run)
          → bare_result (match_into n stp inc m' r')
            ≡ bare_result (match_into n stp inc m' (bare_run r')))
        → (v : Visit)
        → bare_result (elim v as (λ _. MatchResult) [
          | stop out ↦ out
          | again m' r' ↦ match_into n stp inc m' r'
        ])
          ≡ bare_result (elim (bare_visit v) as (λ _. MatchResult) [
            | stop out ↦ out
            | again m' r' ↦ match_into n stp inc m' r'
          ])
    next same (stop out) = refl
    next same (again m' r') = same m' r'
