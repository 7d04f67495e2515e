-- ===== src/Engine/Match/Loop.antt =====
-- The outer match loop: on a valid side it ends by its own tests, and a statement of it is proved for
-- each way in which a round can go.
use order_matching_engine.Base.{
  ℕ, zero, suc, ◌+◌, ◌-◌, ◌≡◌, refl, subst, sym, ap, ◌∙◌, ◌<◌, ◌⊎◌, inl, inr, true, false, ◌&&◌,
  arith, some, length, length-set, get_elem?, if◌then◌else◌, elim_option, Bool-cases, ltb,
}
use order_matching_engine.Common.Types.{Price, Side, buy, sell, empty_sentinel}
use order_matching_engine.Base.Int.{eqb_ℤ, eqb_ℤ_iff}
use order_matching_engine.Engine.Order.{NewOrder, StpPolicy}
use order_matching_engine.Engine.PriceLevel.{PriceLevel, is_empty}
use order_matching_engine.Book.LevelMap.{
  LevelMap, index, put_level, on_level_emptied, has_best, level_at,
}
use order_matching_engine.Book.LevelMap.Slots.{IsGrid, price_of, price_of-ne_sentinel}
use order_matching_engine.Book.LevelMap.Scan.{occupied-lt}
use order_matching_engine.Book.LevelMap.Best.{
  IsBest, IsBestAt, IsBestAt-unique, IsBare, Better, AfterBest, side-on_level_emptied,
  levels-on_level_emptied,
}
use order_matching_engine.Book.LevelMap.Valid.{
  IsSide, put_emptied-AfterBest, occupied-level, level_at-price_of,
}
use order_matching_engine.Book.LevelMap.Add.{get_elem?-some}
use order_matching_engine.Engine.Match.{
  Run, MatchResult, MatchOutcome, exhausted, stp_fired, no_longer_crosses, Visit, stop, again,
  tell_emptied, leave_level, visit, crosses, match_into,
}
use order_matching_engine.Engine.Match.Account.{match_queue-emptied, match_queue-ends}
use order_matching_engine.Engine.Match.Round.{
  settled, settled-IsSide, served, served-IsLevel, told_once,
}
use mathlib.Core.Bool.{false≢true}

pub has_best-IsBare : (m : LevelMap) → IsBare m → has_best m ≡ false
unfolding has_best
has_best-IsBare m b = rw ((eqb_ℤ_iff m.best (empty_sentinel m.side)).1 b.price)

pub has_best-IsBestAt : (m : LevelMap) (i : ℕ) → IsGrid m → IsBestAt m i → has_best m ≡ true
unfolding has_best
has_best-IsBestAt m i g b = elim (Bool-cases (eqb_ℤ m.best (empty_sentinel m.side))) [
  | inl t ↦ absurd (
      price_of-ne_sentinel g i (occupied-lt m.levels i b.taken) m.side
        (sym b.price ∙ (eqb_ℤ_iff m.best (empty_sentinel m.side)).0 t))
  | inr f ↦ rw f
]

abbrev pub ended : MatchOutcome → LevelMap → Run → MatchResult
ended o m r = record { outcome = o; side = m; run = r }

module _ (stp : StpPolicy) (inc : NewOrder) where
  -- A round that serves the level of the best slot.
  pub record Serves (m : LevelMap) (r : Run) (i : ℕ) (l : PriceLevel) : Type 0 where
    pub valid : IsSide m
    pub open_rest : 0 < r.remaining
    pub best : IsBestAt m i
    pub crossing : crosses inc.kind inc.side inc.price (price_of m i) ≡ true
    pub at : get_elem? m.levels i ≡ some l
    pub held : is_empty l ≡ false

  abbrev pub left : LevelMap → Run → ℕ → PriceLevel → LevelMap
  left m r i l = settled m (price_of m i) (served stp inc l r).level

  pub record LoopCases (C : LevelMap → Run → MatchResult → Type 0) : Type 0 where
    pub over :
        (m : LevelMap) (r : Run)
        → IsSide m
        → (r.remaining ≡ 0) ⊎ IsBare m
        → C m r (ended exhausted m r)
    pub apart :
        (m : LevelMap) (r : Run) (i : ℕ)
        → IsSide m
        → 0 < r.remaining
        → IsBestAt m i
        → crosses inc.kind inc.side inc.price (price_of m i) ≡ false
        → C m r (ended no_longer_crosses m r)
    pub fired :
        (m : LevelMap) (r : Run) (i : ℕ) (l : PriceLevel)
        → Serves m r i l
        → C m r (ended stp_fired (left m r i l) (served stp inc l r).run)
    pub onward :
        (m : LevelMap) (r : Run) (i : ℕ) (l : PriceLevel) (out : MatchResult)
        → Serves m r i l
        → C (left m r i l) (served stp inc l r).run out
        → C m r out

  -- How a round goes.
  data Goes (m : LevelMap) (r : Run) : Visit → Type 0 where
    over : {w : Visit} → (r.remaining ≡ 0) ⊎ IsBare m → w ≡ stop (ended exhausted m r) → Goes m r w
    apart :
        {w : Visit} (i : ℕ)
        → 0 < r.remaining
        → IsBestAt m i
        → crosses inc.kind inc.side inc.price (price_of m i) ≡ false
        → w ≡ stop (ended no_longer_crosses m r)
        → Goes m r w
    fired :
        {w : Visit} (i : ℕ) (l : PriceLevel)
        → Serves m r i l
        → w ≡ stop (ended stp_fired (left m r i l) (served stp inc l r).run)
        → Goes m r w
    onward :
        {w : Visit} (i : ℕ) (l : PriceLevel)
        → Serves m r i l
        → (is_empty (served stp inc l r).level ≡ true) ⊎ ((served stp inc l r).run.remaining ≡ 0)
        → w ≡ again (left m r i l) (served stp inc l r).run
        → Goes m r w

  leave_level-Goes :
      (m : LevelMap) (r : Run) (i : ℕ) (l : PriceLevel)
      → Serves m r i l
      → Goes m r (leave_level m (price_of m i) (served stp inc l r))
  unfolding leave_level
  leave_level-Goes m r i l s = elim (match_queue-ends stp inc l.queue l false r) [
    | inl f ↦
        fired i l s
          (rw (f, (match_queue-emptied stp inc l.queue l false r (λ x. absurd (false≢true x))).1 f))
    | inr (x, e) ↦ onward i l s e (rw (x, told_once stp inc m i l r s.at s.held s.valid))
  ]

  visit-Goes : (m : LevelMap) (r : Run) → IsSide m → Goes m r (visit stp inc m r)
  unfolding visit
  visit-Goes m r v = elim (Bool-cases (ltb 0 r.remaining)) [
    | inr none_left ↦ rw none_left (over (inl (ground arith)) refl)
    | inl some_left ↦ rw some_left (on_best v.best (ground arith))
  ]
    where
      at_price : Price → Visit
      at_price p =
          if crosses inc.kind inc.side inc.price p
          then elim_option (level_at m p) (stop (ended exhausted m r))
              (λ l. leave_level m p (served stp inc l r))
          else stop (ended no_longer_crosses m r)

      at_slot : (i : ℕ) → 0 < r.remaining → IsBestAt m i → Goes m r (at_price m.best)
      at_slot i p b =
          let inside = occupied-lt m.levels i b.taken in
          let (l, at) = get_elem?-some m.levels i inside in
          subst (λ p. Goes m r (at_price p)) (sym b.price)
            (elim (Bool-cases (crosses inc.kind inc.side inc.price (price_of m i))) [
              | inr f ↦ rw f (apart i p b f refl)
              | inl t ↦
                  rw (t, level_at-price_of m v.grid i inside, at)
                    (leave_level-Goes m r i l (record {
                      valid = v;
                      open_rest = p;
                      best = b;
                      crossing = t;
                      at = at;
                      held = ground (arith, occupied-level m i l at, b.taken);
                    }))
            ])

      on_best :
          IsBest m
          → 0 < r.remaining
          → Goes m r (if true && has_best m then at_price m.best else stop (ended exhausted m r))
      on_best (inl b) p = rw (has_best-IsBare m b) (over (inr b) refl)
      on_best (inr (i, b)) p = rw (has_best-IsBestAt m i v.grid b) (at_slot i p b)

  -- The slots from the best one on, which the loop may still visit.
  abbrev pub distance : Side → ℕ → ℕ → ℕ
  distance buy n i = i + 1
  distance sell n i = n - i

  abbrev pub Enough : ℕ → LevelMap → Run → Type 0
  Enough fuel m r =
      (0 < fuel)
      × ((r.remaining ≡ 0)
          ⊎ (IsBare m ⊎ ((i : ℕ) × IsBestAt m i × (distance m.side (length m.levels) i < fuel))))

  fewer :
      (s : Side) (n i k fuel : ℕ)
      → k < n
      → Better s i k
      → distance s n i < suc fuel
      → distance s n k < fuel
  fewer buy n i k fuel h b d = omega arith
  fewer sell n i k fuel h b d = omega arith

  pos_distance : (s : Side) (n i fuel : ℕ) → i < n → distance s n i < suc fuel → 0 < fuel
  pos_distance buy n i fuel h d = omega arith
  pos_distance sell n i fuel h d = omega arith

  left-Enough :
      (m : LevelMap) (r : Run) (i : ℕ) (l : PriceLevel) (fuel : ℕ)
      → Serves m r i l
      → distance m.side (length m.levels) i < suc fuel
      → (is_empty (served stp inc l r).level ≡ true) ⊎ ((served stp inc l r).run.remaining ≡ 0)
      → Enough fuel (left m r i l) (served stp inc l r).run
  unfolding put_level tell_emptied
  left-Enough m r i l fuel s d (inr none_left) =
      (pos_distance m.side (length m.levels) i fuel inside d, inl none_left)
    where
      inside : i < length m.levels
      inside = occupied-lt m.levels i s.best.taken
  left-Enough m r i l fuel s d (inl bare) = (
    pos_distance m.side (length m.levels) i fuel inside d,
    inr (
        rw bare (
          after (
            put_emptied-AfterBest m i new inside bare
              (served-IsLevel stp inc m.side (price_of m i) l r (s.valid.levels i l s.at)) s.valid
              s.best))),
  )
    where
      inside : i < length m.levels
      inside = occupied-lt m.levels i s.best.taken

      new : PriceLevel
      new = (served stp inc l r).level

      n : LevelMap
      n = put_level m (price_of m i) new

      m' : LevelMap
      m' = on_level_emptied n (price_of m i)

      same_length : length m'.levels ≡ length m.levels
      same_length =
          ap length (levels-on_level_emptied n (price_of m i))
          ∙ length-set m.levels (index m (price_of m i)) new

      same_side : m'.side ≡ m.side
      same_side = side-on_level_emptied n (price_of m i)

      after :
          AfterBest m' i
          → IsBare m' ⊎ ((k : ℕ) × IsBestAt m' k × (distance m'.side (length m'.levels) k < fuel))
      after (inl b) = inl b
      after (inr (k, better, b)) =
          let below : k < length m.levels =
            omega (arith, same_length, occupied-lt m'.levels k b.taken) in
          let better' : Better m.side i k = subst (λ x. Better x i k) same_side better in
          inr (
            k,
            b,
            rw (same_side, same_length) (fewer m.side (length m.levels) i k fuel below better' d),
          )

  pub left-IsSide :
      (m : LevelMap) (r : Run) (i : ℕ) (l : PriceLevel) → Serves m r i l → IsSide (left m r i l)
  left-IsSide m r i l s =
      settled-IsSide m i l (served stp inc l r).level s.at s.held
        (served-IsLevel stp inc m.side (price_of m i) l r (s.valid.levels i l s.at)) s.valid

  pub match_into_rule :
      {C : LevelMap → Run → MatchResult → Type 0}
      → LoopCases C
      → (fuel : ℕ) (m : LevelMap) (r : Run) → IsSide m
      → Enough fuel m r
      → C m r (match_into fuel stp inc m r)
  unfolding match_into
  match_into_rule c zero m r v e = absurd (omega arith)
  match_into_rule {C} c (suc fuel) m r v e =
      go (visit stp inc m r) (visit-Goes m r v) (match_into_rule c fuel)
    where
      within :
          (i : ℕ) → 0 < r.remaining → IsBestAt m i → distance m.side (length m.levels) i < suc fuel
      within i p b = elim e.1 [
        | inl z ↦ absurd (omega arith)
        | inr (inl bare) ↦ absurd (false≢true (sym (bare.vacant i) ∙ b.taken))
        | inr (inr (k, c, d)) ↦ rw (IsBestAt-unique m i k v.grid.tick_pos b c) d
      ]

      go :
          (w : Visit)
          → Goes m r w
          → ((m' : LevelMap) (r' : Run)
              → IsSide m'
              → Enough fuel m' r'
              → C m' r' (match_into fuel stp inc m' r'))
          → C m r (elim w [ stop out ↦ out | again m' r' ↦ match_into fuel stp inc m' r' ])
      go w (over o x) rest = rw x (c.over m r v o)
      go w (apart i p b f x) rest = rw x (c.apart m r i v p b f)
      go w (fired i l s x) rest = rw x (c.fired m r i l s)
      go w (onward i l s done x) rest = rw x (
          c.onward m r i l _ s (
            rest (left m r i l) (served stp inc l r).run (left-IsSide m r i l s)
              (left-Enough m r i l fuel s (within i s.open_rest s.best) done)))
