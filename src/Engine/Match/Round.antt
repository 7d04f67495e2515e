-- ===== src/Engine/Match/Round.antt =====
-- One round of the outer match loop on a valid side.
use order_matching_engine.Base.{
  ℕ, ◌≡◌, refl, ap, ◌∙◌, inl, inr, Bool, true, false, arith, some, length, length-set, get_elem?,
  Bool-cases,
}
use mathlib.Core.Bool.{false≢true}
use order_matching_engine.Common.Types.{Price, Side}
use order_matching_engine.Engine.Order.{NewOrder, StpPolicy}
use order_matching_engine.Engine.PriceLevel.{PriceLevel, is_empty}
use order_matching_engine.Book.LevelMap.{LevelMap, index, occupied, put_level, on_level_emptied}
use order_matching_engine.Book.LevelMap.Slots.{price_of, index-price_of}
use order_matching_engine.Book.LevelMap.Scan.{occupied-set_self}
use order_matching_engine.Book.LevelMap.Best.{
  on_level_emptied_again, levels-on_level_emptied, price_of-on_level_emptied,
}
use order_matching_engine.Book.LevelMap.Valid.{
  IsLevel, IsSide, put-IsSide, put_emptied-IsSide, get_elem?-lt,
}
use order_matching_engine.Engine.Match.{Run, QueueResult, match_queue, tell_emptied, with_queue}
use order_matching_engine.Engine.Match.Level.{
  match_queue-IsCounted, match_queue-AllAt, price-match_queue,
}
use order_matching_engine.Engine.Match.Account.{match_queue-emptied}

-- The side with a level that the loop has left.
abbrev pub settled : LevelMap → Price → PriceLevel → LevelMap
settled m p l = tell_emptied (is_empty l) (put_level m p l) p

pub settled-IsSide :
    (m : LevelMap) (i : ℕ) (old l : PriceLevel)
    → get_elem? m.levels i ≡ some old
    → is_empty old ≡ false
    → IsLevel m.side (price_of m i) l
    → IsSide m
    → IsSide (settled m (price_of m i) l)
unfolding tell_emptied
settled-IsSide m i old l e held new v = elim (Bool-cases (is_empty l)) [
  | inl t ↦ rw t (put_emptied-IsSide m i l (get_elem?-lt m.levels i old e) t new v)
  | inr f ↦ rw f (put-IsSide m i old l e held f new v)
]

-- The reports of an emptied level come to one.
told_twice :
    (a b : Bool) (m : LevelMap) (p : Price)
    → (a ≡ true → b ≡ true)
    → (b ≡ true → on_level_emptied (on_level_emptied m p) p ≡ on_level_emptied m p)
    → tell_emptied b (tell_emptied a m p) p ≡ tell_emptied b m p
unfolding tell_emptied
told_twice false b m p h k = refl
told_twice true true m p h k = k refl
told_twice true false m p h k = cc (h refl)

told_empty :
    (m : LevelMap) (i : ℕ) (old l : PriceLevel)
    → get_elem? m.levels i ≡ some old
    → is_empty l ≡ true
    → IsLevel m.side (price_of m i) l
    → IsSide m
    → let n = put_level m (price_of m i) l in
      on_level_emptied (on_level_emptied n (price_of m i)) (price_of m i)
      ≡ on_level_emptied n (price_of m i)
unfolding put_level
told_empty m i old l e t new v =
    let inside = get_elem?-lt m.levels i old e in
    let n : LevelMap = put_level m (price_of m i) l in
    let m' : LevelMap = on_level_emptied n (price_of m i) in
    let v' : IsSide m' = put_emptied-IsSide m i l inside t new v in
    let kept : m'.levels ≡ n.levels = levels-on_level_emptied n (price_of m i) in
    let gone : occupied n.levels i ≡ false =
      rw (index-price_of m i v.grid.tick_pos) (occupied-set_self m.levels i l inside ∙ rw t) in
    rw (price_of-on_level_emptied n (price_of m i) i) at (
      on_level_emptied_again m' v'.grid i
        (omega (arith, ap length kept, length-set m.levels (index m (price_of m i)) l, inside))
        (rw kept gone) v'.best)

module _ (stp : StpPolicy) (inc : NewOrder) where
  -- The level at a slot, as the inner loop leaves it.
  abbrev pub served : PriceLevel → Run → QueueResult
  served l r = match_queue stp inc l.queue l false r

  pub served-IsLevel :
      (s : Side) (p : Price) (l : PriceLevel) (r : Run)
      → IsLevel s p l
      → IsLevel s p (served l r).level
  unfolding with_queue
  served-IsLevel s p l r v = record {
    counted = match_queue-IsCounted stp inc l.queue l false r v.counted;
    price = price-match_queue stp inc l.queue l false r ∙ v.price;
    at = match_queue-AllAt stp inc s p l.queue l false r v.at;
  }

  pub told_once :
      (m : LevelMap) (i : ℕ) (l : PriceLevel) (r : Run)
      → get_elem? m.levels i ≡ some l
      → is_empty l ≡ false
      → IsSide m
      → let q = served l r in
        let p = price_of m i in
        tell_emptied (is_empty q.level) (tell_emptied q.emptied (put_level m p q.level) p) p
        ≡ settled m p q.level
  told_once m i l r e held v =
      told_twice (served l r).emptied (is_empty (served l r).level)
        (put_level m (price_of m i) (served l r).level) (price_of m i)
        (match_queue-emptied stp inc l.queue l false r (λ x. absurd (false≢true x))).0
        (λ t.
          told_empty m i l (served l r).level e t
            (served-IsLevel m.side (price_of m i) l r (v.levels i l e)) v)
