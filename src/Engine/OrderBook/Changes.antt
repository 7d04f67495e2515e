-- ===== src/Engine/OrderBook/Changes.antt =====
-- An order that comes to rest, and one that is taken out, between the two sides of a book.
use order_matching_engine.Base.{
  ℕ, ◌+◌, ◌-◌, ◌≡◌, refl, subst, sym, ◌∙◌, ◌<◌, ◌⊎◌, inl, inr, List, [], ◌∷◌, ◌++◌, true, false,
  arith, some, length, length-append, get_elem?, set, if◌then◌else◌, Bool-cases, Option-cases,
  ℕ_discrete, ◌==◌,
}
use order_matching_engine.Common.Types.{Price, Side}
use order_matching_engine.Engine.Order.{Order}
use order_matching_engine.Engine.PriceLevel.{PriceLevel, is_empty, enqueue, unlink, find, remove}
use order_matching_engine.Engine.PriceLevel.Counted.{
  unlink-IsCounted, AllAt-remove, find-AllAt, sum_remaining-remove,
}
use order_matching_engine.Book.LevelMap.{
  LevelMap, index, occupied, put_level, add_order, better_price,
}
use order_matching_engine.Book.LevelMap.Slots.{price_of, index-price_of}
use order_matching_engine.Book.LevelMap.Scan.{occupied-set_ne}
use order_matching_engine.Book.LevelMap.Best.{Better}
use order_matching_engine.Book.LevelMap.Valid.{IsLevel, IsSide, occupied-level}
use order_matching_engine.Book.LevelMap.Add.{Fits, add_order-IsSide, add_order_at, get_elem?-some}
use order_matching_engine.Book.IdSet.{
  contains, insert, erase, count-insert, count-erase, contains-count,
}
use order_matching_engine.Engine.Match.{tell_emptied}
use order_matching_engine.Engine.Match.Account.{occurs}
use order_matching_engine.Engine.Match.Round.{settled, settled-IsSide}
use order_matching_engine.Engine.Match.Totals.{
  over_side-settled, levels-settled, side-settled, put_level-levels, queue-le-over_side,
}
use order_matching_engine.Engine.OrderBook.{take_out}
use order_matching_engine.Engine.OrderBook.Pair.{
  IsPair, SameGrid, SameGrid-settled, over_side-add_order,
}

occurs-append :
    (k : ℕ) (os : List Order) (o : Order)
    → occurs k (os ++ (o ∷ [])) ≡ occurs k os + (if o.id == k then 1 else 0)
occurs-append k [] o = omega arith
occurs-append k (x ∷ os) o = omega (arith, occurs-append k os o)

SameGrid-add_order :
    (m : LevelMap) (o : Order) → (SameGrid m (add_order m o)) × ((add_order m o).side ≡ m.side)
unfolding add_order put_level
SameGrid-add_order m o = elim (Option-cases (get_elem? m.levels (index m o.price))) [
  | inl e ↦ rw e ((refl, refl, refl), refl)
  | inr (l, e) ↦ rw e (ground arith)
]

add_order-occupied :
    (m : LevelMap) (i k : ℕ) (o : Order)
    → i < length m.levels
    → Fits m i o
    → IsSide m
    → occupied (add_order m o).levels k ≡ true
    → (i ≡ k) ⊎ (occupied m.levels k ≡ true)
add_order-occupied m i k o inside f v t = elim (ℕ_discrete i k) [
  | yes e ↦ inl e
  | no ne ↦
      let (l, at) = get_elem?-some m.levels i inside in
      inr (
        sym (occupied-set_ne m.levels (enqueue l o) ne)
        ∙ subst (λ ls. occupied ls k ≡ true) (same l at) t)
]
  where
    same :
        (l : PriceLevel)
        → get_elem? m.levels i ≡ some l
        → (add_order m o).levels ≡ set m.levels i (enqueue l o)
    same l at =
        rw (add_order_at m i o l v.grid.tick_pos f.price at)
          (elim (Bool-cases (better_price m.side (price_of m i) m.best)) [
            | inl x ↦ rw x
            | inr x ↦ rw x
          ])

-- An order that does not cross comes to rest.
pub add_order-IsPair :
    (s : Side) (own opp : LevelMap) (ids : List ℕ) (in_use cap i : ℕ) (o : Order)
    → i < length own.levels
    → Fits own i o
    → contains o.id ids ≡ false
    → in_use < cap
    → ((j : ℕ) → occupied opp.levels j ≡ true → Better s j i)
    → IsPair s own opp ids in_use cap
    → IsPair s (add_order own o) opp (insert o.id ids) (in_use + 1) cap
add_order-IsPair s own opp ids in_use cap i o inside f new space clear v =
    let g = SameGrid-add_order own o in
    record {
      own_valid = add_order-IsSide own i o inside f v.own_valid;
      opp_valid = v.opp_valid;
      own_side = g.1 ∙ v.own_side;
      opp_side = v.opp_side;
      grid = (v.grid.0 ∙ sym g.0.0, v.grid.1 ∙ sym g.0.1, v.grid.2 ∙ sym g.0.2);
      apart = λ a j ta tj. apart_from a j tj (add_order-occupied own i a o inside f v.own_valid ta);
      named = λ k. omega (
        arith,
        v.named k,
        count-insert o.id k ids new,
        over_side-add_order (occurs k) (if o.id == k then 1 else 0) own i o
            (λ os. occurs-append k os o) inside f v.own_valid,
      );
      once = λ k. ground (arith, v.once k, count-insert o.id k ids new, contains-count o.id ids);
      pooled = omega (
        arith,
        v.pooled,
        over_side-add_order length 1 own i o (λ os. length-append os (o ∷ [])) inside f v.own_valid,
      );
      room = omega arith;
    }
  where
    apart_from :
        (a j : ℕ)
        → occupied opp.levels j ≡ true
        → (i ≡ a) ⊎ (occupied own.levels a ≡ true)
        → Better s j a
    apart_from a j tj (inl e) = subst (Better s j) e (clear j tj)
    apart_from a j tj (inr ta) = v.apart a j ta tj

-- An order in its place.
pub record Rests (m : LevelMap) (i : ℕ) (l : PriceLevel) (o : Order) : Type 0 where
  pub at : get_elem? m.levels i ≡ some l
  pub found : find o.id l.queue ≡ some o

occurs-remove :
    (k id : ℕ) (os : List Order) (o : Order)
    → find id os ≡ some o
    → occurs k (remove id os) + (if id == k then 1 else 0) ≡ occurs k os
unfolding find remove
occurs-remove k id [] o e = absurd (ground arith)
occurs-remove k id (x ∷ os) o e = ground (arith, occurs-remove k id os o)

occurs-unlink :
    (k : ℕ) (l : PriceLevel) (o : Order)
    → find o.id l.queue ≡ some o
    → occurs k (unlink l o).queue + (if o.id == k then 1 else 0) ≡ occurs k l.queue
unfolding unlink
occurs-unlink k l o e = occurs-remove k o.id l.queue o e

length-unlink :
    (l : PriceLevel) (o : Order)
    → find o.id l.queue ≡ some o
    → length (unlink l o).queue + 1 ≡ length l.queue
unfolding unlink
length-unlink l o e = (sum_remaining-remove o.id l.queue o e).1

pub Rests-held :
    (m : LevelMap) (i : ℕ) (l : PriceLevel) (o : Order) → Rests m i l o → is_empty l ≡ false
unfolding is_empty find
Rests-held m i l o r = go l.queue r.found
  where
    go : (os : List Order) → find o.id os ≡ some o → (elim os [ [] ↦ true | _ ∷ _ ↦ false ]) ≡ false
    go [] e = absurd (ground arith)
    go (x ∷ os) e = refl

unlink-IsLevel :
    (s : Side) (p : Price) (l : PriceLevel) (o : Order)
    → find o.id l.queue ≡ some o
    → IsLevel s p l
    → IsLevel s p (unlink l o)
unfolding unlink
unlink-IsLevel s p l o e v = record {
  counted = unlink-IsCounted l o e v.counted;
  price = v.price;
  at = AllAt-remove s p o.id l.queue v.at;
}

-- Taking an order out is leaving its level without it.
pub take_out-settled :
    (m : LevelMap) (i : ℕ) (l : PriceLevel) (o : Order)
    → IsSide m
    → Rests m i l o
    → take_out m o ≡ settled m (price_of m i) (unlink l o)
unfolding take_out tell_emptied
take_out-settled m i l o v r =
    let p = (find-AllAt m.side (price_of m i) o.id l.queue o (v.levels i l r.at).at r.found).1 in
    rw (p, index-price_of m i v.grid.tick_pos, r.at)

pub take_out-IsPair :
    (s : Side) (own opp : LevelMap) (ids : List ℕ) (in_use cap i : ℕ) (l : PriceLevel) (o : Order)
    → Rests own i l o
    → IsPair s own opp ids in_use cap
    → IsPair s (take_out own o) opp (erase o.id ids) (in_use - 1) cap
take_out-IsPair s own opp ids in_use cap i l o r v =
    let new = unlink l o in
    let held = Rests-held own i l o r in
    let g = SameGrid-settled own (price_of own i) new in
    rw (take_out-settled own i l o v.own_valid r) (record {
      own_valid =
          settled-IsSide own i l new r.at held
            (unlink-IsLevel own.side (price_of own i) l o r.found (v.own_valid.levels i l r.at))
            v.own_valid;
      opp_valid = v.opp_valid;
      own_side = side-settled own (price_of own i) new ∙ v.own_side;
      opp_side = v.opp_side;
      grid = (v.grid.0 ∙ sym g.0, v.grid.1 ∙ sym g.1, v.grid.2 ∙ sym g.2);
      apart = λ a j ta tj. v.apart a j (was a ta) tj;
      named = λ k. ground (
        arith,
        v.named k,
        v.named o.id,
        count-erase o.id k ids,
        occurs-unlink k l o r.found,
        occurs-unlink o.id l o r.found,
        queue-le-over_side (occurs o.id) own i l r.at,
        over_side-settled (occurs k) own i l new v.own_valid r.at,
      );
      once = λ k. ground (arith, v.once k, count-erase o.id k ids);
      pooled = omega (
        arith,
        v.pooled,
        length-unlink l o r.found,
        queue-le-over_side length own i l r.at,
        over_side-settled length own i l new v.own_valid r.at,
      );
      room = omega (arith, v.room);
    })
  where
    was :
        (a : ℕ)
        → occupied (settled own (price_of own i) (unlink l o)).levels a ≡ true
        → occupied own.levels a ≡ true
    was a t = elim (ℕ_discrete i a) [
      | yes e ↦ rw (← e) (occupied-level own i l r.at ∙ rw (Rests-held own i l o r))
      | no ne ↦
          let same =
            levels-settled own (price_of own i) (unlink l o)
            ∙ put_level-levels own i (unlink l o) v.own_valid.grid.tick_pos in
          sym (occupied-set_ne own.levels (unlink l o) ne)
          ∙ subst (λ ls. occupied ls a ≡ true) same t
    ]
