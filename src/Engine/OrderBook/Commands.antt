-- ===== src/Engine/OrderBook/Commands.antt =====
-- The other commands keep the invariant too: a cancellation, a replacement, and what recovery restores.
use order_matching_engine.Base.{
  ℕ, suc, ◌-◌, ◌≡◌, refl, subst, sym, ap, ◌∙◌, inl, inr, List, [], ◌∷◌, false, arith, Option, none,
  some, get_elem?, elim_option, Bool-cases, Option-cases,
}
use order_matching_engine.Common.Types.{Side, buy, sell, opposite}
use order_matching_engine.Engine.Order.{
  Order, NewOrder, TradeBuffer, StpVictimBuffer, SubmitStatus, no_result, rejected_unknown_order,
}
use order_matching_engine.Engine.PriceLevel.{PriceLevel, find}
use order_matching_engine.Engine.PriceLevel.Counted.{find-AllAt}
use order_matching_engine.Book.LevelMap.{LevelMap, index, put_level, on_level_emptied}
use order_matching_engine.Book.LevelMap.Slots.{price_of}
use order_matching_engine.Book.IdSet.{contains, erase, count, count-erase, contains-count}
use order_matching_engine.Engine.OrderBook.{
  OrderBook, side_of, put_side, find_in, find_order, take_out, withdrawn, cancel, cancel_result,
  replace, replace_checked, replace_rejection,
}
use order_matching_engine.Engine.OrderBook.Changes.{Rests, take_out-IsPair}
use order_matching_engine.Engine.OrderBook.Invariant.{
  IsBook, IsBook-IsPairOf, IsPairOf-IsBook, OnTick, put_own-IsPairOf, side_of-record,
}
use order_matching_engine.Engine.OrderBook.Submit.{submit_ex-IsBook}

-- Where a search finds an order, it rests.
find_in-Rests :
    (id : ℕ) (ls : List PriceLevel) (o : Order)
    → find_in id ls ≡ some o
    → (i : ℕ) × (l : PriceLevel) × (get_elem? ls i ≡ some l) × (find id l.queue ≡ some o)
unfolding find_in
find_in-Rests id [] o e = absurd (ground arith)
find_in-Rests id (l ∷ ls) o e = elim (Option-cases (find id l.queue)) [
  | inr (x, f) ↦ (0, l, refl, ground arith)
  | inl f ↦
      let (i, l', at, found) = find_in-Rests id ls o (rw (f, elim_option) at e) in
      (suc i, l', at, found)
]

-- The place of an order on its side.
pub record Located (b : OrderBook) (id : ℕ) (o : Order) : Type 0 where
  pub slot : ℕ
  pub level : PriceLevel
  pub rests : Rests (side_of o.side b) slot level o
  pub name : o.id ≡ id

side-Located :
    (s : Side) (b : OrderBook) (id : ℕ) (o : Order)
    → IsBook b
    → find_in id (side_of s b).levels ≡ some o
    → Located b id o
side-Located s b id o v e =
    let (i, l, at, found) = find_in-Rests id (side_of s b).levels o e in
    let w = IsBook-IsPairOf s b v in
    let is =
      find-AllAt (side_of s b).side (price_of (side_of s b) i) id l.queue o
        (w.own_valid.levels i l at).at found in
    let same : s ≡ o.side = sym w.own_side ∙ sym is.0 in
    record {
      slot = i;
      level = l;
      rests =
          subst (λ x. Rests (side_of x b) i l o) same
            (record { at = at; found = subst (λ j. find j l.queue ≡ some o) (sym is.2) found });
      name = is.2;
    }

pub find_order-Located :
    (b : OrderBook) (id : ℕ) (o : Order) → IsBook b → find_order b id ≡ some o → Located b id o
unfolding find_order side_of
find_order-Located b id o v e = elim (Bool-cases (contains id b.ids)) [
  | inr f ↦ absurd (ground arith)
  | inl t ↦ elim (Option-cases (find_in id b.bids.levels)) [
    | inr (x, f) ↦ side-Located buy b id o v (ground arith)
    | inl f ↦ side-Located sell b id o v (ground arith)
  ]
]

-- A cancellation of an order that rests.
withdrawn-IsBook :
    (b : OrderBook) (id : ℕ) (o : Order) → IsBook b → Located b id o → IsBook (withdrawn b o)
unfolding withdrawn
withdrawn-IsBook b id o v r =
    let w = IsBook-IsPairOf o.side b v in
    let b' : OrderBook = record b { ids = erase o.id b.ids; in_use = b.in_use - 1 } in
    IsPairOf-IsBook o.side _ (
      put_own-IsPairOf o.side b' (take_out (side_of o.side b) o) (
        rw
          (side_of-record (opposite o.side) b (erase o.id b.ids) (b.in_use - 1) b.seq
            b.next_trade_id)
          (take_out-IsPair o.side (side_of o.side b) (side_of (opposite o.side) b) b.ids b.in_use
            b.config.max_orders r.slot r.level o r.rests w)))

-- A cancellation keeps a book in order, whether the id rests or not.
pub cancel-IsBook : (b : OrderBook) (id : ℕ) → IsBook b → IsBook (cancel b id).0
unfolding cancel
cancel-IsBook b id v = elim (Option-cases (find_order b id)) [
  | inl e ↦ rw (e, elim_option) v
  | inr (o, e) ↦ rw (e, elim_option) (withdrawn-IsBook b id o v (find_order-Located b id o v e))
]

grid_take_out : (m : LevelMap) (o : Order) (i : ℕ) → price_of (take_out m o) i ≡ price_of m i
unfolding take_out put_level on_level_emptied
grid_take_out m o i = elim (Option-cases (get_elem? m.levels (index m o.price))) [
  | inl e ↦ rw (e, elim_option) refl
  | inr (l, e) ↦ rw (e, elim_option) (ground arith)
]

bids-cancel : (b : OrderBook) (id i : ℕ) → price_of (cancel b id).0.bids i ≡ price_of b.bids i
unfolding cancel withdrawn
bids-cancel b id i = elim (Option-cases (find_order b id)) [
  | inl e ↦ rw (e, elim_option) refl
  | inr (o, e) ↦ rw (e, elim_option) (go o.side o)
]
  where
    go :
        (s : Side) (o : Order)
        → price_of
            (put_side s
              (take_out (side_of s b) o)
              (record b { ids = erase o.id b.ids; in_use = b.in_use - 1 })).bids
            i
          ≡ price_of b.bids i
    go buy o = unfold put_side side_of in grid_take_out b.bids o i
    go sell o = unfold put_side in refl

replace_checked-IsBook :
    (c : Option SubmitStatus) (b : OrderBook) (old_id : ℕ) (fresh : NewOrder) (trades : TradeBuffer)
    (victims : Option StpVictimBuffer)
    → IsBook b
    → OnTick b fresh
    → IsBook (replace_checked c b old_id fresh trades victims).0.book
unfolding replace_checked
replace_checked-IsBook (some status) b old_id fresh trades victims v tick = v
replace_checked-IsBook none b old_id fresh trades victims v tick =
    submit_ex-IsBook (cancel b old_id).0 fresh trades victims (cancel-IsBook b old_id v)
      (λ k. let (i, e) = tick k in (i, e ∙ sym (bids-cancel b old_id i)))

-- A replacement keeps a book in order, where a fresh limit order is at a price of the grid.
pub replace-IsBook :
    (b : OrderBook) (old_id : ℕ) (fresh : NewOrder) (trades : TradeBuffer)
    (victims : Option StpVictimBuffer)
    → IsBook b
    → OnTick b fresh
    → IsBook (replace b old_id fresh trades victims).0.book
unfolding replace
replace-IsBook b old_id fresh trades victims v tick =
    replace_checked-IsBook (replace_rejection b old_id fresh) b old_id fresh trades victims v tick

ids-withdrawn : (b : OrderBook) (o : Order) → (withdrawn b o).ids ≡ erase o.id b.ids
unfolding withdrawn
ids-withdrawn b o = go o.side (take_out (side_of o.side b) o)
  where
    go :
        (s : Side) (m : LevelMap)
        → (put_side s m (record b { ids = erase o.id b.ids; in_use = b.in_use - 1 })).ids
          ≡ erase o.id b.ids
    go buy m = unfold put_side in refl
    go sell m = unfold put_side in refl

find_order-none : (b : OrderBook) (id : ℕ) → contains id b.ids ≡ false → find_order b id ≡ none
unfolding find_order
find_order-none b id e = rw e

cancel-none :
    (b : OrderBook) (id : ℕ)
    → find_order b id ≡ none
    → cancel b id ≡ (b, record no_result { status = rejected_unknown_order })
unfolding cancel
cancel-none b id e = rw (e, elim_option)

cancel-found :
    (b : OrderBook) (id : ℕ) (o : Order)
    → find_order b id ≡ some o
    → cancel b id ≡ (withdrawn b o, cancel_result o)
unfolding cancel
cancel-found b id o e = rw (e, elim_option)

-- A cancelled id is not there any more.
gone_after : (b : OrderBook) (id : ℕ) → IsBook b → find_order (cancel b id).0 id ≡ none
gone_after b id v = elim (Option-cases (find_order b id)) [
  | inl e ↦ subst (λ x. find_order x.0 id ≡ none) (sym (cancel-none b id e)) e
  | inr (o, e) ↦
      let r = find_order-Located b id o v e in
      let left : count id (withdrawn b o).ids ≡ count id (erase id b.ids) =
        ap (count id) (ids-withdrawn b o ∙ ap (λ x. erase x b.ids) r.name) in
      subst (λ x. find_order x.0 id ≡ none) (sym (cancel-found b id o e))
        (find_order-none (withdrawn b o) id (
          ground (
            arith,
            left,
            v.once id,
            count-erase id id b.ids,
            contains-count id (withdrawn b o).ids,
          )))
]

-- On a book in order, a second cancellation of an id is rejected as unknown and changes nothing.
pub cancel_twice :
    (b : OrderBook) (id : ℕ)
    → IsBook b
    → cancel (cancel b id).0 id
      ≡ ((cancel b id).0, record no_result { status = rejected_unknown_order })
cancel_twice b id v = cancel-none (cancel b id).0 id (gone_after b id v)
