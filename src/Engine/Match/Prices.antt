-- ===== src/Engine/Match/Prices.antt =====
-- The prices and the numbers of the trades of the whole match loop.
use order_matching_engine.Base.{
  ℕ, ◌+◌, ◌≡◌, refl, sym, ap, subst, ◌∙◌, ◌<◌, List, [], ◌∷◌, ◌++◌, true, false, arith,
  append_assoc, append-nil, length, length-append,
}
use order_matching_engine.Common.Types.{Price, Side}
use order_matching_engine.Engine.Order.{Order, NewOrder, StpPolicy, Trade}
use order_matching_engine.Engine.PriceLevel.Counted.{AllAt, AllPositive}
use order_matching_engine.Engine.PriceLevel.{PriceLevel}
use order_matching_engine.Book.LevelMap.{LevelMap}
use order_matching_engine.Book.LevelMap.Slots.{price_of}
use order_matching_engine.Book.LevelMap.Valid.{IsSide}
use order_matching_engine.Engine.Match.{Run, crosses, trade_of, match_into}
use order_matching_engine.Engine.Match.Conserve.{Kept}
use order_matching_engine.Engine.Match.Fifo.{
  Served, untouched, own_removed, whole, part, match_queue-Grown,
}
use order_matching_engine.Engine.Match.Round.{served}
use order_matching_engine.Engine.Match.Loop.{LoopCases, Serves, match_into_rule, Enough}

-- A trade as the order `inc` may get it, with the number that is its turn.
pub record IsDeal (inc : NewOrder) (n : ℕ) (t : Trade) : Type 0 where
  pub numbered : t.id ≡ n
  pub aggressor : t.aggressor_id ≡ inc.id
  pub acceptable : crosses inc.kind inc.side inc.price t.price ≡ true
  pub some_quantity : 0 < t.quantity

abbrev pub AllDeals : NewOrder → ℕ → List Trade → Type 0
AllDeals inc n [] = Unit {0}
AllDeals inc n (t ∷ ts) = IsDeal inc n t × AllDeals inc (n + 1) ts

AllDeals-append :
    (inc : NewOrder) (n m : ℕ) (ts us : List Trade)
    → m ≡ n + length ts
    → AllDeals inc n ts
    → AllDeals inc m us
    → AllDeals inc n (ts ++ us)
AllDeals-append inc n m [] us e a b = subst (λ k. AllDeals inc k us) (omega arith) b
AllDeals-append inc n m (t ∷ ts) us e a b =
    (a.0, AllDeals-append inc (n + 1) m ts us (omega arith) a.1 b)

deal :
    (inc : NewOrder) (n : ℕ) (o : Order) (qty : ℕ) (p : Price)
    → o.price ≡ p
    → crosses inc.kind inc.side inc.price p ≡ true
    → 0 < qty
    → IsDeal inc n (trade_of inc o qty n)
unfolding trade_of
deal inc n o qty p e c h = record {
  numbered = refl;
  aggressor = refl;
  acceptable = subst (λ x. crosses inc.kind inc.side inc.price x ≡ true) (sym e) c;
  some_quantity = h;
}

Served-AllDeals :
    (inc : NewOrder) (s : Side) (p : Price) (n : ℕ) (os qs : List Order) (ts : List Trade)
    → crosses inc.kind inc.side inc.price p ≡ true
    → AllAt s p os
    → AllPositive os
    → Served inc n os qs ts
    → AllDeals inc n ts
Served-AllDeals inc s p n os qs ts c a z (untouched e f) = subst (AllDeals inc n) (sym f) tt
Served-AllDeals inc s p n (o ∷ os) qs ts c a z (own_removed own w) =
    Served-AllDeals inc s p n os qs ts c a.1 z.1 w
Served-AllDeals inc s p n (o ∷ os) qs us c a z (whole {ts = ts} other e w) =
    subst (AllDeals inc n) (sym e)
      (deal inc n o o.remaining p a.0.1 c z.0, Served-AllDeals inc s p (n + 1) os qs ts c a.1 z.1 w)
Served-AllDeals inc s p n (o ∷ os) qs ts c a z (part qty other h less e f) =
    subst (AllDeals inc n) (sym f) (deal inc n o qty p a.0.1 c h, tt)

-- What a run has dealt.
pub record Dealt (inc : NewOrder) (r r' : Run) : Type 0 where
  pub before : Kept r.trades
  pub new : List Trade
  pub slots : r'.trades.slots ≡ r.trades.slots ++ new
  pub next : r'.next_trade_id ≡ r.next_trade_id + length new
  pub deals : AllDeals inc r.next_trade_id new

module _ (stp : StpPolicy) (inc : NewOrder) where
  none-Dealt : (r : Run) → Kept r.trades → Dealt inc r r
  none-Dealt r k = record {
    before = k;
    new = [];
    slots = sym (append-nil r.trades.slots);
    next = omega arith;
    deals = tt;
  }

  level-Dealt :
      (m : LevelMap) (r : Run) (i : ℕ) (l : PriceLevel)
      → Serves stp inc m r i l
      → Kept (served stp inc l r).run.trades
      → Dealt inc r (served stp inc l r).run
  level-Dealt m r i l s k =
      let g = match_queue-Grown stp inc l.queue l false r k in
      let v = s.valid.levels i l s.at in
      record {
        before = g.before;
        new = g.new;
        slots = g.slots;
        next = g.next;
        deals =
            Served-AllDeals inc m.side (price_of m i) r.next_trade_id l.queue _ g.new s.crossing
              v.at v.counted.positive g.served;
      }

  then-Dealt : (r r' r'' : Run) → Dealt inc r r' → Dealt inc r' r'' → Dealt inc r r''
  then-Dealt r r' r'' a b = record {
    before = a.before;
    new = a.new ++ b.new;
    slots = b.slots ∙ (ap (λ x. x ++ b.new) a.slots ∙ append_assoc r.trades.slots a.new b.new);
    next = omega (arith, a.next, b.next, length-append a.new b.new);
    deals = AllDeals-append inc r.next_trade_id r'.next_trade_id a.new b.new a.next a.deals b.deals;
  }

  Dealt-cases : LoopCases stp inc (λ m r out. Kept out.run.trades → Dealt inc r out.run)
  Dealt-cases = record {
    over = λ m r v o k. none-Dealt r k;
    apart = λ m r i v p b f k. none-Dealt r k;
    fired = λ m r i l s k. level-Dealt m r i l s k;
    onward =
        λ m r i l out s ih k. then-Dealt r _ out.run (level-Dealt m r i l s (ih k).before) (ih k);
  }

  pub match_into-Dealt :
      (fuel : ℕ) (m : LevelMap) (r : Run)
      → IsSide m
      → Enough stp inc fuel m r
      → let out = match_into fuel stp inc m r in Kept out.run.trades → Dealt inc r out.run
  match_into-Dealt = match_into_rule stp inc Dealt-cases
