-- ===== src/Engine/OrderBook/Invariant.antt =====
-- The invariant of the book, and that each command keeps it.
use order_matching_engine.Base.{
  ℕ, ◌+◌, ◌≡◌, refl, ◌<◌, ◌⊎◌, inl, inr, List, true, false, arith, Option, none, length,
}
use order_matching_engine.Base.Int.{pos_part}
use order_matching_engine.Common.Types.{Side, buy, sell, opposite}
use order_matching_engine.Engine.Order.{
  NewOrder, limit, is_market, StpPolicy, TradeBuffer, StpVictimBuffer,
}
use order_matching_engine.Book.LevelMap.{LevelMap, in_range}
use order_matching_engine.Book.LevelMap.Slots.{price_of}
use order_matching_engine.Book.LevelMap.Scan.{occupied-lt}
use order_matching_engine.Book.LevelMap.Best.{IsBest, IsBestAt, IsBare}
use order_matching_engine.Book.LevelMap.Valid.{IsSide}
use order_matching_engine.Book.IdSet.{contains, contains-count}
use order_matching_engine.Engine.Match.{Run, MatchResult}
use order_matching_engine.Engine.Match.Account.{occurs, occurs-IsTally}
use order_matching_engine.Engine.Match.Loop.{Enough, distance}
use order_matching_engine.Engine.Match.Totals.{
  Ended, match_into-Ended, match_into-ids, match_into-le,
}
use order_matching_engine.Engine.OrderBook.{
  OrderBook, side_of, put_side, rejection, matched, match_side, start_run, rounds,
}
use order_matching_engine.Engine.OrderBook.Pair.{IsPair, IsPair-swap, match_into-IsPair}

-- The book with given sides, id map and pool is in order.
abbrev pub IsBook : OrderBook → Type 0
IsBook b = IsPair buy b.bids b.asks b.ids b.in_use b.config.max_orders

abbrev pub IsPairOf : Side → OrderBook → Type 0
IsPairOf s b = IsPair s (side_of s b) (side_of (opposite s) b) b.ids b.in_use b.config.max_orders

pub IsBook-IsPairOf : (s : Side) (b : OrderBook) → IsBook b → IsPairOf s b
unfolding side_of opposite
IsBook-IsPairOf buy b v = v
IsBook-IsPairOf sell b v = IsPair-swap buy b.bids b.asks b.ids b.in_use b.config.max_orders v

pub IsPairOf-IsBook : (s : Side) (b : OrderBook) → IsPairOf s b → IsBook b
unfolding side_of opposite
IsPairOf-IsBook buy b v = v
IsPairOf-IsBook sell b v = IsPair-swap sell b.asks b.bids b.ids b.in_use b.config.max_orders v

-- Sides put into the book come out again.
pub side_of-put_side : (s : Side) (m : LevelMap) (b : OrderBook) → side_of s (put_side s m b) ≡ m
unfolding side_of put_side
side_of-put_side buy m b = refl
side_of-put_side sell m b = refl

-- The price of a limit order is that of a slot.
abbrev pub OnTick : OrderBook → NewOrder → Type 0
OnTick b inc = inc.kind ≡ limit → (i : ℕ) × (inc.price ≡ price_of b.bids i)

-- What the checks of a submission that is not rejected have shown.
pub record Accepted (b : OrderBook) (inc : NewOrder) : Type 0 where
  pub positive : 0 < pos_part inc.quantity
  pub ranged : is_market inc.kind ≡ false → in_range b.bids inc.price ≡ true
  pub fresh : contains inc.id b.ids ≡ false

pub rejection-none : (b : OrderBook) (inc : NewOrder) → rejection b inc ≡ none → Accepted b inc
unfolding rejection
rejection-none b inc e = record {
  positive = ground arith;
  ranged = λ k. ground arith;
  fresh = ground arith;
}

pub start-Enough :
    (stp : StpPolicy) (inc : NewOrder) (m : LevelMap) (r : Run)
    → IsSide m
    → Enough stp inc (rounds m + 1) m r
unfolding rounds
start-Enough stp inc m r v = (omega arith, inr (go v.best))
  where
    near :
        (s : Side) (i : ℕ)
        → i < length m.levels
        → distance stp inc s (length m.levels) i < length m.levels + 1 + 1
    near buy i h = omega arith
    near sell i h = omega arith

    go :
        IsBest m
        → IsBare m
          ⊎ ((i : ℕ) × IsBestAt m i
              × (distance stp inc m.side (length m.levels) i < length m.levels + 1 + 1))
    go (inl b) = inl b
    go (inr (i, b)) = inr (i, b, near m.side i (occupied-lt m.levels i b.taken))

put_opposite-IsPairOf :
    (s : Side) (b : OrderBook) (m : LevelMap)
    → IsPair s (side_of s b) m b.ids b.in_use b.config.max_orders
    → IsPairOf s (put_side (opposite s) m b)
unfolding side_of put_side opposite
put_opposite-IsPairOf buy b m v = v
put_opposite-IsPairOf sell b m v = v

pub put_own-IsPairOf :
    (s : Side) (b : OrderBook) (m : LevelMap)
    → IsPair s m (side_of (opposite s) b) b.ids b.in_use b.config.max_orders
    → IsPairOf s (put_side s m b)
unfolding side_of put_side opposite
put_own-IsPairOf buy b m v = v
put_own-IsPairOf sell b m v = v

-- The sides of a book do not see its other fields.
pub side_of-record :
    (s : Side) (b : OrderBook) (ids : List ℕ) (in_use seq next : ℕ)
    → side_of s (record b { ids = ids; in_use = in_use; seq = seq; next_trade_id = next })
      ≡ side_of s b
unfolding side_of
side_of-record buy b ids in_use seq next = refl
side_of-record sell b ids in_use seq next = refl

module _ (b : OrderBook) (inc : NewOrder) (trades : TradeBuffer) (victims : Option StpVictimBuffer)
    (v : IsBook b) where
  abbrev out : MatchResult
  out = match_side b inc trades victims

  opp : LevelMap
  opp = side_of (opposite inc.side) b

  enough : Enough b.config.stp inc (rounds opp + 1) opp (start_run b inc trades victims)
  unfolding opp
  enough =
      start-Enough b.config.stp inc opp (start_run b inc trades victims)
        (IsBook-IsPairOf inc.side b v).opp_valid

  pub matched-IsBook : IsBook (matched b inc out)
  unfolding matched match_side opp start_run
  matched-IsBook = IsPairOf-IsBook inc.side _ (
      put_opposite-IsPairOf inc.side _ out.side (
        rw (side_of-record inc.side b out.run.ids out.run.in_use (b.seq + 1) out.run.next_trade_id)
          (match_into-IsPair b.config.stp inc (rounds opp + 1) inc.side (side_of inc.side b) opp
            (start_run b inc trades victims) b.config.max_orders enough
            (IsBook-IsPairOf inc.side b v))))

  -- On a book in order the match loop ends by its own tests and never by the bound of the model:
  -- self-trade prevention has stopped it, or nothing remains, or the opposite side is empty, or
  -- its best price no longer crosses.
  pub match_side-Ended : Ended b.config.stp inc out
  unfolding match_side opp
  match_side-Ended =
      match_into-Ended b.config.stp inc (rounds opp + 1) opp (start_run b inc trades victims)
        (IsBook-IsPairOf inc.side b v).opp_valid enough

  -- Matching makes no new id.
  pub match_side-fresh : (k : ℕ) → contains k b.ids ≡ false → contains k out.run.ids ≡ false
  unfolding match_side opp start_run
  match_side-fresh k e =
      let w = IsBook-IsPairOf inc.side b v in
      ground (
        arith,
        match_into-ids b.config.stp inc (rounds opp + 1) opp (start_run b inc trades victims)
            w.opp_valid enough (λ j. omega (arith, w.named j)) k,
        match_into-le b.config.stp inc (occurs k) (occurs-IsTally k) (rounds opp + 1) opp
            (start_run b inc trades victims) w.opp_valid enough,
        contains-count k b.ids,
        contains-count k out.run.ids,
      )
