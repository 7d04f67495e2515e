-- ===== src/Engine/OrderBook/Conserve.antt =====
-- Where the quantity of a submitted order goes.
use order_matching_engine.Base.{
  ℕ, ◌+◌, ◌≡◌, refl, ◌∙◌, List, arith, Option, none, some, Bool-cases, ltb, inl, inr, ◌==◌,
}
use order_matching_engine.Base.Int.{pos_part}
use order_matching_engine.Common.Types.{Side, buy, sell, opposite}
use order_matching_engine.Engine.Order.{
  Order, NewOrder, SubmitStatus, OrderType, limit, market, ioc, fok, TradeBuffer, StpVictimBuffer,
  OrderResult,
}
use order_matching_engine.Engine.PriceLevel.Counted.{sum_remaining}
use order_matching_engine.Book.LevelMap.{LevelMap, add_order}
use order_matching_engine.Book.IdSet.{insert}
use order_matching_engine.Engine.Match.{
  MatchResult, MatchOutcome, exhausted, no_longer_crosses, stp_fired,
}
use order_matching_engine.Engine.Match.Conserve.{Kept, KeptVictims, victim_quantity, sum_traded}
use order_matching_engine.Engine.Match.Totals.{over_side, match_into-flow, match_into-trades}
use order_matching_engine.Engine.OrderBook.{
  OrderBook, side_of, put_side, rejection, rest_residual, rested, order_of, settle, conclude,
  conclude_as, matched, matched_result, match_side, start_run, rounds, submit_ex, submit_checked,
  Submitted,
}
use order_matching_engine.Engine.OrderBook.Invariant.{
  IsBook, IsBook-IsPairOf, side_of-put_side, start-Enough,
}

opp_side-put :
    (s : Side) (m : LevelMap) (b : OrderBook)
    → side_of (opposite s) (put_side s m b) ≡ side_of (opposite s) b
unfolding side_of put_side opposite
opp_side-put buy m b = refl
opp_side-put sell m b = refl

-- Resting the residual leaves the opposite side and the numbers of the result alone.
record Settled (b : OrderBook) (inc : NewOrder) (res : OrderResult) (out : OrderBook × OrderResult)
    : Type 0 where
  opp : side_of (opposite inc.side) out.0 ≡ side_of (opposite inc.side) b
  filled : out.1.filled ≡ res.filled
  remaining : out.1.remaining ≡ res.remaining

side_of-pooled :
    (s : Side) (b : OrderBook) (ids : List ℕ) (in_use : ℕ)
    → side_of s (record b { ids = ids; in_use = in_use }) ≡ side_of s b
unfolding side_of
side_of-pooled buy b ids in_use = refl
side_of-pooled sell b ids in_use = refl

rested-opp :
    (b : OrderBook) (o : Order)
    → side_of (opposite o.side) (rested b o) ≡ side_of (opposite o.side) b
unfolding rested
rested-opp b o =
    opp_side-put o.side (add_order (side_of o.side b) o) _
    ∙ side_of-pooled (opposite o.side) b (insert o.id b.ids) (b.in_use + 1)

settle-Settled :
    (kind : OrderType) (b : OrderBook) (inc : NewOrder) (res : OrderResult)
    → Settled b inc res (settle kind b inc res)
unfolding settle rest_residual order_of
settle-Settled limit b inc res = elim (Bool-cases (res.remaining == 0)) [
  | inl z ↦ rw z (record { opp = refl; filled = refl; remaining = refl })
  | inr more ↦ elim (Bool-cases (ltb b.in_use b.config.max_orders)) [
    | inr full ↦ rw (more, full) (record { opp = refl; filled = refl; remaining = refl })
    | inl space ↦
        rw (more, space)
          (record {
            opp = rested-opp b (order_of inc res.remaining res.seq);
            filled = refl;
            remaining = refl;
          })
  ]
]
settle-Settled fok b inc res = record { opp = refl; filled = refl; remaining = refl }
settle-Settled market b inc res = record { opp = refl; filled = refl; remaining = refl }
settle-Settled ioc b inc res = record { opp = refl; filled = refl; remaining = refl }

conclude_as-Settled :
    (outcome : MatchOutcome) (b : OrderBook) (inc : NewOrder) (res : OrderResult)
    → Settled b inc res (conclude_as outcome b inc res)
unfolding conclude_as
conclude_as-Settled exhausted b inc res = settle-Settled inc.kind b inc res
conclude_as-Settled no_longer_crosses b inc res = settle-Settled inc.kind b inc res
conclude_as-Settled stp_fired b inc res = record { opp = refl; filled = refl; remaining = refl }

-- What a submission does with quantities: to the order, to the trades and to the other side.
pub record Flow (b : OrderBook) (inc : NewOrder) (trades : TradeBuffer)
    (victims : Option StpVictimBuffer) (s : Submitted) : Type 0 where
  pub shared : s.result.filled + s.result.remaining ≡ pos_part inc.quantity
  pub traded : sum_traded s.trades.slots ≡ sum_traded trades.slots + s.result.filled
  pub taken :
      over_side sum_remaining (side_of (opposite inc.side) b) + victim_quantity victims
      ≡ over_side sum_remaining (side_of (opposite inc.side) s.book)
        + victim_quantity s.victims
        + s.result.filled

matched-opp :
    (b : OrderBook) (inc : NewOrder) (out : MatchResult)
    → side_of (opposite inc.side) (matched b inc out) ≡ out.side
unfolding matched
matched-opp b inc out = side_of-put_side (opposite inc.side) out.side _

submit_checked-Flow :
    (status : Option SubmitStatus) (b : OrderBook) (inc : NewOrder) (trades : TradeBuffer)
    (victims : Option StpVictimBuffer)
    → IsBook b
    → status ≡ none
    → let s = submit_checked status b inc trades victims in
      Kept s.trades → KeptVictims s.victims → Flow b inc trades victims s
unfolding submit_checked conclude match_side matched_result start_run
submit_checked-Flow (some status) b inc trades victims v e = absurd (ground arith)
submit_checked-Flow none b inc trades victims v e = λ kept kept_victims.
    let opp = side_of (opposite inc.side) b in
    let enough =
      start-Enough b.config.stp inc opp (start_run b inc trades victims)
        (IsBook-IsPairOf inc.side b v).opp_valid in
    let out = match_side b inc trades victims in
    let done = conclude_as-Settled out.outcome (matched b inc out) inc (matched_result b inc out) in
    let t =
      match_into-trades b.config.stp inc (rounds opp + 1) opp (start_run b inc trades victims)
        (IsBook-IsPairOf inc.side b v).opp_valid enough kept in
    let f =
      match_into-flow b.config.stp inc (rounds opp + 1) opp (start_run b inc trades victims)
        (IsBook-IsPairOf inc.side b v).opp_valid enough kept_victims in
    record {
      shared = omega (arith, done.filled, done.remaining, t);
      traded = omega (arith, done.filled, t);
      taken = rw (done.opp, matched-opp b inc out) (omega (arith, done.filled, f));
    }

-- Quantity is conserved by an accepted submission on a book in order, where both buffers keep all
-- that is pushed: filled and remaining make up the quantity asked for, the trades gain just what
-- is filled, and the opposite side loses just what is filled and what self-trade prevention takes
-- out.
pub submit_ex-Flow :
    (b : OrderBook) (inc : NewOrder) (trades : TradeBuffer) (victims : Option StpVictimBuffer)
    → IsBook b
    → rejection b inc ≡ none
    → Kept (submit_ex b inc trades victims).trades
    → KeptVictims (submit_ex b inc trades victims).victims
    → Flow b inc trades victims (submit_ex b inc trades victims)
unfolding submit_ex
submit_ex-Flow b inc trades victims v e =
    submit_checked-Flow (rejection b inc) b inc trades victims v e
