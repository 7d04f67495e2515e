-- ===== src/Engine/OrderBook/Buffers.antt =====
-- What a command makes of the book does not depend on the buffers that it is given.
use order_matching_engine.Base.{ℕ, ◌+◌, ◌≡◌, refl, sym, ap, ◌∙◌, Option, none, some}
use order_matching_engine.Engine.Order.{NewOrder, SubmitStatus, TradeBuffer, StpVictimBuffer}
use order_matching_engine.Engine.Match.{MatchResult}
use order_matching_engine.Engine.Match.Buffers.{bare_result, match_into_bare}
use order_matching_engine.Common.Types.{opposite}
use order_matching_engine.Engine.OrderBook.{
  OrderBook, side_of, rounds, start_run, match_side, matched, matched_result, conclude, rejection,
  submit_checked, submit_ex, cancel, replace_rejection, replace_checked, replace,
}

conclude_bare :
    (b : OrderBook) (inc : NewOrder) (out : MatchResult)
    → conclude b inc out ≡ conclude b inc (bare_result out)
unfolding conclude matched matched_result
conclude_bare b inc out = refl

module _ (t t' : TradeBuffer) (v v' : Option StpVictimBuffer) where
  match_side_bare :
      (b : OrderBook) (inc : NewOrder)
      → bare_result (match_side b inc t v) ≡ bare_result (match_side b inc t' v')
  unfolding match_side start_run
  match_side_bare b inc =
      let m = side_of (opposite inc.side) b in
      match_into_bare (rounds m + 1) b.config.stp inc m (start_run b inc t v)
      ∙ sym (match_into_bare (rounds m + 1) b.config.stp inc m (start_run b inc t' v'))

  submit_checked_bare :
      (s : Option SubmitStatus) (b : OrderBook) (inc : NewOrder)
      → (submit_checked s b inc t v).book ≡ (submit_checked s b inc t' v').book
  unfolding submit_checked
  submit_checked_bare (some status) b inc = refl
  submit_checked_bare none b inc =
      ap (λ x. x.0) (conclude_bare b inc (match_side b inc t v))
      ∙ ap (λ o. (conclude b inc o).0) (match_side_bare b inc)
      ∙ sym (ap (λ x. x.0) (conclude_bare b inc (match_side b inc t' v')))

  pub submit_ex_bare :
      (b : OrderBook) (inc : NewOrder) → (submit_ex b inc t v).book ≡ (submit_ex b inc t' v').book
  unfolding submit_ex
  submit_ex_bare b inc = submit_checked_bare (rejection b inc) b inc

  replace_checked_bare :
      (s : Option SubmitStatus) (b : OrderBook) (id : ℕ) (inc : NewOrder)
      → (replace_checked s b id inc t v).0.book ≡ (replace_checked s b id inc t' v').0.book
  unfolding replace_checked
  replace_checked_bare (some status) b id inc = refl
  replace_checked_bare none b id inc = submit_ex_bare (cancel b id).0 inc

  pub replace_bare :
      (b : OrderBook) (id : ℕ) (inc : NewOrder)
      → (replace b id inc t v).0.book ≡ (replace b id inc t' v').0.book
  unfolding replace
  replace_bare b id inc = replace_checked_bare (replace_rejection b id inc) b id inc
