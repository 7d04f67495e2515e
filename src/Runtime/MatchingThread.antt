-- ===== src/Runtime/MatchingThread.antt =====
-- runtime/matching_thread.hpp: the commands that leave the ring, dispatched one by one. `out` are the
-- events published so far; a publication waits until the ring out has room, so that none is lost.
pub mod Told
pub mod Events
pub mod Replayed
pub mod Recovered
use order_matching_engine.Base.{
  ℕ, ◌+◌, List, [], ◌∷◌, ◌++◌, Bool, true, false, not, Option, none, some, if◌then◌else◌,
  elim_option,
}
use order_matching_engine.Base.Int.{pos}
use order_matching_engine.Common.Types.{Side}
use order_matching_engine.Engine.Order.{
  NewOrder, SubmitStatus, ok, rejected_unknown_order, rejected_invalid_quantity,
  rejected_price_out_of_range, rejected_duplicate_id, Trade, TradeBuffer, StpVictim,
  StpVictimBuffer, OrderResult, no_result,
}
use order_matching_engine.Engine.OrderBook.{OrderBook, Submitted, submit_ex, cancel, replace}
use order_matching_engine.Ipc.Command.{CommandKind, Command, to_new_order}
use order_matching_engine.Ipc.OutboundEvent.{
  OutboundEvent, OrderUpdate, UpdateAction, trade_event, status_event, order_update_event,
}
use order_matching_engine.Ipc.OutboundEvent

pub record MatchingThread : Type 0 where
  pub book : OrderBook
  pub dispatch_seq : ℕ
  pub out : List OutboundEvent

-- The buffers, cleared.
abbrev pub trade_buffer : TradeBuffer
trade_buffer = record { slots = []; capacity = 1024; count = 0 }

abbrev pub victim_buffer : StpVictimBuffer
victim_buffer = record { slots = []; capacity = 1024; count = 0 }

unfoldable pub publish_outbound : MatchingThread → OutboundEvent → MatchingThread
publish_outbound t e = record t { out = t.out ++ (e ∷ []) }

unfoldable pub publish_trades : MatchingThread → List Trade → MatchingThread
unfolding publish_outbound trade_event
publish_trades t [] = t
publish_trades t (x ∷ xs) = publish_trades (publish_outbound t (trade_event x t.dispatch_seq)) xs

unfoldable pub victim_update : StpVictim → OrderUpdate
victim_update v = record {
  order_id = v.id;
  price = v.price;
  quantity = pos v.quantity;
  remaining = v.remaining;
  participant = v.participant;
  seq = v.seq;
}

unfoldable pub publish_stp_victims : MatchingThread → List StpVictim → MatchingThread
unfolding publish_outbound order_update_event victim_update
publish_stp_victims t [] = t
publish_stp_victims t (v ∷ vs) =
    publish_stp_victims
      (publish_outbound t
        (order_update_event UpdateAction.cancelled v.side (victim_update v) t.dispatch_seq ok))
      vs

unfoldable pub victim_list : Option StpVictimBuffer → List StpVictim
victim_list none = []
victim_list (some b) = b.slots

unfoldable pub update_of : ℕ → OrderResult → OrderUpdate
update_of id r = record {
  order_id = id;
  price = r.price;
  quantity = r.quantity;
  remaining = r.remaining;
  participant = r.participant;
  seq = r.seq;
}

unfoldable pub emit_order_update : MatchingThread → ℕ → Side → OrderResult → MatchingThread
unfolding publish_outbound order_update_event update_of
emit_order_update t id side r = publish_outbound t (
    if r.rested
    then order_update_event UpdateAction.rested r.side (update_of id r) t.dispatch_seq ok
    else order_update_event UpdateAction.rejected side (update_of id r) t.dispatch_seq r.status)

-- The test of `status != Ok`.
unfoldable pub is_ok : SubmitStatus → Bool
is_ok ok = true
is_ok _ = false

-- The tail of a new order or a replacement: the trades, and the orders that self-trade prevention
-- took out.
unfoldable pub publish_fills : MatchingThread → Submitted → MatchingThread
unfolding publish_trades publish_stp_victims victim_list
publish_fills t s = publish_stp_victims (publish_trades t s.trades.slots) (victim_list s.victims)

unfoldable pub dispatch_new : MatchingThread → Command → MatchingThread
unfolding publish_fills publish_outbound status_event emit_order_update to_new_order is_ok
dispatch_new t c =
    let s = submit_ex t.book (to_new_order c) trade_buffer (some victim_buffer) in
    let u = publish_fills (record t { book = s.book }) s in
    let w =
      if is_ok s.result.status
      then u
      else publish_outbound u (status_event c.id s.result.status u.dispatch_seq) in
    emit_order_update w c.id c.side s.result

unfoldable pub dispatch_cancel : MatchingThread → Command → MatchingThread
unfolding publish_outbound status_event order_update_event update_of is_ok
dispatch_cancel t c =
    let r = cancel t.book c.id in
    let u : MatchingThread =
      publish_outbound (record t { book = r.0 }) (status_event c.id r.1.status t.dispatch_seq) in
    if is_ok r.1.status
    then publish_outbound u
        (order_update_event UpdateAction.cancelled r.1.side (update_of c.id r.1) t.dispatch_seq ok)
    else u

-- The statuses of a replacement that never got to cancel.
unfoldable pub rejected_before_dispatch : SubmitStatus → Bool
rejected_before_dispatch rejected_unknown_order = true
rejected_before_dispatch rejected_invalid_quantity = true
rejected_before_dispatch rejected_price_out_of_range = true
rejected_before_dispatch rejected_duplicate_id = true
rejected_before_dispatch _ = false

unfoldable pub dispatch_replace : MatchingThread → Command → MatchingThread
unfolding publish_fills publish_outbound status_event order_update_event update_of emit_order_update
    to_new_order rejected_before_dispatch
dispatch_replace t c =
    let fresh : NewOrder = record (to_new_order c) { id = c.new_id } in
    let got = replace t.book c.id fresh trade_buffer (some victim_buffer) in
    let s : Submitted = got.0 in
    let old : OrderResult = elim_option got.1 no_result (λ r. r) in
    let before = rejected_before_dispatch s.result.status in
    let u : MatchingThread = record t { book = s.book } in
    let v =
      if before
      then u
      else publish_outbound u (
          order_update_event UpdateAction.cancelled old.side (update_of c.id old) u.dispatch_seq
            ok) in
    let w = publish_fills v s in
    let x = publish_outbound w (status_event c.new_id s.result.status w.dispatch_seq) in
    if before then x else emit_order_update x c.new_id fresh.side s.result

unfoldable pub dispatch : MatchingThread → Command → MatchingThread
unfolding dispatch_new dispatch_cancel dispatch_replace
dispatch t c =
    let u : MatchingThread = record t { dispatch_seq = t.dispatch_seq + 1 } in
    elim c.kind as (λ _. MatchingThread) [
      | CommandKind.new ↦ dispatch_new u c
      | CommandKind.cancel ↦ dispatch_cancel u c
      | CommandKind.replace ↦ dispatch_replace u c
    ]

-- The loop, over the commands as they leave the ring.
unfoldable pub run : MatchingThread → List Command → MatchingThread
unfolding dispatch
run t [] = t
run t (c ∷ cs) = run (dispatch t c) cs
