-- ===== src/Runtime/MatchingThread/Events.antt =====
-- The events that the matching thread publishes, command by command.
use order_matching_engine.Base.{
  ℕ, ◌+◌, ◌≡◌, sym, ap, ap₂, subst, ◌∙◌, List, [], ◌∷◌, ◌++◌, append_assoc, append-nil, some,
  elim_option, length, arith,
}
use order_matching_engine.Engine.Order.{no_result}
use order_matching_engine.Engine.OrderBook.{OrderBook, submit_ex, cancel, replace}
use order_matching_engine.Engine.OrderBook.Invariant.{IsBook}
use order_matching_engine.Ipc.Command.{CommandKind, Command, to_new_order}
use order_matching_engine.Ipc.OutboundEvent.{OutboundEvent, Payload}
use order_matching_engine.Recovery.{fresh_order, apply_command}
use order_matching_engine.Recovery.Replay.{Priced, apply_command-IsBook}
use order_matching_engine.Runtime.MatchingThread.{
  MatchingThread, trade_buffer, victim_buffer, dispatch_new, dispatch_cancel, dispatch_replace,
  dispatch, run,
}
use order_matching_engine.Runtime.MatchingThread.Told.{
  stamped, news_of_new, news_of_cancel, news_of_replace, dispatch_cancel-Told, dispatch_new-Told,
  dispatch_replace-Told,
}
use order_matching_engine.Runtime.MatchingThread.Replayed.{dispatch-apply_command}

-- What is to be told of a command that meets the book `b`.
abbrev pub news : CommandKind → OrderBook → Command → List Payload
news CommandKind.new b c =
    news_of_new (submit_ex b (to_new_order c) trade_buffer (some victim_buffer)) c
news CommandKind.cancel b c = news_of_cancel (cancel b c.id).1 c
news CommandKind.replace b c =
    let got = replace b c.id (fresh_order c) trade_buffer (some victim_buffer) in
    news_of_replace got.0 (elim_option got.1 no_result (λ r. r)) c

-- What is to be told of some commands after the number `n`, the first of which meets the book `b`, and
-- each other the book that a replay of those before it makes.
abbrev pub all_news : OrderBook → ℕ → List Command → List OutboundEvent
all_news b n [] = []
all_news b n (c ∷ cs) =
    stamped (n + 1) (news c.kind b c) ++ all_news (apply_command c.kind b c) (n + 1) cs

-- Each command has its order at a price of the grid of the book that it meets.
abbrev pub AllOnGrid : MatchingThread → List Command → Type 0
AllOnGrid t [] = t ≡ t
AllOnGrid t (c ∷ cs) = Priced c.kind t.book c × AllOnGrid (dispatch t c) cs

dispatch-published :
    (t : MatchingThread) (c : Command)
    → ((dispatch t c).dispatch_seq ≡ t.dispatch_seq + 1)
      × ((dispatch t c).out ≡ t.out ++ stamped (t.dispatch_seq + 1) (news c.kind t.book c))
unfolding dispatch
dispatch-published t c = go c.kind
  where
    go :
        (k : CommandKind)
        → (let u : MatchingThread = record t { dispatch_seq = t.dispatch_seq + 1 } in
            let d : MatchingThread = elim k as (λ _. MatchingThread) [
              | CommandKind.new ↦ dispatch_new u c
              | CommandKind.cancel ↦ dispatch_cancel u c
              | CommandKind.replace ↦ dispatch_replace u c
            ] in
            (d.dispatch_seq ≡ t.dispatch_seq + 1)
            × (d.out ≡ t.out ++ stamped (t.dispatch_seq + 1) (news k t.book c)))
    go CommandKind.new =
        let told = dispatch_new-Told (record t { dispatch_seq = t.dispatch_seq + 1 }) c in
        (told.same, told.published)
    go CommandKind.cancel =
        let told = dispatch_cancel-Told (record t { dispatch_seq = t.dispatch_seq + 1 }) c in
        (told.same, told.published)
    go CommandKind.replace =
        let told = dispatch_replace-Told (record t { dispatch_seq = t.dispatch_seq + 1 }) c in
        (told.same, told.published)

dispatch-IsBook :
    (t : MatchingThread) (c : Command)
    → IsBook t.book
    → Priced c.kind t.book c
    → IsBook (dispatch t c).book
dispatch-IsBook t c v p =
    subst IsBook (sym (dispatch-apply_command t c)) (apply_command-IsBook c.kind t.book c v p)

-- A run of the thread over some commands.
pub record Ran (t d : MatchingThread) (cs : List Command) : Type 0 where
  pub book : IsBook d.book
  pub number : d.dispatch_seq ≡ t.dispatch_seq + length cs
  pub published : d.out ≡ t.out ++ all_news t.book t.dispatch_seq cs

pub run-Ran :
    (t : MatchingThread) (cs : List Command) → IsBook t.book → AllOnGrid t cs → Ran t (run t cs) cs
unfolding run
run-Ran t [] v p = record { book = v; number = omega arith; published = sym (append-nil t.out) }
run-Ran t (c ∷ cs) v p =
    let d = dispatch-published t c in
    let rest = run-Ran (dispatch t c) cs (dispatch-IsBook t c v p.0) p.1 in
    let first = stamped (t.dispatch_seq + 1) (news c.kind t.book c) in
    record {
      book = rest.book;
      number = omega (arith, rest.number, d.0);
      published =
          rest.published
          ∙ ap₂ (λ b n. (dispatch t c).out ++ all_news b n cs) (dispatch-apply_command t c) d.0
          ∙ ap (λ l. l ++ all_news (apply_command c.kind t.book c) (t.dispatch_seq + 1) cs) d.1
          ∙ append_assoc t.out first
              (all_news (apply_command c.kind t.book c) (t.dispatch_seq + 1) cs);
    }
