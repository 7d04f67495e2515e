-- ===== src/Runtime/MatchingThread/Replayed.antt =====
-- The recovery makes of the journal the book that the live thread made of the commands.
use order_matching_engine.Base.{
  ℕ, ◌+◌, ◌≤◌, ◌≡◌, sym, ap, ◌∙◌, List, [], ◌∷◌, none, some, leb, length, arith, false,
}
use order_matching_engine.Engine.OrderBook.{submit}
use order_matching_engine.Engine.OrderBook.Buffers.{submit_ex_bare, replace_bare}
use order_matching_engine.Ipc.Command.{CommandKind, Command, to_new_order}
use order_matching_engine.Recovery.{
  ReadResult, scratch, fresh_order, apply_command, apply_record, replay,
}
use order_matching_engine.Runtime.MatchingThread.{
  MatchingThread, trade_buffer, victim_buffer, dispatch_new, dispatch_cancel, dispatch_replace,
  dispatch, run,
}
use order_matching_engine.Runtime.MatchingThread.Told.{
  dispatch_new-Told, dispatch_cancel-Told, dispatch_replace-Told,
}

-- The records that the sequencer writes for some commands after the number `s`.
abbrev pub journal_of : ℕ → List Command → List ReadResult
journal_of s [] = []
journal_of s (c ∷ cs) =
    record { global_seq = s + 1; kind = c.kind; command = c } ∷ journal_of (s + 1) cs

pub dispatch-apply_command :
    (t : MatchingThread) (c : Command) → (dispatch t c).book ≡ apply_command c.kind t.book c
unfolding dispatch apply_command submit fresh_order
dispatch-apply_command t c = go c.kind
  where
    go :
        (k : CommandKind)
        → (let u : MatchingThread = record t { dispatch_seq = t.dispatch_seq + 1 } in
            (elim k as (λ _. MatchingThread) [
              | CommandKind.new ↦ dispatch_new u c
              | CommandKind.cancel ↦ dispatch_cancel u c
              | CommandKind.replace ↦ dispatch_replace u c
            ]).book
            ≡ apply_command k t.book c)
    go CommandKind.new =
        (dispatch_new-Told (record t { dispatch_seq = t.dispatch_seq + 1 }) c).book
        ∙ submit_ex_bare trade_buffer scratch (some victim_buffer) none t.book (to_new_order c)
    go CommandKind.cancel =
        (dispatch_cancel-Told (record t { dispatch_seq = t.dispatch_seq + 1 }) c).book
    go CommandKind.replace =
        (dispatch_replace-Told (record t { dispatch_seq = t.dispatch_seq + 1 }) c).book
        ∙ replace_bare trade_buffer scratch (some victim_buffer) none t.book c.id (fresh_order c)

replay_from :
    (s n : ℕ) (t : MatchingThread) (cs : List Command)
    → s ≤ n
    → replay s t.book n (journal_of n cs) ≡ ((run t cs).book, n + length cs)
unfolding run replay apply_record
replay_from s n t [] h = ap (λ k. (t.book, k)) (omega arith)
replay_from s n t (c ∷ cs) h =
    let newer : leb (n + 1) s ≡ false = ground arith in
    rw newer (
      ap (λ b. replay s b (n + 1) (journal_of (n + 1) cs)) (sym (dispatch-apply_command t c))
      ∙ replay_from s (n + 1) (dispatch t c) cs (omega arith)
      ∙ ap (λ k. ((run (dispatch t c) cs).book, k)) (omega arith))

-- Determinism: a replay, from any book and number, of the records that the sequencer writes for
-- some commands after that number makes the book that the matching thread makes of the commands
-- themselves, though the two use different buffers, and ends at the number of the last command.
pub replay-run :
    (t : MatchingThread) (cs : List Command)
    → replay t.dispatch_seq t.book t.dispatch_seq (journal_of t.dispatch_seq cs)
      ≡ ((run t cs).book, t.dispatch_seq + length cs)
replay-run t cs = replay_from t.dispatch_seq t.dispatch_seq t cs (omega arith)
