-- ===== src/Runtime/MatchingThread/Recovered.antt =====
-- A replay of any journal against the live thread.
use order_matching_engine.Base.{
  ℕ, ◌≡◌, refl, ap, sym, subst, ◌∙◌, List, [], ◌∷◌, leb, ltb, if◌then◌else◌, true, false,
  Bool-cases, inl, inr, arith,
}
use order_matching_engine.Engine.OrderBook.{OrderBook}
use order_matching_engine.Engine.OrderBook.Invariant.{IsBook}
use order_matching_engine.Ipc.Command.{CommandKind, Command, to_new_order}
use order_matching_engine.Recovery.{ReadResult, apply_command, apply_record, replay, fresh_order}
use order_matching_engine.Runtime.MatchingThread.{MatchingThread, dispatch, run}
use order_matching_engine.Runtime.MatchingThread.Events.{AllOnGrid, run-Ran}
use order_matching_engine.Runtime.MatchingThread.Replayed.{dispatch-apply_command}

-- The command of a record, as the ring carried it.
abbrev pub live : ReadResult → Command
live r = record r.command { kind = r.kind }

-- The commands of the records with a number above `s`.
abbrev pub newer : ℕ → List ReadResult → List Command
newer s [] = []
newer s (r ∷ rs) = let rest = newer s rs in if ltb s r.global_seq then live r ∷ rest else rest

-- The number of the last such record, or `last` where there is none.
abbrev pub last_newer : ℕ → ℕ → List ReadResult → ℕ
last_newer s last [] = last
last_newer s last (r ∷ rs) = last_newer s (if ltb s r.global_seq then r.global_seq else last) rs

apply_record-live :
    (b : OrderBook) (r : ReadResult) → apply_record b r ≡ apply_command r.kind b (live r)
unfolding apply_record apply_command to_new_order fresh_order
apply_record-live b r = go r.kind
  where
    go :
        (k : CommandKind)
        → apply_command k b r.command ≡ apply_command k b (record r.command { kind = k })
    go CommandKind.new = refl
    go CommandKind.cancel = refl
    go CommandKind.replace = refl

replay-newer :
    (s last : ℕ) (t : MatchingThread) (rs : List ReadResult)
    → replay s t.book last rs ≡ ((run t (newer s rs)).book, last_newer s last rs)
unfolding replay run
replay-newer s last t [] = refl
replay-newer s last t (r ∷ rs) = elim (Bool-cases (ltb s r.global_seq)) [
  | inl e ↦
      let new : leb r.global_seq s ≡ false = ground arith in
      simp (e, new)
        (ap (λ b. replay s b r.global_seq rs)
            (apply_record-live t.book r ∙ sym (dispatch-apply_command t (live r)))
          ∙ replay-newer s r.global_seq (dispatch t (live r)) rs)
  | inr e ↦
      let old : leb r.global_seq s ≡ true = ground arith in simp (e, old) (replay-newer s last t rs)
]

-- On any records, older and newer ones in any order, from a book in order, where each newer
-- command has its order at a price of the grid of the book that it meets: a replay makes the book
-- that the matching thread makes of just the commands of the records with a number above the
-- snapshot's, in their order, which is in order, and ends at the number of the last of these.
pub replay-Recovered :
    (s last : ℕ) (t : MatchingThread) (rs : List ReadResult)
    → IsBook t.book
    → AllOnGrid t (newer s rs)
    → (replay s t.book last rs ≡ ((run t (newer s rs)).book, last_newer s last rs))
      × IsBook (replay s t.book last rs).0
replay-Recovered s last t rs v p =
    let e = replay-newer s last t rs in
    (e, subst (λ w. IsBook w.0) (sym e) (run-Ran t (newer s rs) v p).book)
