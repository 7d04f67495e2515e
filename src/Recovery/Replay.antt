-- ===== src/Recovery/Replay.antt =====
-- What a replay of the journal makes of a book.
use order_matching_engine.Base.{
  ℕ, ◌≡◌, ◌≤◌, ◌<◌, refl, sym, ap, ◌∙◌, List, [], ◌∷◌, ◌++◌, none, true, false, leb, arith,
  Bool-cases, inl, inr,
}
use order_matching_engine.Engine.OrderBook.{OrderBook, submit}
use order_matching_engine.Engine.OrderBook.Invariant.{IsBook, OnTick}
use order_matching_engine.Engine.OrderBook.Submit.{submit_ex-IsBook}
use order_matching_engine.Engine.OrderBook.Commands.{cancel-IsBook, replace-IsBook}
use order_matching_engine.Ipc.Command.{Command, CommandKind, to_new_order}
use order_matching_engine.Ipc.Command
use order_matching_engine.Recovery.{
  ReadResult, apply_command, apply_record, replay, scratch, fresh_order,
}

-- The order that a command brings is at a price of the book's grid.
abbrev pub Priced : CommandKind → OrderBook → Command → Type 0
Priced Command.new b c = OnTick b (to_new_order c)
Priced Command.cancel b c = c.id ≡ c.id
Priced Command.replace b c = OnTick b (fresh_order c)

pub apply_command-IsBook :
    (k : CommandKind) (b : OrderBook) (c : Command)
    → IsBook b
    → Priced k b c
    → IsBook (apply_command k b c)
unfolding apply_command submit
apply_command-IsBook Command.new b c v p = submit_ex-IsBook b (to_new_order c) scratch none v p
apply_command-IsBook Command.cancel b c v p = cancel-IsBook b c.id v
apply_command-IsBook Command.replace b c v p =
    replace-IsBook b c.id (fresh_order c) scratch none v p

-- The records after a snapshot.
abbrev pub AllAfter : ℕ → List ReadResult → Type 0
AllAfter s [] = s ≡ s
AllAfter s (r ∷ rs) = (s < r.global_seq) × AllAfter s rs

abbrev pub AllUpTo : ℕ → List ReadResult → Type 0
AllUpTo s [] = s ≡ s
AllUpTo s (r ∷ rs) = (r.global_seq ≤ s) × AllUpTo s rs

replay_covered :
    (s : ℕ) (b : OrderBook) (last : ℕ) (older newer : List ReadResult)
    → AllUpTo s older
    → replay s b last (older ++ newer) ≡ replay s b last newer
unfolding replay
replay_covered s b last [] newer u = refl
replay_covered s b last (r ∷ rs) newer u =
    let covered : leb r.global_seq s ≡ true = ground arith in
    rw covered (replay_covered s b last rs newer u.1)

replay_moved :
    (s t : ℕ) (b : OrderBook) (last : ℕ) (rs : List ReadResult)
    → AllAfter s rs
    → AllAfter t rs
    → replay s b last rs ≡ replay t b last rs
unfolding replay
replay_moved s t b last [] a c = refl
replay_moved s t b last (r ∷ rs) a c =
    let e : leb r.global_seq s ≡ false = ground arith in
    let f : leb r.global_seq t ≡ false = ground arith in
    rw (e, f) (replay_moved s t (apply_record b r) r.global_seq rs a.1 c.1)

replay-append :
    (s : ℕ) (b : OrderBook) (last : ℕ) (older newer : List ReadResult)
    → replay s b last (older ++ newer)
      ≡ replay s (replay s b last older).0 (replay s b last older).1 newer
unfolding replay
replay-append s b last [] newer = refl
replay-append s b last (r ∷ rs) newer = elim (Bool-cases (leb r.global_seq s)) [
  | inl t ↦ rw t (replay-append s b last rs newer)
  | inr f ↦ rw f (replay-append s (apply_record b r) r.global_seq rs newer)
]

after_none : (s : ℕ) (rs : List ReadResult) → AllAfter s rs → AllAfter 0 rs
after_none s [] a = refl
after_none s (r ∷ rs) a = (omega arith, after_none s rs a.1)

-- Where the records up to a sequence number, the last of them with that number, are followed by
-- newer ones, a replay of all the records from the state at that number, which passes over the
-- older ones, ends as the replay of all of them from the start.
pub replay_resumed :
    (b : OrderBook) (last s : ℕ) (older newer : List ReadResult)
    → AllUpTo s older
    → AllAfter s newer
    → (replay 0 b last older).1 ≡ s
    → replay s (replay 0 b last older).0 s (older ++ newer) ≡ replay 0 b last (older ++ newer)
replay_resumed b last s older newer u a e =
    let mid = (replay 0 b last older).0 in
    replay_covered s mid s older newer u
    ∙ (replay_moved s 0 mid s newer a (after_none s newer a)
        ∙ (ap (λ n. replay 0 mid n newer) (sym e) ∙ sym (replay-append 0 b last older newer)))
