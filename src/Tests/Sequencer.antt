-- ===== src/Tests/Sequencer.antt =====
-- sequencer/sequencer.hpp at a small input, with the writer of the journal, and with a journal that is
-- the list of its records.
use order_matching_engine.Base.{
  ◌<◌, ◌^◌, refl, ℕ, List, [], ◌∷◌, ◌++◌, Bool, true, false, ltb, length, arith,
}
use order_matching_engine.Base.Int.{pos}
use order_matching_engine.Common.Types.{buy}
use order_matching_engine.Engine.Order.{OrderType}
use order_matching_engine.Ipc.Command.{Command, CommandKind}
use order_matching_engine.Ipc.SpscRing.{empty_ring}
use order_matching_engine.Ipc.SpscRing.Refine.{Holds, empty_ring-Holds}
use order_matching_engine.Sequencer.Submit.{Sequencer, Append, try_submit}
use order_matching_engine.Sequencer.Submit.History.{Submitted, try_submit-Submitted}
use order_matching_engine.Sequencer.Format.{JournalRecord}
use order_matching_engine.Sequencer.Format.RoundTrip.{IsCommand}
use order_matching_engine.Sequencer.Writer.{OperatingSystem, per_record, JournalWriter, new_writer}
use order_matching_engine.Sequencer.Writer.Durable.{
  Event, submits, takes, AreCommands, IsJournaled, start_run, run_events, durable_first,
}

abbrev order : ℕ → Command
order n = record {
  id = n;
  new_id = 0;
  price = pos 100;
  quantity = pos 5;
  participant = 1;
  kind = CommandKind.new;
  side = buy;
  order_type = OrderType.limit;
}

-- A journal of three records is full.
abbrev small_append : Append (List JournalRecord)
small_append j n kind c = elim (ltb (length j) 3) as (λ _. List JournalRecord × Bool) [
  | true ↦ (j ++ (record { global_seq = n; kind = kind; command = c } ∷ []), true)
  | false ↦ (j, false)
]

abbrev fresh : Sequencer (List JournalRecord)
fresh = record { journal = []; ring = empty_ring 2 (order 0); seq = 0 }

fresh-Holds : Holds fresh.ring []
fresh-Holds = empty_ring-Holds 2 (order 0) (omega arith)

try_submit-Submitted_example :
    Submitted small_append fresh [] CommandKind.new
      (order 1)
      (try_submit small_append fresh CommandKind.new (order 1))
try_submit-Submitted_example =
    try_submit-Submitted small_append fresh [] CommandKind.new (order 1) fresh-Holds

-- Files open and are synced, and a write takes all it is given.
abbrev healthy : OperatingSystem
healthy = record { opens = λ n. true; accepts = λ n. 100; syncs = λ n. true }

-- A segment has room for one record.
abbrev fresh_journal : Sequencer JournalWriter
fresh_journal = record {
  journal = new_writer 100 1 per_record;
  ring = empty_ring 2 (order 0);
  seq = 0;
}

abbrev events : List Event
events =
    submits CommandKind.new (order 1)
    ∷ submits CommandKind.new (order 2)
    ∷ submits CommandKind.new (order 3)
    ∷ takes
    ∷ submits CommandKind.new (order 3)
    ∷ []

order-IsCommand : (n : ℕ) → n < 2 ^ 64 → IsCommand (order n)
order-IsCommand n h = record {
  id = h;
  new_id = omega arith;
  price = omega arith;
  quantity = omega arith;
  participant = omega arith;
}

events-AreCommands : AreCommands events
events-AreCommands = (
  order-IsCommand 1 (omega arith),
  (
    order-IsCommand 2 (omega arith),
    (order-IsCommand 3 (omega arith), (order-IsCommand 3 (omega arith), refl)),
  ),
)

durable_first_example :
    IsJournaled healthy 0 (run_events healthy (start_run healthy fresh_journal) events)
durable_first_example =
    durable_first healthy fresh_journal events 100 1 per_record refl
      (empty_ring-Holds 2 (order 0) (omega arith)) (omega arith) events-AreCommands
