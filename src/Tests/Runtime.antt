-- ===== src/Tests/Runtime.antt =====
-- runtime/matching_thread.hpp at a small input.
use order_matching_engine.Base.{◌≡◌, List, [], ◌∷◌}
use order_matching_engine.Ipc.Command.{Command, CommandKind}
use order_matching_engine.Runtime.MatchingThread.{MatchingThread, run}
use order_matching_engine.Tests.Book.{one_offer, bid}
use order_matching_engine.Recovery.{replay}
use order_matching_engine.Runtime.MatchingThread.Replayed.{journal_of, replay-run}

abbrev bid_command : Command
bid_command = record {
  id = bid.id;
  new_id = 0;
  price = bid.price;
  quantity = bid.quantity;
  participant = bid.participant;
  kind = CommandKind.new;
  side = bid.side;
  order_type = bid.kind;
}

abbrev cancel_command : Command
cancel_command = record bid_command { id = 1; kind = CommandKind.cancel }

abbrev thread : MatchingThread
thread = record { book = one_offer; dispatch_seq = 1; out = [] }

abbrev commands : List Command
commands = bid_command ∷ cancel_command ∷ []

replay-run_example : replay 1 one_offer 1 (journal_of 1 commands) ≡ ((run thread commands).book, 3)
replay-run_example = replay-run thread commands
