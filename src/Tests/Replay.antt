-- ===== src/Tests/Replay.antt =====
-- The theorems on recovery and on the feed, at concrete records.
use order_matching_engine.Base.{ℕ, ◌≡◌, refl, List, [], ◌∷◌, ◌++◌, arith}
use order_matching_engine.Base.Int.{pos, ◌+ℤ◌}
use order_matching_engine.Common.Types.{sell}
use order_matching_engine.Engine.Order.{limit}
use order_matching_engine.Engine.OrderBook.{init}
use order_matching_engine.Engine.OrderBook.Invariant.{IsBook}
use order_matching_engine.Engine.OrderBook.Start.{init-IsBook}
use order_matching_engine.Book.LevelMap.{slot_price}
use order_matching_engine.Book.LevelMap
use order_matching_engine.Ipc.Command.{Command, CommandKind, to_new_order}
use order_matching_engine.Ipc.Command
use order_matching_engine.Recovery.{ReadResult, replay}
use order_matching_engine.Recovery.Replay.{replay_resumed}
use order_matching_engine.Runtime.MatchingThread.{MatchingThread, run}
use order_matching_engine.Runtime.MatchingThread.Events.{AllOnGrid}
use order_matching_engine.Runtime.MatchingThread.Recovered.{newer, last_newer, replay-Recovered}
use order_matching_engine.MarketData.Messages.{TradeTickMsg}
use order_matching_engine.MarketData.Feed.{trade_tick, next, ok}
use order_matching_engine.MarketData.Feed.RoundTrip.{waiting, encode, next-encode}
use order_matching_engine.Tests.Engine.{small_config}
use order_matching_engine.Tests.Book.{small-IsConfig}

abbrev command : ℕ → CommandKind → Command
command id kind = record {
  id = id;
  new_id = 0;
  price = pos 10500;
  quantity = pos 10;
  participant = id;
  kind = kind;
  side = sell;
  order_type = limit;
}

abbrev entry : ℕ → ℕ → CommandKind → ReadResult
entry seq id kind = record { global_seq = seq; kind = kind; command = command id kind }

abbrev older : List ReadResult
older = entry 1 1 Command.new ∷ []

abbrev later : List ReadResult
later = entry 2 1 Command.cancel ∷ []

abbrev empty_thread : MatchingThread
empty_thread = record { book = init small_config; dispatch_seq = 0; out = [] }

-- The first record is older than the snapshot.
abbrev mixed : List ReadResult
mixed = entry 1 1 Command.new ∷ entry 2 2 Command.new ∷ entry 3 2 Command.cancel ∷ []

mixed-AllOnGrid : AllOnGrid empty_thread (newer 1 mixed)
unfolding init slot_price LevelMap.init ◌+ℤ◌ to_new_order
mixed-AllOnGrid = (λ k. (5, refl), (refl, refl))

replay-Recovered_example :
    (replay 1 (init small_config) 1 mixed
      ≡ ((run empty_thread (newer 1 mixed)).book, last_newer 1 1 mixed))
    × IsBook (replay 1 (init small_config) 1 mixed).0
replay-Recovered_example =
    replay-Recovered 1 1 empty_thread mixed (init-IsBook small_config small-IsConfig)
      mixed-AllOnGrid

last_seq : (replay 0 (init small_config) 0 older).1 ≡ 1
unfolding replay
last_seq = refl

replay_resumed_example :
    replay 1 (replay 0 (init small_config) 0 older).0 1 (older ++ later)
    ≡ replay 0 (init small_config) 0 (older ++ later)
replay_resumed_example =
    replay_resumed (init small_config) 0 1 older later (omega arith, refl) (omega arith, refl)
      last_seq

abbrev tick : TradeTickMsg
tick = record {
  instrument_id = 7;
  feed_seq = 9;
  trade_id = pos 3;
  aggressor_id = pos 42;
  passive_id = pos 41;
  price = pos 10500;
  quantity = pos 10;
  aggressor_side = 1;
}

next-encode_example :
    next (waiting (encode (trade_tick tick) ++ (1 ∷ []))) ≡ (waiting (1 ∷ []), ok (trade_tick tick))
next-encode_example = next-encode (trade_tick tick) (1 ∷ []) (record {
  instrument_id = omega arith;
  feed_seq = omega arith;
  trade_id = omega arith;
  aggressor_id = omega arith;
  passive_id = omega arith;
  price = omega arith;
  quantity = omega arith;
  aggressor_side = omega arith;
})
