-- ===== src/Tests/Engine.antt =====
-- Runs of the book.
use order_matching_engine.Base.{ℕ, List, [], ◌∷◌}
use order_matching_engine.Base.Int.{pos}
use order_matching_engine.Common.Types.{Side, buy, sell}
use order_matching_engine.Engine.Order.{
  NewOrder, OrderType, limit, cancel_aggressor, BookConfig, TradeBuffer, SubmitStatus,
}
use order_matching_engine.Engine.OrderBook.{OrderBook, init, submit}

abbrev pub small_config : BookConfig
small_config = record {
  min_price = pos 10000;
  max_price = pos 12000;
  tick = 100;
  max_orders = 8;
  stp = cancel_aggressor;
}

abbrev pub order : ℕ → Side → OrderType → ℕ → ℕ → ℕ → NewOrder
order id side kind price quantity participant = record {
  id = id;
  price = pos price;
  quantity = pos quantity;
  participant = participant;
  side = side;
  kind = kind;
}

abbrev pub empty_buffer : TradeBuffer
empty_buffer = record { slots = []; capacity = 16; count = 0 }

abbrev submit_all :
    OrderBook → TradeBuffer → List NewOrder → OrderBook × TradeBuffer × List SubmitStatus
submit_all b t [] = (b, t, [])
submit_all b t (o ∷ os) =
    let (b', s, t') = submit b o t in let (b'', t'', ss) = submit_all b' t' os in (b'', t'', s ∷ ss)

abbrev session : List NewOrder
session =
    order 1 sell limit 10500 10 1
    ∷ order 2 sell limit 10400 5 2
    ∷ order 3 sell limit 10400 5 3
    ∷ order 4 buy limit 10300 7 4
    ∷ order 5 buy limit 10500 12 5
    ∷ []

run1 : OrderBook × TradeBuffer × List SubmitStatus
run1 = submit_all (init small_config) empty_buffer session
