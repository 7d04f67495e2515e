-- ===== src/Lib.antt =====
-- The matching core of Velox, an order-matching engine, and its order-entry protocol.
--
-- A book (engine/order_book.cpp) has two sides of price levels (book/level_map.hpp), each a queue of
-- orders (engine/price_level.hpp), with a map of the resting ids (book/order_id_map.hpp) and a pool of
-- orders (common/object_pool.hpp). A command is checked, matched against the opposite side, and what is
-- left of a limit order rests. The decoder (protocol/decoder.cpp) makes messages of a stream of bytes. A
-- session of the gateway (gateway/session.cpp) turns a client's messages into commands, which the
-- sequencer of an instrument's shard (sequencer/sequencer.hpp) numbers, makes durable and puts into a ring
-- (ipc/spsc_ring.hpp) that the matching thread empties.
--
--   * Base: Booleans, lists and signed integers over the native numbers.
--   * Common.Types: common/types.hpp.
--   * Common.ObjectPool: common/object_pool.hpp, by its free list; `create` is its constructor.
--   * Engine.Order: engine/order.hpp, engine/trade.hpp and the plain types of engine/order_book.hpp.
--   * Engine.PriceLevel: engine/price_level.hpp. A queue is a list; `head` is its first order.
--   * Book.LevelMap: book/level_map.hpp; `next_occupied` is nextOccupied over a scan of the slots.
--   * Book.IdSet: the contract of book/order_id_map.hpp that the book relies on.
--   * Engine.Match: OrderBook::matchInto; `match_queue` is its inner loop, `match_into` its outer one.
--   * Engine.OrderBook: the other functions of engine/order_book.cpp under their names (`submit_ex` is
--     submitEx), with the invariant `IsBook` and what each command does to it below it.
--   * Protocol.Wire, Messages, Encoder, Decoder: protocol/wire.hpp, message_types.hpp and messages.hpp,
--     encoder.cpp, decoder.hpp and decoder.cpp.
--   * MarketData: marketdata/feed_messages.hpp, feed_encoder.cpp, and the decoder of feed_decoder.hpp and
--     feed_decoder.cpp as Feed.
--   * Ipc.Command: ipc/command.hpp.
--   * Ipc.SpscRing: ipc/spsc_ring.hpp, its calls under their names; Threads has the steps of a producer and
--     a consumer in any order.
--   * Sequencer.Submit: sequencer/sequencer.hpp, trySubmit over any journal: JournalWriter::append is the
--     argument `append`, for which Sequencer.Writer has the definition.
--   * Common.Crc32: common/crc32.hpp.
--   * Sequencer.Format, Sequencer.Reader: sequencer/journal_format.hpp, and the reader of journal_reader.hpp
--     over the bytes of the segments. `read_records` runs on fuel, a round more than there are bytes.
--   * Sequencer.Writer: sequencer/journal_writer.hpp, append and the calls below it, over the bytes of the
--     segments. The operating system is a parameter, which says of each call by its number how it ends. A
--     segment's name is its first number, so that the list of the files is in the order of their names.
--   * Gateway.Auth: gateway/auth.hpp.
--   * Gateway.Server: gateway/gateway.hpp, the shards and routes as the sessions use them.
--   * Gateway.Router: the router of gateway/gateway.hpp; a pointer to a session that is gone is one that
--     `alive` denies.
--   * Ipc.OutboundEvent: ipc/outbound_event.hpp.
--   * Runtime.MatchingThread: runtime/matching_thread.hpp; `dispatch` and the calls below it have the names
--     of the code, and `run` is its loop over the commands that leave the ring.
--   * Gateway.Session: gateway/session.hpp and session.cpp, a function for each member function, and
--     Handlers for those that reach the server; a completion of the socket or a timer is a call
--     (`on_read`, `on_written`, `auth_timeout`, `heartbeat_tick`). The loop `process_decoded` runs on fuel,
--     one round more than the buffer has bytes.
--   * Recovery: recovery/recovery_manager.hpp. The reader of snapshots is known by what it gives, the
--     newest valid snapshot; a `Journal` is what Sequencer.Reader gives.
--   * Tests: runs, and the theorems at concrete inputs.
--
-- State is passed on: an operation returns the new state beside its results. An `Order*` is the id of
-- the order, which lives in the queue of its level alone. Of the pool, the book keeps the count of
-- used slots. Prices
-- and submitted quantities are signed; the quantity of an order that rests is positive, so a natural
-- number. `match_into` runs on fuel, one round more than the side has slots and one for the order
-- itself, since a round that goes on empties a level or the order.
--
-- Not modelled: the overflow of sums of 64-bit quantities, of the quantity of a level and of a grid of
-- prices wider than 2^63; the bytes of padding in the image of a command, which stand as zeros; the occupancy bitset, the probing of the id
-- map and the links of a queue, which stand as scan, set and list; the ring's atomic accesses other than
-- in one total order; the ring with several
-- consumers; sockets, the listing of files, and the services around the engine.
pub mod Base
pub mod Book
pub mod Common
pub mod Engine
pub mod Gateway
pub mod Ipc
pub mod MarketData
pub mod Protocol
pub mod Recovery
pub mod Runtime
pub mod Sequencer
pub mod Tests
