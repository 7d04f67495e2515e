-- ===== src/Recovery.antt =====
-- recovery/recovery_manager.hpp: a book from a snapshot and a journal. The readers of the two are
-- known by what they give: the newest valid snapshot, and the records of the journal with its end.
pub mod Replay
use order_matching_engine.Base.{
  ℕ, ◌+◌, List, [], ◌∷◌, Bool, true, false, Option, none, some, leb, if◌then◌else◌, elim_option,
}
use order_matching_engine.Base.Int.{ℤ, pos}
use order_matching_engine.Common.Types.{Price, Side}
use order_matching_engine.Engine.Order.{NewOrder, limit, TradeBuffer}
use order_matching_engine.Engine.OrderBook.{
  OrderBook, submit, cancel, replace, restore_resting, restore_counters,
}
use order_matching_engine.Ipc.Command.{Command, CommandKind, to_new_order}
use order_matching_engine.Ipc.Command

-- A `ReadResult` with the status `Ok`.
pub record ReadResult : Type 0 where
  pub global_seq : ℕ
  pub kind : CommandKind
  pub command : Command

-- How the reader ends.
pub data ReadStatus : Type 0 where
  end_of_journal truncated_tail corrupt : ReadStatus

pub record Journal : Type 0 where
  pub records : List ReadResult
  pub ending : ReadStatus

pub data RecoveryStatus : Type 0 where
  ok torn_tail corrupt : RecoveryStatus

pub record SnapshotOrder : Type 0 where
  pub id : ℕ
  pub price : Price
  pub quantity : ℤ
  pub remaining : ℕ
  pub participant : ℕ
  pub side : Side
  pub seq : ℕ

pub record Snapshot : Type 0 where
  pub orders : List SnapshotOrder
  pub book_seq : ℕ
  pub next_trade_id : ℕ
  pub global_seq : ℕ

pub record Recovered : Type 0 where
  pub book : OrderBook
  pub status : RecoveryStatus
  pub last_seq : ℕ

unfoldable pub order_of_record : SnapshotOrder → NewOrder
order_of_record r = record {
  id = r.id;
  price = r.price;
  quantity = r.quantity;
  participant = r.participant;
  side = r.side;
  kind = limit;
}

-- The orders up to the first that cannot be restored, and whether there was none such.
unfoldable pub restore_all : OrderBook → List SnapshotOrder → OrderBook × Bool
restore_all b [] = (b, true)
restore_all b (r ∷ rs) =
    elim_option (restore_resting b (order_of_record r) r.remaining r.seq) (b, false)
      (λ b'. restore_all b' rs)

-- The trades of a replay are written to a buffer of its own.
abbrev pub scratch : TradeBuffer
scratch = record { slots = []; capacity = 64; count = 0 }

-- The fresh order of a replacement.
unfoldable pub fresh_order : Command → NewOrder
fresh_order c = record (to_new_order c) { id = c.new_id }

unfoldable pub apply_command : CommandKind → OrderBook → Command → OrderBook
apply_command Command.new b c = (submit b (to_new_order c) scratch).0
apply_command Command.cancel b c = (cancel b c.id).0
apply_command Command.replace b c = (replace b c.id (fresh_order c) scratch none).0.book

unfoldable pub apply_record : OrderBook → ReadResult → OrderBook
apply_record b r = apply_command r.kind b r.command

-- The records that the snapshot covers are passed over.
unfoldable pub replay : ℕ → OrderBook → ℕ → List ReadResult → OrderBook × ℕ
replay snapshot_seq b last [] = (b, last)
replay snapshot_seq b last (r ∷ rs) =
    let skipped = replay snapshot_seq b last rs in
    let applied = replay snapshot_seq (apply_record b r) r.global_seq rs in
    if leb r.global_seq snapshot_seq then skipped else applied

unfoldable pub status_of : ReadStatus → RecoveryStatus
status_of end_of_journal = ok
status_of truncated_tail = torn_tail
status_of ReadStatus.corrupt = RecoveryStatus.corrupt

unfoldable pub replay_journal : ℕ → OrderBook → Journal → Recovered
replay_journal snapshot_seq b j =
    let out = replay snapshot_seq b snapshot_seq j.records in
    record { book = out.0; status = status_of j.ending; last_seq = out.1 }

unfoldable pub recover : OrderBook → Option Snapshot → Journal → Recovered
recover b none j = replay_journal 0 b j
recover b (some s) j =
    let restored = restore_all b s.orders in
    if restored.1
    then replay_journal s.global_seq (restore_counters restored.0 s.book_seq s.next_trade_id) j
    else record { book = restored.0; status = RecoveryStatus.corrupt; last_seq = 0 }
