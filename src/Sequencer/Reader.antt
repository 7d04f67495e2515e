-- ===== src/Sequencer/Reader.antt =====
-- sequencer/journal_reader.hpp: the reader, over the bytes of the segments in the order of their names.
-- It gives a journal as the recovery takes it.
pub mod Crash
pub mod Segments
use order_matching_engine.Base.{
  ℕ, zero, suc, ◌+◌, ◌-◌, List, [], ◌∷◌, ◌++◌, Option, none, some, elim_option, Bool, true, false,
  not, ◌||◌, ltb, ◌==◌, if◌then◌else◌, length, take, drop,
}
use order_matching_engine.Common.Crc32.{crc32}
use order_matching_engine.Ipc.Command.{Command, CommandKind}
use order_matching_engine.Protocol.Wire.{get_u8, get_u32, get_u64}
use order_matching_engine.Recovery.{
  ReadResult, ReadStatus, end_of_journal, truncated_tail, corrupt, Journal,
}
use order_matching_engine.Sequencer.Format.{kind_of_code, command_of_image, decode_header}

pub data ReadOne : Type 0 where
  reads : ReadResult → ReadOne
  ends : ReadStatus → ReadOne

unfoldable pub result_of : List ℕ → ReadResult
unfolding kind_of_code command_of_image
result_of bytes = record {
  global_seq = get_u64 (drop 4 bytes);
  kind = kind_of_code (get_u8 (drop 12 bytes));
  command = command_of_image (drop 16 bytes);
}

-- `bytes` are those of the segment from the offset on, and `last` is the last good number.
unfoldable pub read_one_record : ℕ → List ℕ → ReadOne
unfolding result_of
read_one_record last bytes =
    if length bytes == 0
    then ends end_of_journal
    else if ltb (length bytes) 16
    then ends truncated_tail
    else if not (get_u32 bytes == 48)
    then ends truncated_tail
    else if ltb (length bytes) 68
    then ends truncated_tail
    else if not (crc32 (take 64 bytes) == get_u32 (drop 64 bytes))
    then ends truncated_tail
    else if not (get_u64 (drop 4 bytes) == last + 1)
    then ends corrupt
    else reads (result_of bytes)

-- The records of a segment up to its end. A round takes 68 bytes, so that there are fewer rounds than
-- bytes.
unfoldable pub read_records : ℕ → ℕ → List ℕ → Journal
unfolding read_one_record
read_records zero last bytes = record { records = []; ending = end_of_journal }
read_records (suc n) last bytes = elim (read_one_record last bytes) as (λ _. Journal) [
  | ends s ↦ record { records = []; ending = s }
  | reads r ↦
      let j = read_records n r.global_seq (drop 68 bytes) in
      record { records = r ∷ j.records; ending = j.ending }
]

-- The bytes behind a sound header; a segment without one is passed over.
unfoldable pub open_segment : List ℕ → Option (List ℕ)
open_segment bytes =
    if ltb (length bytes) 32
    then none
    else if (decode_header bytes).1
    then some (drop 32 bytes)
    else none

unfoldable pub last_number : ℕ → List ReadResult → ℕ
last_number last [] = last
last_number last (r ∷ rs) = last_number r.global_seq rs

-- A clean end of a segment leads on to the next one.
unfoldable pub then_read : Journal → Journal → Journal
then_read j next = elim j.ending as (λ _. Journal) [
  | end_of_journal ↦ record { records = j.records ++ next.records; ending = next.ending }
  | truncated_tail ↦ j
  | corrupt ↦ j
]

unfoldable pub read_journal : ℕ → List (List ℕ) → Journal
unfolding open_segment read_records then_read last_number
read_journal last [] = record { records = []; ending = end_of_journal }
read_journal last (segment ∷ segments) =
    elim_option (open_segment segment) (read_journal last segments) (λ bytes.
      let j = read_records (suc (length bytes)) last bytes in
      then_read j (read_journal (last_number last j.records) segments))
