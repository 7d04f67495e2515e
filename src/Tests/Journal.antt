-- ===== src/Tests/Journal.antt =====
-- The journal's bytes at small inputs.
use order_matching_engine.Base.{
  ℕ, ◌+◌, ◌*◌, ◌^◌, ◌<◌, ◌≡◌, refl, List, [], ◌∷◌, ◌++◌, map, take, true, arith,
}
use order_matching_engine.Base.Int.{pos}
use order_matching_engine.Common.Types.{buy}
use order_matching_engine.Common.Crc32.{table_step, table_entry, crc_loop, crc32}
use order_matching_engine.Engine.Order.{OrderType}
use order_matching_engine.Ipc.Command.{Command, CommandKind}
use order_matching_engine.Recovery.{truncated_tail}
use order_matching_engine.Sequencer.Format.{
  SegmentHeader, JournalRecord, encode_header, decode_header,
}
use order_matching_engine.Sequencer.Format.RoundTrip.{IsCommand, decode_header-encode_header}
use order_matching_engine.Sequencer.Reader.{read_records, read_journal}
use order_matching_engine.Sequencer.Reader.Segments.{
  Segment, bytes_of, records_of, none_yet, one_segment, read_journal_crash,
}
use order_matching_engine.Sequencer.Reader.Crash.{
  IsWritten, nothing, one_more, file_of, length-file_of, result, crash_safe,
}

-- The value that the comment on `crc32` gives for the digits from 1 to 9.
crc32_test : crc32 (49 ∷ 50 ∷ 51 ∷ 52 ∷ 53 ∷ 54 ∷ 55 ∷ 56 ∷ 57 ∷ []) ≡ 0xCBF43926
unfolding crc32 crc_loop table_entry table_step
crc32_test = refl

abbrev bid : ℕ → Command
bid n = record {
  id = n;
  new_id = 0;
  price = pos 100;
  quantity = pos 5;
  participant = 1;
  kind = CommandKind.new;
  side = buy;
  order_type = OrderType.limit;
}

abbrev bid_record : ℕ → JournalRecord
bid_record n = record { global_seq = n; kind = CommandKind.new; command = bid n }

bid-IsCommand : (n : ℕ) → n < 2 ^ 64 → IsCommand (bid n)
bid-IsCommand n h = record {
  id = h;
  new_id = omega arith;
  price = (omega arith, omega arith);
  quantity = (omega arith, omega arith);
  participant = omega arith;
}

abbrev two_records : List JournalRecord
two_records = bid_record 5 ∷ bid_record 6 ∷ []

two_records-IsWritten : IsWritten 4 two_records
two_records-IsWritten =
    one_more 4 (bid_record 5) (bid_record 6 ∷ []) refl (omega arith) (bid-IsCommand 5 (omega arith))
      (one_more 5 (bid_record 6) [] refl (omega arith) (bid-IsCommand 6 (omega arith)) (nothing 6))

-- The second record lacks its last byte.
crash_safe_test :
    read_records 9 4 (take (68 * 1 + 67) (file_of two_records))
    ≡ record { records = map result (take 1 two_records); ending = truncated_tail }
crash_safe_test =
    crash_safe 4 1 67 9 two_records two_records-IsWritten (omega arith)
      (omega (arith, length-file_of two_records)) (omega arith)

abbrev header : SegmentHeader
header = record { first_seq = 5; created_counter = 1 }

header_test : decode_header (encode_header header ++ (1 ∷ 2 ∷ [])) ≡ (header, true)
header_test = decode_header-encode_header header (1 ∷ 2 ∷ []) (omega arith) (omega arith)

-- One whole segment, and one whose second record lacks its last byte.
abbrev closed_segments : List Segment
closed_segments = record { header = header; records = two_records } ∷ []

abbrev more_records : List JournalRecord
more_records = bid_record 7 ∷ bid_record 8 ∷ []

more_records-IsWritten : IsWritten 6 more_records
more_records-IsWritten =
    one_more 6 (bid_record 7) (bid_record 8 ∷ []) refl (omega arith) (bid-IsCommand 7 (omega arith))
      (one_more 7 (bid_record 8) [] refl (omega arith) (bid-IsCommand 8 (omega arith)) (nothing 8))

read_journal_crash_example :
    read_journal 4 (
      map bytes_of closed_segments
      ++ ((encode_header header ++ take (68 * 1 + 67) (file_of more_records)) ∷ []))
    ≡ record {
      records = map result (records_of closed_segments ++ take 1 more_records);
      ending = truncated_tail;
    }
read_journal_crash_example =
    read_journal_crash 4 6 1 67 closed_segments header more_records
      (one_segment 4 6 (record { header = header; records = two_records }) []
        (omega arith, omega arith) two_records-IsWritten (none_yet 6))
      (omega arith, omega arith) more_records-IsWritten (omega arith)
      (omega (arith, length-file_of more_records))
