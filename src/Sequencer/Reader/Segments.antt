-- ===== src/Sequencer/Reader/Segments.antt =====
-- A journal of many segments, the last of which a crash has cut off.
use order_matching_engine.Base.{
  ℕ, zero, suc, ◌+◌, ◌*◌, ◌^◌, ◌<◌, ◌≤◌, ◌≡◌, refl, sym, ap, ◌∙◌, List, [], ◌∷◌, ◌++◌, map,
  map-append, append_assoc, append-nil, true, false, ltb, some, length, length-append, length-take,
  take, drop, arith,
}
use order_matching_engine.Recovery.{end_of_journal, Journal}
use order_matching_engine.Sequencer.Format.{
  SegmentHeader, JournalRecord, header_body, encode_header, decode_header,
}
use order_matching_engine.Sequencer.Format.RoundTrip.{decode_header-encode_header}
use order_matching_engine.Protocol.Wire.{put_u32, put_u64, put_bytes}
use order_matching_engine.Sequencer.Reader.{
  read_records, open_segment, last_number, then_read, read_journal,
}
use order_matching_engine.Sequencer.Reader.Crash.{
  IsWritten, file_of, length-file_of, result, ending_of, crash_safe,
}

-- A segment that the writer has closed.
pub record Segment : Type 0 where
  pub header : SegmentHeader
  pub records : List JournalRecord

abbrev pub bytes_of : Segment → List ℕ
bytes_of s = encode_header s.header ++ file_of s.records

abbrev pub last_of : ℕ → List JournalRecord → ℕ
last_of last [] = last
last_of last (r ∷ rs) = last_of r.global_seq rs

abbrev pub IsHeader : SegmentHeader → Type 0
IsHeader h = (h.first_seq < 2 ^ 64) × (h.created_counter < 2 ^ 64)

-- Segments in a row, the numbers of whose records go on from one to the next.
pub data AreWritten : ℕ → List Segment → ℕ → Type 0 where
  none_yet : (last : ℕ) → AreWritten last [] last
  one_segment :
      (last end : ℕ) (s : Segment) (ss : List Segment)
      → IsHeader s.header
      → IsWritten last s.records
      → AreWritten (last_of last s.records) ss end
      → AreWritten last (s ∷ ss) end

abbrev pub records_of : List Segment → List JournalRecord
records_of [] = []
records_of (s ∷ ss) = s.records ++ records_of ss

last_number-map :
    (last : ℕ) (rs : List JournalRecord) → last_number last (map result rs) ≡ last_of last rs
unfolding last_number
last_number-map last [] = refl
last_number-map last (r ∷ rs) = last_number-map r.global_seq rs

pub length-encode_header : (h : SegmentHeader) → length (encode_header h) ≡ 32
unfolding encode_header header_body put_u32 put_u64 put_bytes
length-encode_header h = refl

drop-encode_header : (h : SegmentHeader) (rest : List ℕ) → drop 32 (encode_header h ++ rest) ≡ rest
unfolding encode_header header_body put_u32 put_u64 put_bytes
drop-encode_header h rest = refl

not_short : {a b : ℕ} → b ≤ a → ltb a b ≡ false
not_short h = ground (arith, h)

open_segment_lem :
    (bytes : List ℕ)
    → 32 ≤ length bytes
    → (decode_header bytes).1 ≡ true
    → open_segment bytes ≡ some (drop 32 bytes)
unfolding open_segment
open_segment_lem bytes long sound = rw (not_short long, sound) refl

open_segment-encode_header :
    (h : SegmentHeader) (rest : List ℕ)
    → IsHeader h
    → open_segment (encode_header h ++ rest) ≡ some rest
open_segment-encode_header h rest v =
    open_segment_lem (encode_header h ++ rest)
      (omega (arith, length-append (encode_header h) rest, length-encode_header h))
      (ap (λ d. d.1) (decode_header-encode_header h rest v.0 v.1))
    ∙ ap some (drop-encode_header h rest)

pub take_all : (xs : List ℕ) (n : ℕ) → length xs ≤ n → take n xs ≡ xs
take_all [] zero h = refl
take_all [] (suc n) h = refl
take_all (x ∷ xs) zero h = absurd (omega arith)
take_all (x ∷ xs) (suc n) h = ap (λ l. x ∷ l) (take_all xs n (omega arith))

pub take_records : (rs : List JournalRecord) → take (length rs) rs ≡ rs
take_records [] = refl
take_records (r ∷ rs) = ap (λ l. r ∷ l) (take_records rs)

read_records-file_of :
    (last fuel : ℕ) (rs : List JournalRecord)
    → IsWritten last rs
    → length rs < fuel
    → read_records fuel last (file_of rs)
      ≡ record { records = map result rs; ending = end_of_journal }
read_records-file_of last fuel rs w lt =
    ap (λ b. read_records fuel last b)
      (sym (take_all (file_of rs) (68 * length rs + 0) (omega (arith, length-file_of rs))))
    ∙ crash_safe last (length rs) 0 fuel rs w (omega arith) (omega (arith, length-file_of rs)) lt
    ∙ ap (λ l. record { records = map result l; ending = end_of_journal }) (take_records rs)

-- One segment, sound in its header, and the rest of the journal.
read_journal_step :
    (last : ℕ) (segment bytes : List ℕ) (segments : List (List ℕ)) (j : Journal)
    → open_segment segment ≡ some bytes
    → read_records (suc (length bytes)) last bytes ≡ j
    → read_journal last (segment ∷ segments)
      ≡ then_read j (read_journal (last_number last j.records) segments)
unfolding read_journal
read_journal_step last segment bytes segments j e f = rw (e, f) refl

pub read_journal-nil :
    (last : ℕ) → read_journal last [] ≡ record { records = []; ending = end_of_journal }
unfolding read_journal
read_journal-nil last = refl

-- The last segment, cut off at any byte behind its header.
read_journal-cut :
    (last k e : ℕ) (h : SegmentHeader) (rs : List JournalRecord)
    → IsHeader h
    → IsWritten last rs
    → e < 68
    → 68 * k + e ≤ length (file_of rs)
    → read_journal last ((encode_header h ++ take (68 * k + e) (file_of rs)) ∷ [])
      ≡ record { records = map result (take k rs); ending = ending_of e }
unfolding then_read
read_journal-cut last k e h rs v w small within =
    read_journal_step last _ (take (68 * k + e) (file_of rs)) []
      (record { records = map result (take k rs); ending = ending_of e })
      (open_segment-encode_header h (take (68 * k + e) (file_of rs)) v)
      (crash_safe last k e (suc (length (take (68 * k + e) (file_of rs)))) rs w small within
        (omega (arith, length-take (68 * k + e) (file_of rs), within)))
    ∙ ends e
  where
    ends :
        (n : ℕ)
        → then_read
            (record { records = map result (take k rs); ending = ending_of n })
            (read_journal (last_number last (map result (take k rs))) [])
          ≡ record { records = map result (take k rs); ending = ending_of n }
    ends zero =
        ap (λ l. record { records = map result (take k rs) ++ l.records; ending = l.ending })
          (read_journal-nil (last_number last (map result (take k rs))))
        ∙ ap (λ l. record { records = l; ending = end_of_journal })
            (append-nil (map result (take k rs)))
    ends (suc n) = refl

-- Crash safety: of segments with sound headers, whose records are numbered on from one to the next
-- with fields in the ranges of their types, the last cut off at any byte behind its header, the
-- reader gives just the records that are there in whole, in order, and ends with a torn tail where
-- a part of a record is left and with the end of the journal otherwise.
pub read_journal_crash :
    (last end k e : ℕ) (ss : List Segment) (h : SegmentHeader) (rs : List JournalRecord)
    → AreWritten last ss end
    → IsHeader h
    → IsWritten end rs
    → e < 68
    → 68 * k + e ≤ length (file_of rs)
    → read_journal last
        (map bytes_of ss ++ ((encode_header h ++ take (68 * k + e) (file_of rs)) ∷ []))
      ≡ record { records = map result (records_of ss ++ take k rs); ending = ending_of e }
unfolding then_read
read_journal_crash last end k e [] h rs (none_yet _) v w small within =
    read_journal-cut last k e h rs v w small within
read_journal_crash last end k e (s ∷ ss) h rs (one_segment _ _ _ _ good here more) v w small
      within =
    let tail : List (List ℕ) =
      map bytes_of ss ++ ((encode_header h ++ take (68 * k + e) (file_of rs)) ∷ []) in
    read_journal_step last (bytes_of s) (file_of s.records) tail
      (record { records = map result s.records; ending = end_of_journal })
      (open_segment-encode_header s.header (file_of s.records) good)
      (read_records-file_of last (suc (length (file_of s.records))) s.records here
        (omega (arith, length-file_of s.records)))
    ∙ ap (λ l. record { records = map result s.records ++ l.records; ending = l.ending })
        (ap (λ n. read_journal n tail) (last_number-map last s.records)
          ∙ read_journal_crash (last_of last s.records) end k e ss h rs more v w small within)
    ∙ ap (λ l. record { records = l; ending = ending_of e })
        (sym (map-append result s.records (records_of ss ++ take k rs))
          ∙ ap (map result) (sym (append_assoc s.records (records_of ss) (take k rs))))
