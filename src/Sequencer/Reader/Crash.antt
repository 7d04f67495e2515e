-- ===== src/Sequencer/Reader/Crash.antt =====
-- What the reader makes of a segment that a crash has cut off at any byte.
use order_matching_engine.Base.{
  ℕ, zero, suc, ◌+◌, ◌-◌, ◌*◌, ◌^◌, ◌<◌, ◌≤◌, ◌≡◌, refl, sym, ap, ◌∙◌, List, [], ◌∷◌, ◌++◌, map,
  true, false, ltb, ◌==◌, length, length-append, length-take, take, drop, arith, Bool-cases, inl,
  inr,
}
use order_matching_engine.Common.Crc32.{crc32}
use order_matching_engine.Protocol.Wire.{get_bytes, get_u32, get_u64}
use order_matching_engine.Recovery.{ReadResult, ReadStatus, end_of_journal, truncated_tail, Journal}
use order_matching_engine.Sequencer.Format.{JournalRecord, encode_record}
use order_matching_engine.Sequencer.Format.RoundTrip.{
  IsCommand, Found, encode_record-Found, length-encode_record,
}
use order_matching_engine.Sequencer.Reader.{
  ReadOne, reads, ends, result_of, read_one_record, read_records,
}

-- What the reader is to give for a record.
abbrev pub result : JournalRecord → ReadResult
result r = record { global_seq = r.global_seq; kind = r.kind; command = r.command }

-- Records that a writer appends after the number `last`.
pub data IsWritten : ℕ → List JournalRecord → Type 0 where
  nothing : (last : ℕ) → IsWritten last []
  one_more :
      (last : ℕ) (r : JournalRecord) (rs : List JournalRecord)
      → r.global_seq ≡ last + 1
      → r.global_seq < 2 ^ 64
      → IsCommand r.command
      → IsWritten r.global_seq rs
      → IsWritten last (r ∷ rs)

abbrev pub file_of : List JournalRecord → List ℕ
file_of [] = []
file_of (r ∷ rs) = encode_record r ++ file_of rs

pub length-file_of : (rs : List JournalRecord) → length (file_of rs) ≡ 68 * length rs
length-file_of [] = refl
length-file_of (r ∷ rs) =
    omega (
      arith,
      length-append (encode_record r) (file_of rs),
      length-encode_record r,
      length-file_of rs,
    )

same_test : {a b : ℕ} → a ≡ b → (a == b) ≡ true
same_test e = ground (arith, e)

empty_test : {a : ℕ} → 0 < a → (a == 0) ≡ false
empty_test h = ground (arith, h)

long_test : {a b : ℕ} → b ≤ a → ltb a b ≡ false
long_test h = ground (arith, h)

short_test : {a b : ℕ} → a < b → ltb a b ≡ true
short_test h = ground (arith, h)

long_of : {a b : ℕ} → ltb a b ≡ false → b ≤ a
long_of h = ground (arith, h)

get_bytes-take : (k n : ℕ) (xs : List ℕ) → k ≤ n → get_bytes k (take n xs) ≡ get_bytes k xs
unfolding get_bytes
get_bytes-take zero n xs h = refl
get_bytes-take (suc k) zero xs h = absurd (omega arith)
get_bytes-take (suc k) (suc n) [] h = refl
get_bytes-take (suc k) (suc n) (x ∷ xs) h =
    ap (λ b. x + 256 * b) (get_bytes-take k n xs (omega arith))

get_u32-take : (n : ℕ) (xs : List ℕ) → 4 ≤ n → get_u32 (take n xs) ≡ get_u32 xs
unfolding get_u32
get_u32-take n xs h = get_bytes-take 4 n xs h

pub read_one_record-encode_record :
    (last : ℕ) (r : JournalRecord) (rest : List ℕ)
    → r.global_seq ≡ last + 1
    → r.global_seq < 2 ^ 64
    → IsCommand r.command
    → read_one_record last (encode_record r ++ rest) ≡ reads (result r)
unfolding read_one_record result_of
read_one_record-encode_record last r rest e small v =
    let all : List ℕ = encode_record r ++ rest in
    let f : Found r all = encode_record-Found r rest small v in
    let n : length all ≡ 68 + length rest =
      length-append (encode_record r) rest ∙ ap (λ k. k + length rest) (length-encode_record r) in
    let not_empty : (length all == 0) ≡ false = empty_test (omega (arith, n)) in
    let enough : ltb (length all) 16 ≡ false = long_test (omega (arith, n)) in
    let whole : ltb (length all) 68 ≡ false = long_test (omega (arith, n)) in
    let size : (get_u32 all == 48) ≡ true = same_test f.size in
    let sound : (crc32 (take 64 all) == get_u32 (drop 64 all)) ≡ true =
      same_test (ap crc32 f.body ∙ sym f.checksum) in
    let next : (get_u64 (drop 4 all) == last + 1) ≡ true = same_test (f.number ∙ e) in
    rw (not_empty, enough, whole, size, sound, next)
      (λ i. reads (record { global_seq = f.number i; kind = f.kind i; command = f.command i }))

-- A part of a record, cut off before its end.
pub read_one_record-take :
    (last n : ℕ) (r : JournalRecord) (rest : List ℕ)
    → r.global_seq < 2 ^ 64
    → IsCommand r.command
    → 0 < n
    → n < 68
    → read_one_record last (take n (encode_record r ++ rest)) ≡ ends truncated_tail
unfolding read_one_record
read_one_record-take last n r rest small v pos lt =
    let all : List ℕ = encode_record r ++ rest in
    let cut : List ℕ = take n all in
    let m : length cut ≡ n =
      length-take n all
      ∙ omega (arith, length-append (encode_record r) rest, length-encode_record r) in
    let not_empty : (length cut == 0) ≡ false = empty_test (omega (arith, m, pos)) in
    let short : ltb (length cut) 68 ≡ true = short_test (omega (arith, m, lt)) in
    elim (Bool-cases (ltb (length cut) 16)) [
      | inl e ↦ rw (not_empty, e) refl
      | inr e ↦
          let size : (get_u32 cut == 48) ≡ true = same_test (
            get_u32-take n all (omega (arith, long_of e, m))
            ∙ (encode_record-Found r rest small v).size) in
          rw (not_empty, e, size, short) refl
    ]

take-append_le :
    (n : ℕ) (xs ys : List ℕ) → length xs ≤ n → take n (xs ++ ys) ≡ xs ++ take (n - length xs) ys
take-append_le n [] ys h = ap (λ k. take k ys) (omega arith)
take-append_le zero (x ∷ xs) ys h = absurd (omega arith)
take-append_le (suc n) (x ∷ xs) ys h =
    ap (λ l. x ∷ l) (take-append_le n xs ys (omega arith) ∙ ap (λ k. xs ++ take k ys) (omega arith))

drop_append : (xs ys : List ℕ) → drop (length xs) (xs ++ ys) ≡ ys
drop_append [] ys = refl
drop_append (x ∷ xs) ys = drop_append xs ys

-- The end that the cut leaves to be seen.
abbrev pub ending_of : ℕ → ReadStatus
ending_of zero = end_of_journal
ending_of (suc n) = truncated_tail

read_records-ends :
    (n last : ℕ) (bytes : List ℕ) (s : ReadStatus)
    → read_one_record last bytes ≡ ends s
    → read_records (suc n) last bytes ≡ record { records = []; ending = s }
unfolding read_records
read_records-ends n last bytes s e = go (read_one_record last bytes) e
  where
    go :
        (o : ReadOne)
        → o ≡ ends s
        → (elim o as (λ _. Journal) [
          | ends s ↦ record { records = []; ending = s }
          | reads r ↦
              let j = read_records n r.global_seq (drop 68 bytes) in
              record { records = r ∷ j.records; ending = j.ending }
        ])
          ≡ record { records = []; ending = s }
    go o e = rw e refl

read_records-reads :
    (n last : ℕ) (bytes : List ℕ) (r : ReadResult)
    → read_one_record last bytes ≡ reads r
    → read_records (suc n) last bytes ≡ (
        let j = read_records n r.global_seq (drop 68 bytes) in
        record { records = r ∷ j.records; ending = j.ending })
unfolding read_records
read_records-reads n last bytes r e = go (read_one_record last bytes) e
  where
    go :
        (o : ReadOne)
        → o ≡ reads r
        → (elim o as (λ _. Journal) [
          | ends s ↦ record { records = []; ending = s }
          | reads r ↦
              let j = read_records n r.global_seq (drop 68 bytes) in
              record { records = r ∷ j.records; ending = j.ending }
        ])
          ≡ (let j = read_records n r.global_seq (drop 68 bytes) in
              record { records = r ∷ j.records; ending = j.ending })
    go o e = rw e refl

read_one_record-nil : (last : ℕ) → read_one_record last [] ≡ ends end_of_journal
unfolding read_one_record
read_one_record-nil last = refl

pub crash_safe :
    (last k e fuel : ℕ) (rs : List JournalRecord)
    → IsWritten last rs
    → e < 68
    → 68 * k + e ≤ length (file_of rs)
    → k < fuel
    → read_records fuel last (take (68 * k + e) (file_of rs))
      ≡ record { records = map result (take k rs); ending = ending_of e }
crash_safe last k e zero rs w small within lt = absurd (omega arith)
crash_safe last zero zero (suc n) rs w small within lt =
    read_records-ends n last [] end_of_journal (read_one_record-nil last)
crash_safe last zero (suc e) (suc n) rs (nothing _) small within lt = absurd (omega arith)
crash_safe last (suc k) e (suc n) rs (nothing _) small within lt = absurd (omega arith)
crash_safe last zero (suc e) (suc n) rs (one_more _ r more here range v w) small within lt =
    read_records-ends n last _ truncated_tail (
      read_one_record-take last (68 * 0 + suc e) r (file_of more) range v (omega arith)
        (omega arith))
crash_safe last (suc k) e (suc n) rs (one_more _ r more here range v w) small within lt =
    let size : length (encode_record r) ≡ 68 = length-encode_record r in
    let rest : List ℕ = take (68 * k + e) (file_of more) in
    let cut : take (68 * suc k + e) (encode_record r ++ file_of more) ≡ encode_record r ++ rest =
      take-append_le (68 * suc k + e) (encode_record r) (file_of more) (omega (arith, size))
      ∙ ap (λ m. encode_record r ++ take m (file_of more)) (omega (arith, size)) in
    let after : drop 68 (encode_record r ++ rest) ≡ rest =
      ap (λ m. drop m (encode_record r ++ rest)) (sym size) ∙ drop_append (encode_record r) rest in
    ap (λ b. read_records (suc n) last b) cut
    ∙ read_records-reads n last (encode_record r ++ rest) (result r)
        (read_one_record-encode_record last r rest here range v)
    ∙ ap (λ j. record { records = result r ∷ j.records; ending = j.ending })
        (ap (λ b. read_records n r.global_seq b) after
          ∙ crash_safe r.global_seq k e n more w small
              (omega (arith, within, length-append (encode_record r) (file_of more), size))
              (omega arith))
