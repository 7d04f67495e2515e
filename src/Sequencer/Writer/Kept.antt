-- ===== src/Sequencer/Writer/Kept.antt =====
-- The segments that the writer leaves after appends that have succeeded.
use order_matching_engine.Base.{
  ℕ, ◌+◌, ◌*◌, ◌^◌, ◌<◌, ◌≤◌, ◌≡◌, refl, sym, ap, subst, ◌∙◌, List, [], ◌∷◌, ◌++◌, map, map-append,
  append_assoc, append-nil, Bool, true, false, Option, none, some, elim_option, ltb, ◌==◌, length,
  length-take, take, if◌then◌else◌, arith, Bool-cases, inl, inr,
}
use order_matching_engine.Ipc.Command.{Command, CommandKind}
use order_matching_engine.Sequencer.Format.{
  SegmentHeader, JournalRecord, encode_header, encode_record,
}
use order_matching_engine.Sequencer.Format.RoundTrip.{IsCommand, length-encode_record}
use order_matching_engine.Sequencer.Reader.Crash.{
  IsWritten, nothing, one_more, file_of, length-file_of, result,
}
use order_matching_engine.Sequencer.Reader.Segments.{
  Segment, bytes_of, last_of, IsHeader, AreWritten, none_yet, one_segment, records_of, take_all,
  length-encode_header, read_journal-nil, take_records, read_journal_crash,
}
use order_matching_engine.Sequencer.Reader.{read_journal}
use order_matching_engine.Recovery.{end_of_journal}
use order_matching_engine.Sequencer.Writer.{
  OperatingSystem, SegmentFile, JournalWriter, without, sync, write_header, open_segment,
  close_file, roll_segment, make_room, is_due, write_record, append, segments,
}

abbrev pub contents : List SegmentFile → List (List ℕ)
contents fs = map (λ (f : SegmentFile). f.bytes) fs

abbrev pub NamesUpTo : ℕ → List SegmentFile → Type 0
NamesUpTo n [] = n ≡ n
NamesUpTo n (f ∷ fs) = (f.name ≤ n) × NamesUpTo n fs

NamesUpTo-suc : (n : ℕ) (fs : List SegmentFile) → NamesUpTo n fs → NamesUpTo (n + 1) fs
NamesUpTo-suc n [] h = refl
NamesUpTo-suc n (f ∷ fs) h = (omega (arith, h.0), NamesUpTo-suc n fs h.1)

NamesUpTo-snoc :
    (n : ℕ) (fs : List SegmentFile) (f : SegmentFile)
    → NamesUpTo n fs
    → f.name ≤ n
    → NamesUpTo n (fs ++ (f ∷ []))
NamesUpTo-snoc n [] f h e = (e, refl)
NamesUpTo-snoc n (g ∷ fs) f h e = (h.0, NamesUpTo-snoc n fs f h.1 e)

without-new : (n : ℕ) (fs : List SegmentFile) → NamesUpTo n fs → without (n + 1) fs ≡ fs
unfolding without
without-new n [] h = refl
without-new n (f ∷ fs) h =
    let other : (f.name == n + 1) ≡ false = ground (arith, h.0) in
    rw other (ap (λ l. f ∷ l) (without-new n fs h.1))

take_full :
    (n k : ℕ) (xs : List ℕ) → length xs ≡ k → (length (take n xs) == k) ≡ true → take n xs ≡ xs
take_full n k xs e f = take_all xs n (ground (arith, e, f, length-take n xs))

AreWritten-snoc :
    (last mid : ℕ) (ss : List Segment) (h : SegmentHeader) (rs : List JournalRecord)
    → AreWritten last ss mid
    → IsHeader h
    → IsWritten mid rs
    → AreWritten last (ss ++ (record { header = h; records = rs } ∷ [])) (last_of mid rs)
AreWritten-snoc last mid _ h rs (none_yet _) good w =
    one_segment last (last_of mid rs) (record { header = h; records = rs }) [] good w
      (none_yet (last_of mid rs))
AreWritten-snoc last mid _ h rs (one_segment _ _ s ss v here more) good w =
    one_segment last (last_of mid rs) s _ v here
      (AreWritten-snoc (last_of last s.records) mid ss h rs more good w)

records_of-snoc :
    (ss : List Segment) (h : SegmentHeader) (rs : List JournalRecord)
    → records_of (ss ++ (record { header = h; records = rs } ∷ [])) ≡ records_of ss ++ rs
records_of-snoc [] h rs = append-nil rs
records_of-snoc (s ∷ ss) h rs =
    ap (λ l. s.records ++ l) (records_of-snoc ss h rs)
    ∙ sym (append_assoc s.records (records_of ss) rs)

IsWritten-snoc :
    (last : ℕ) (rs : List JournalRecord) (r : JournalRecord)
    → IsWritten last rs
    → r.global_seq ≡ last_of last rs + 1
    → r.global_seq < 2 ^ 64
    → IsCommand r.command
    → IsWritten last (rs ++ (r ∷ []))
IsWritten-snoc last _ r (nothing _) e small v = one_more last r [] e small v (nothing r.global_seq)
IsWritten-snoc last _ r (one_more _ x rs f here u w) e small v =
    one_more last x (rs ++ (r ∷ [])) f here u (IsWritten-snoc x.global_seq rs r w e small v)

last_of-snoc :
    (last : ℕ) (rs : List JournalRecord) (r : JournalRecord)
    → last_of last (rs ++ (r ∷ [])) ≡ r.global_seq
last_of-snoc last [] r = refl
last_of-snoc last (x ∷ rs) r = last_of-snoc x.global_seq rs r

file_of-snoc :
    (rs : List JournalRecord) (r : JournalRecord)
    → file_of (rs ++ (r ∷ [])) ≡ file_of rs ++ encode_record r
file_of-snoc [] r = append-nil (encode_record r)
file_of-snoc (x ∷ rs) r =
    ap (λ l. encode_record x ++ l) (file_of-snoc rs r)
    ∙ sym (append_assoc (encode_record x) (file_of rs) (encode_record r))

-- No file is open, and the files hold the records `es`, which go from `last` to `end`.
pub record Closed (last : ℕ) (w : JournalWriter) (es : List JournalRecord) (end : ℕ) : Type 0 where
  pub ss : List Segment
  pub files : contents w.closed ≡ map bytes_of ss
  pub names : NamesUpTo end w.closed
  pub written : AreWritten last ss end
  pub counter : w.created_counter ≤ end
  pub records : es ≡ records_of ss

-- A file is open, and with it the files hold the records `es`, which go from `last` to `end`; names and
-- the counter of the files are within `bound`.
pub record Going (last : ℕ) (w : JournalWriter) (es : List JournalRecord) (end bound : ℕ)
    : Type 0 where
  pub ss : List Segment
  pub mid : ℕ
  pub name : ℕ
  pub header : SegmentHeader
  pub rs : List JournalRecord
  pub files : contents w.closed ≡ map bytes_of ss
  pub names : NamesUpTo bound w.closed
  pub named : name ≤ bound
  pub file : w.current ≡ some (record { name = name; bytes = encode_header header ++ file_of rs })
  pub written : AreWritten last ss mid
  pub good : IsHeader header
  pub here : IsWritten mid rs
  pub counter : w.created_counter ≤ bound
  pub records : es ≡ records_of ss ++ rs
  pub number : end ≡ last_of mid rs

module _ (os : OperatingSystem) (last : ℕ) where
  close_file-Closed :
      (w : JournalWriter) (es : List JournalRecord) (end : ℕ)
      → Going last w es end end
      → Closed last (close_file w) es end
  unfolding close_file
  close_file-Closed w es end g =
      let f : SegmentFile = record {
        name = g.name;
        bytes = encode_header g.header ++ file_of g.rs;
      } in
      let s : Segment = record { header = g.header; records = g.rs } in
      rw g.file (record {
        ss = g.ss ++ (s ∷ []);
        files =
            map-append (λ (x : SegmentFile). x.bytes) w.closed (f ∷ [])
            ∙ ap (λ l. l ++ (bytes_of s ∷ [])) g.files
            ∙ sym (map-append bytes_of g.ss (s ∷ []));
        names = NamesUpTo-snoc end w.closed f g.names g.named;
        written =
            subst (λ n. AreWritten last (g.ss ++ (s ∷ [])) n) (sym g.number)
              (AreWritten-snoc last g.mid g.ss g.header g.rs g.written g.good g.here);
        counter = g.counter;
        records = g.records ∙ sym (records_of-snoc g.ss g.header g.rs);
      })

  open_segment-Going :
      (w : JournalWriter) (es : List JournalRecord) (end : ℕ)
      → Closed last w es end
      → end + 1 < 2 ^ 64
      → (open_segment os w (end + 1)).1 ≡ true
      → Going last (open_segment os w (end + 1)).0 es end (end + 1)
  unfolding open_segment write_header
  open_segment-Going w es end c small = elim (Bool-cases (os.opens w.calls)) [
    | inr e ↦ simp e (λ f. absurd (ground (arith, f)))
    | inl e ↦
        let h : SegmentHeader = record {
          first_seq = end + 1;
          created_counter = w.created_counter;
        } in
        let n : ℕ = os.accepts (w.calls + 1) in
        elim (Bool-cases (length (take n (encode_header h)) == 32)) [
          | inr f ↦ simp (e, f) (λ g. absurd (ground (arith, g)))
          | inl f ↦
              simp (e, f)
                (λ g. record {
                  ss = c.ss;
                  mid = end;
                  name = end + 1;
                  header = h;
                  rs = [];
                  files = ap contents (without-new end w.closed c.names) ∙ c.files;
                  names =
                      subst (NamesUpTo (end + 1)) (sym (without-new end w.closed c.names))
                        (NamesUpTo-suc end w.closed c.names);
                  named = omega arith;
                  file =
                      ap (λ b. some (record { name = end + 1; bytes = b }))
                        (take_full n 32 (encode_header h) (length-encode_header h) f
                          ∙ sym (append-nil (encode_header h)));
                  written = c.written;
                  good = (small, omega (arith, c.counter, small));
                  here = nothing end;
                  counter = omega (arith, c.counter);
                  records = c.records ∙ sym (append-nil (records_of c.ss));
                  number = refl;
                })
        ]
  ]

  sync-same :
      (w : JournalWriter)
      → ((sync os w).0.closed ≡ w.closed)
        × ((sync os w).0.current ≡ w.current)
        × ((sync os w).0.created_counter ≡ w.created_counter)
  unfolding sync
  sync-same w = go w.current
    where
      go :
          (o : Option SegmentFile)
          → (let r : JournalWriter × Bool =
                elim_option o
                  (w, true)
                  (λ f.
                    if os.syncs w.calls
                    then (record w { pending_unsynced = 0; calls = w.calls + 1 }, true)
                    else (record w { calls = w.calls + 1 }, false)) in
              (r.0.closed ≡ w.closed)
              × (r.0.current ≡ w.current)
              × (r.0.created_counter ≡ w.created_counter))
      go none = (refl, refl, refl)
      go (some f) = elim (Bool-cases (os.syncs w.calls)) [
        | inl e ↦ simp e (refl, refl, refl)
        | inr e ↦ simp e (refl, refl, refl)
      ]

  -- What the files hold shows in three fields.
  Going-same :
      (w u : JournalWriter) (es : List JournalRecord) (end bound : ℕ)
      → u.closed ≡ w.closed
      → u.current ≡ w.current
      → u.created_counter ≡ w.created_counter
      → Going last w es end bound
      → Going last u es end bound
  Going-same w u es end bound a b c g = record {
    ss = g.ss;
    mid = g.mid;
    name = g.name;
    header = g.header;
    rs = g.rs;
    files = ap contents a ∙ g.files;
    names = subst (NamesUpTo bound) (sym a) g.names;
    named = g.named;
    file = b ∙ g.file;
    written = g.written;
    good = g.good;
    here = g.here;
    counter = omega (arith, c, g.counter);
    records = g.records;
    number = g.number;
  }

  sync-Going :
      (w : JournalWriter) (es : List JournalRecord) (end bound : ℕ)
      → Going last w es end bound
      → Going last (sync os w).0 es end bound
  sync-Going w es end bound g =
      let s = sync-same w in Going-same w (sync os w).0 es end bound s.0 s.1 s.2 g

  Going-suc :
      (w : JournalWriter) (es : List JournalRecord) (end : ℕ)
      → Going last w es end end
      → Going last w es end (end + 1)
  Going-suc w es end g = record {
    ss = g.ss;
    mid = g.mid;
    name = g.name;
    header = g.header;
    rs = g.rs;
    files = g.files;
    names = NamesUpTo-suc end w.closed g.names;
    named = omega (arith, g.named);
    file = g.file;
    written = g.written;
    good = g.good;
    here = g.here;
    counter = omega (arith, g.counter);
    records = g.records;
    number = g.number;
  }

  roll_segment-Going :
      (w : JournalWriter) (es : List JournalRecord) (end : ℕ)
      → Going last w es end end
      → end + 1 < 2 ^ 64
      → (roll_segment os w (end + 1)).1 ≡ true
      → Going last (roll_segment os w (end + 1)).0 es end (end + 1)
  unfolding roll_segment
  roll_segment-Going w es end g small = elim (Bool-cases (sync os w).1) [
    | inr e ↦ simp e (λ f. absurd (ground (arith, f)))
    | inl e ↦ simp e (
        open_segment-Going (close_file (sync os w).0) es end
          (close_file-Closed (sync os w).0 es end (sync-Going w es end end g)) small)
  ]

  -- Between two appends: no segment yet, or an open one.
  pub data Kept (w : JournalWriter) : List JournalRecord → ℕ → Type 0 where
    at_start :
        {es : List JournalRecord}
        → w.current ≡ none
        → w.closed ≡ []
        → w.created_counter ≤ last
        → es ≡ []
        → Kept w es last
    going : {es : List JournalRecord} {end : ℕ} → Going last w es end end → Kept w es end

  either-Going :
      (o : Option SegmentFile) (a : JournalWriter × Bool) (b : SegmentFile → JournalWriter × Bool)
      (es : List JournalRecord) (end bound : ℕ)
      → (o ≡ none → a.1 ≡ true → Going last a.0 es end bound)
      → ((f : SegmentFile) → o ≡ some f → (b f).1 ≡ true → Going last (b f).0 es end bound)
      → (elim_option o a b).1 ≡ true
      → Going last (elim_option o a b).0 es end bound
  either-Going none a b es end bound p q e = p refl e
  either-Going (some f) a b es end bound p q e = q f refl e

  make_room-Going :
      (w : JournalWriter) (es : List JournalRecord) (end : ℕ)
      → Kept w es end
      → end + 1 < 2 ^ 64
      → (make_room os w (end + 1)).1 ≡ true
      → Going last (make_room os w (end + 1)).0 es end (end + 1)
  unfolding make_room
  make_room-Going w es _ (at_start a b c d) small =
      either-Going w.current _ _ es last (last + 1)
        (λ e.
          open_segment-Going w es last
            (record {
              ss = [];
              files = ap contents b;
              names = subst (NamesUpTo last) (sym b) refl;
              written = none_yet last;
              counter = c;
              records = d;
            })
            small)
        (λ f e. absurd (ground (arith, a, e)))
  make_room-Going w es end (going g) small =
      either-Going w.current _ _ es end (end + 1) (λ e. absurd (ground (arith, e, g.file)))
        (λ f e. (elim (Bool-cases (ltb w.roll_bytes (w.bytes_in_segment + 68))) [
          | inl x ↦ simp x (roll_segment-Going w es end g small)
          | inr x ↦ simp x (λ h. Going-suc w es end g)
        ]))

  write_record-Going :
      (w : JournalWriter) (es : List JournalRecord) (end : ℕ) (r : JournalRecord)
      → Going last w es end (end + 1)
      → r.global_seq ≡ end + 1
      → r.global_seq < 2 ^ 64
      → IsCommand r.command
      → (write_record os w r).1 ≡ true
      → Going last (write_record os w r).0 (es ++ (r ∷ [])) (end + 1) (end + 1)
  unfolding write_record
  write_record-Going w es end r g n small v =
      let bytes : List ℕ = encode_header g.header ++ file_of g.rs in
      let got : List ℕ = take (os.accepts w.calls) (encode_record r) in
      let u : JournalWriter = record w {
        current = some (record { name = g.name; bytes = bytes ++ got });
        calls = w.calls + 1;
        bytes_in_segment = w.bytes_in_segment + 68;
        last_seq = r.global_seq;
        pending_unsynced = w.pending_unsynced + 1;
      } in
      rw (g.file, elim_option)
        (elim (Bool-cases (length got == 68)) [
          | inr e ↦ simp e (λ f. absurd (ground (arith, f)))
          | inl e ↦
              let all : got ≡ encode_record r =
                take_full (os.accepts w.calls) 68 (encode_record r) (length-encode_record r) e in
              let next : Going last u (es ++ (r ∷ [])) (end + 1) (end + 1) = record {
                ss = g.ss;
                mid = g.mid;
                name = g.name;
                header = g.header;
                rs = g.rs ++ (r ∷ []);
                files = g.files;
                names = g.names;
                named = g.named;
                file =
                    ap (λ b. some (record { name = g.name; bytes = b }))
                      (ap (λ l. bytes ++ l) all
                        ∙ append_assoc (encode_header g.header) (file_of g.rs) (encode_record r)
                        ∙ ap (λ l. encode_header g.header ++ l) (sym (file_of-snoc g.rs r)));
                written = g.written;
                good = g.good;
                here = IsWritten-snoc g.mid g.rs r g.here (n ∙ ap (λ k. k + 1) g.number) small v;
                counter = g.counter;
                records =
                    ap (λ l. l ++ (r ∷ [])) g.records
                    ∙ append_assoc (records_of g.ss) g.rs (r ∷ []);
                number = sym n ∙ sym (last_of-snoc g.mid g.rs r);
              } in
              elim (Bool-cases (is_due u)) [
                | inl f ↦ simp (e, f) (λ h. sync-Going u (es ++ (r ∷ [])) (end + 1) (end + 1) next)
                | inr f ↦ simp (e, f) (λ h. next)
              ]
        ])

  -- An append that succeeds keeps what was there, and adds its record.
  pub append-Kept :
      (w : JournalWriter) (es : List JournalRecord) (end : ℕ) (kind : CommandKind) (c : Command)
      → Kept w es end
      → end + 1 < 2 ^ 64
      → IsCommand c
      → (append os w (end + 1) kind c).1 ≡ true
      → Kept
          (append os w (end + 1) kind c).0
          (es ++ (record { global_seq = end + 1; kind = kind; command = c } ∷ []))
          (end + 1)
  unfolding append
  append-Kept w es end kind c k small v = elim (Bool-cases (make_room os w (end + 1)).1) [
    | inr e ↦ simp e (λ f. absurd (ground (arith, f)))
    | inl e ↦ simp e (λ f. going (
        write_record-Going (make_room os w (end + 1)).0 es end _
          (make_room-Going w es end k small e) refl small v f))
  ]

  -- A reader finds all the records, and nothing else.
  pub Kept-read :
      (w : JournalWriter) (es : List JournalRecord) (end : ℕ)
      → Kept w es end
      → read_journal last (segments w) ≡ record { records = map result es; ending = end_of_journal }
  unfolding segments
  Kept-read w es _ (at_start a b c d) =
      ap (λ l. read_journal last l)
        (ap (λ o. contents w.closed ++ elim_option o [] (λ f. f.bytes ∷ [])) a
          ∙ append-nil (contents w.closed)
          ∙ ap contents b)
      ∙ read_journal-nil last
      ∙ ap (λ l. record { records = map result l; ending = end_of_journal }) (sym d)
  Kept-read w es end (going g) =
      let k : ℕ = length g.rs in
      let n : ℕ = 68 * k + 0 in
      let whole : take n (file_of g.rs) ≡ file_of g.rs =
        take_all (file_of g.rs) n (omega (arith, length-file_of g.rs)) in
      ap (λ l. read_journal last l)
        (ap (λ o. contents w.closed ++ elim_option o [] (λ f. f.bytes ∷ [])) g.file
          ∙ ap (λ l. l ++ ((encode_header g.header ++ file_of g.rs) ∷ [])) g.files
          ∙ ap (λ b. map bytes_of g.ss ++ ((encode_header g.header ++ b) ∷ [])) (sym whole))
      ∙ read_journal_crash last g.mid k 0 g.ss g.header g.rs g.written g.good g.here (omega arith)
          (omega (arith, length-file_of g.rs))
      ∙ ap (λ l. record { records = map result l; ending = end_of_journal })
          (ap (λ l. records_of g.ss ++ l) (take_records g.rs) ∙ sym g.records)
