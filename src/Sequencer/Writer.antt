-- ===== src/Sequencer/Writer.antt =====
-- sequencer/journal_writer.hpp: the writer, over the bytes of its segments. The operating system is a
-- parameter: what it answers to the call of each number, whether a file opens or is synced, and how many
-- bytes a write takes. The files stand in the order of their names, which are the first numbers in them.
pub mod Kept
pub mod Durable
use order_matching_engine.Base.{
  ℕ, ◌+◌, List, [], ◌∷◌, ◌++◌, Bool, true, false, not, ◌||◌, Option, none, some, ltb, leb, ◌==◌,
  if◌then◌else◌, elim_option, length, take, map,
}
use order_matching_engine.Ipc.Command.{Command, CommandKind}
use order_matching_engine.Sequencer.Format.{JournalRecord, encode_record, encode_header}

pub record OperatingSystem : Type 0 where
  pub opens : ℕ → Bool
  pub accepts : ℕ → ℕ
  pub syncs : ℕ → Bool

pub data FsyncPolicy : Type 0 where
  per_record group : FsyncPolicy

pub record SegmentFile : Type 0 where
  pub name : ℕ
  pub bytes : List ℕ

-- `current` is the file of `fd_`, if that is open, and `closed` are the others.
pub record JournalWriter : Type 0 where
  pub roll_bytes : ℕ
  pub policy : FsyncPolicy
  pub group_size : ℕ
  pub closed : List SegmentFile
  pub current : Option SegmentFile
  pub bytes_in_segment : ℕ
  pub pending_unsynced : ℕ
  pub created_counter : ℕ
  pub last_seq : ℕ
  pub calls : ℕ

-- The bytes of the segments, as a reader finds them.
unfoldable pub segments : JournalWriter → List (List ℕ)
segments w =
    map (λ (f : SegmentFile). f.bytes) w.closed ++ elim_option w.current [] (λ f. f.bytes ∷ [])

-- A file that is opened anew is emptied.
unfoldable pub without : ℕ → List SegmentFile → List SegmentFile
without name [] = []
without name (f ∷ fs) = let rest = without name fs in if f.name == name then rest else f ∷ rest

unfoldable pub new_writer : ℕ → ℕ → FsyncPolicy → JournalWriter
new_writer roll_bytes group_size policy = record {
  roll_bytes = roll_bytes;
  policy = policy;
  group_size = if group_size == 0 then 1 else group_size;
  closed = [];
  current = none;
  bytes_in_segment = 0;
  pending_unsynced = 0;
  created_counter = 0;
  last_seq = 0;
  calls = 0;
}

unfoldable pub close_file : JournalWriter → JournalWriter
close_file w =
    elim_option w.current w (λ f. record w { closed = w.closed ++ (f ∷ []); current = none })

unfoldable pub is_due : JournalWriter → Bool
is_due w = elim w.policy as (λ _. Bool) [
  | per_record ↦ true
  | group ↦ leb w.group_size w.pending_unsynced
]

module _ (os : OperatingSystem) where
  unfoldable pub sync : JournalWriter → JournalWriter × Bool
  sync w =
      elim_option w.current (w, true)
        (λ f.
          if os.syncs w.calls
          then (record w { pending_unsynced = 0; calls = w.calls + 1 }, true)
          else (record w { calls = w.calls + 1 }, false))

  -- With the file open: the header, and its sync.
  unfoldable pub write_header : JournalWriter → ℕ → List ℕ → JournalWriter × Bool
  write_header w first header =
      let got = take (os.accepts w.calls) header in
      if not (length got == 32)
      then (
        record w {
          closed = w.closed ++ (record { name = first; bytes = got } ∷ []);
          calls = w.calls + 1;
        },
        false,
      )
      else (
        record w {
          current = some (record { name = first; bytes = got });
          bytes_in_segment = 32;
          calls = w.calls + 2;
        },
        os.syncs (w.calls + 1),
      )

  unfoldable pub open_segment : JournalWriter → ℕ → JournalWriter × Bool
  unfolding write_header without
  open_segment w first =
      if not (os.opens w.calls)
      then (record w { calls = w.calls + 1 }, false)
      else write_header
          (record w {
            closed = without first w.closed;
            created_counter = w.created_counter + 1;
            calls = w.calls + 1;
          })
          first (encode_header (record { first_seq = first; created_counter = w.created_counter }))

  unfoldable pub roll_segment : JournalWriter → ℕ → JournalWriter × Bool
  unfolding sync open_segment close_file
  roll_segment w first =
      let s = sync w in if not s.1 then (s.0, false) else open_segment (close_file s.0) first

  -- A segment with room for a record.
  unfoldable pub make_room : JournalWriter → ℕ → JournalWriter × Bool
  unfolding open_segment roll_segment
  make_room w first =
      elim_option w.current (open_segment w first) (λ f.
        if ltb w.roll_bytes (w.bytes_in_segment + 68) then roll_segment w first else (w, true))

  unfoldable pub write_record : JournalWriter → JournalRecord → JournalWriter × Bool
  unfolding sync is_due
  write_record w r =
      elim_option w.current (w, false)
        (λ f.
          let got = take (os.accepts w.calls) (encode_record r) in
          let u : JournalWriter = record w {
            current = some (record f { bytes = f.bytes ++ got });
            calls = w.calls + 1;
          } in
          let v : JournalWriter = record u {
            bytes_in_segment = w.bytes_in_segment + 68;
            last_seq = r.global_seq;
            pending_unsynced = w.pending_unsynced + 1;
          } in
          if not (length got == 68) then (u, false) else if is_due v then sync v else (v, true))

  unfoldable pub append : JournalWriter → ℕ → CommandKind → Command → JournalWriter × Bool
  unfolding make_room write_record
  append w seq kind c =
      let room = make_room w seq in
      if not room.1
      then (room.0, false)
      else write_record room.0 (record { global_seq = seq; kind = kind; command = c })
