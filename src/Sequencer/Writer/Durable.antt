-- ===== src/Sequencer/Writer/Durable.antt =====
-- Runs of the sequencer over the writer of the journal, beside the thread that takes the commands out of
-- its ring. A failure of the journal is a hard stop: no submission follows it.
use order_matching_engine.Base.{
  ℕ, zero, suc, ◌+◌, ◌^◌, ◌<◌, ◌≤◌, ◌≡◌, inl, inr, Bool-cases, refl, sym, ap, ap₂, ◌∙◌, List, [],
  ◌∷◌, ◌++◌, map, elim_option, map-append, append_assoc, Bool, true, false, Option, none, some,
  length, length-append, arith, if◌then◌else◌,
}
use order_matching_engine.Ipc.Command.{Command, CommandKind}
use order_matching_engine.Ipc.SpscRing.{SpscRing, pop}
use order_matching_engine.Ipc.SpscRing.Refine.{Holds, poll, pop_lem}
use order_matching_engine.Sequencer.Submit.{
  Outcome, sequenced, ring_full, durability_failure, Sequencer, try_submit,
}
use order_matching_engine.Sequencer.Format.{JournalRecord}
use order_matching_engine.Sequencer.Format.RoundTrip.{IsCommand}
use order_matching_engine.Recovery.{end_of_journal}
use order_matching_engine.Sequencer.Reader.{read_journal}
use order_matching_engine.Sequencer.Reader.Crash.{result}
use order_matching_engine.Sequencer.Writer.{
  OperatingSystem, FsyncPolicy, JournalWriter, new_writer, append, segments,
}
use order_matching_engine.Sequencer.Writer.Kept.{Kept, at_start, append-Kept, Kept-read}
use order_matching_engine.Sequencer.Submit.History.{
  Submitted, full, failed, done, try_submit-Submitted,
}

pub data Event : Type 0 where
  submits : CommandKind → Command → Event
  takes : Event

-- `acked` are the submissions that were given a number, `taken` the commands that left the ring.
pub record Run : Type 0 where
  pub sequencer : Sequencer JournalWriter
  pub acked : List JournalRecord
  pub taken : List Command
  pub stopped : Bool

abbrev pub numbers : ℕ → ℕ → List ℕ
numbers s zero = []
numbers s (suc n) = (s + 1) ∷ numbers (s + 1) n

numbers-snoc : (s n : ℕ) → numbers s (suc n) ≡ numbers s n ++ ((s + n + 1) ∷ [])
numbers-snoc s zero = ap (λ i. i ∷ []) (omega arith)
numbers-snoc s (suc n) =
    ap (λ xs. (s + 1) ∷ xs)
      (numbers-snoc (s + 1) n ∙ ap (λ i. numbers (s + 1) n ++ (i ∷ [])) (omega arith))

abbrev pub commands : List JournalRecord → List Command
commands es = map (λ e. e.command) es

abbrev pub seqs : List JournalRecord → List ℕ
seqs es = map (λ e. e.global_seq) es

module _ (os : OperatingSystem) where
  abbrev pub note : Run → CommandKind → Command → Sequencer JournalWriter × Outcome → Run
  note h kind c (q, sequenced n) = record h {
    sequencer = q;
    acked = h.acked ++ (record { global_seq = n; kind = kind; command = c } ∷ []);
  }
  note h kind c (q, ring_full) = record h { sequencer = q }
  note h kind c (q, durability_failure) = record h { sequencer = q; stopped = true }

  abbrev pub note_taken : Run → SpscRing Command × Option Command → Run
  note_taken h (r, none) = record h { sequencer = record h.sequencer { ring = r } }
  note_taken h (r, some c) = record h {
    sequencer = record h.sequencer { ring = r };
    taken = h.taken ++ (c ∷ []);
  }

  abbrev pub step : Run → Event → Run
  step h (submits kind c) =
      if h.stopped then h else note h kind c (try_submit (append os) h.sequencer kind c)
  step h takes = note_taken h (pop h.sequencer.ring)

  abbrev pub run_events : Run → List Event → Run
  run_events h [] = h
  run_events h (e ∷ es) = run_events (step h e) es

  abbrev pub start_run : Sequencer JournalWriter → Run
  start_run q = record { sequencer = q; acked = []; taken = []; stopped = false }

  -- The journal holds the records that were given numbers, or held them until an append failed.
  data Disk (s : ℕ) (h : Run) : Type 0 where
    sound : h.stopped ≡ false → Kept os s h.sequencer.journal h.acked h.sequencer.seq → Disk s h
    halted :
        (before : JournalWriter) (kind : CommandKind) (c : Command)
        → h.stopped ≡ true
        → Kept os s before h.acked h.sequencer.seq
        → (append os before (h.sequencer.seq + 1) kind c).1 ≡ false
        → (append os before (h.sequencer.seq + 1) kind c).0 ≡ h.sequencer.journal
        → Disk s h

  -- The run stands as it should, where it began at the number `s` with a journal without segments.
  record IsRun (s : ℕ) (h : Run) : Type 0 where
    waiting : List Command
    ring : Holds h.sequencer.ring waiting
    number : h.sequencer.seq ≡ s + length h.acked
    in_order : seqs h.acked ≡ numbers s (length h.acked)
    nothing_lost : h.taken ++ waiting ≡ commands h.acked
    disk : Disk s h

some-inj : {a b : Command} → some a ≡ some b → a ≡ b
some-inj {a} e = ap (λ o. elim_option o a (λ x. x)) e

-- The commands that are submitted have fields in the ranges of their types.
abbrev pub AreCommands : List Event → Type 0
AreCommands [] = ◌≡◌ {A = ℕ} 0 0
AreCommands (submits kind c ∷ es) = IsCommand c × AreCommands es
AreCommands (takes ∷ es) = AreCommands es

module _ (os : OperatingSystem) where
  Disk-Kept :
      (s : ℕ) (h : Run)
      → Disk os s h
      → h.stopped ≡ false
      → Kept os s h.sequencer.journal h.acked h.sequencer.seq
  Disk-Kept s h (sound e k) f = k
  Disk-Kept s h (halted before kind c e k a b) f = absurd (ground (arith, e, f))

  note_taken-Disk :
      (s : ℕ) (h : Run) (o : SpscRing Command × Option Command)
      → Disk os s h
      → Disk os s (note_taken os h o)
  note_taken-Disk s h (r, none) (sound e k) = sound e k
  note_taken-Disk s h (r, none) (halted before kind c e k a b) = halted before kind c e k a b
  note_taken-Disk s h (r, some x) (sound e k) = sound e k
  note_taken-Disk s h (r, some x) (halted before kind c e k a b) = halted before kind c e k a b

  note-IsRun :
      (s : ℕ) (h : Run) (kind : CommandKind) (c : Command) (o : Sequencer JournalWriter × Outcome)
      → (v : IsRun os s h) → h.stopped ≡ false
      → h.sequencer.seq + 1 < 2 ^ 64
      → IsCommand c
      → Submitted (append os) h.sequencer v.waiting kind c o
      → IsRun os s (note os h kind c o)
  note-IsRun s h kind c _ v go small u (full r n held) = record {
    waiting = v.waiting;
    ring = held;
    number = v.number;
    in_order = v.in_order;
    nothing_lost = v.nothing_lost;
    disk = sound go (Disk-Kept s h v.disk go);
  }
  note-IsRun s h kind c _ v go small u (failed r n held e) = record {
    waiting = v.waiting;
    ring = held;
    number = v.number;
    in_order = v.in_order;
    nothing_lost = v.nothing_lost;
    disk = halted h.sequencer.journal kind c refl (Disk-Kept s h v.disk go) e refl;
  }
  note-IsRun s h kind c _ v go small u (done r n held e) =
      let fresh : JournalRecord = record {
        global_seq = h.sequencer.seq + 1;
        kind = kind;
        command = c;
      } in
      let more : length (h.acked ++ (fresh ∷ [])) ≡ suc (length h.acked) =
        length-append h.acked (fresh ∷ []) ∙ omega arith in
      record {
        waiting = v.waiting ++ (c ∷ []);
        ring = held;
        number = omega (arith, v.number, more);
        in_order =
            map-append (λ x. x.global_seq) h.acked (fresh ∷ [])
            ∙ ap₂ (λ xs i. xs ++ (i ∷ [])) v.in_order (ap (λ k. k + 1) v.number)
            ∙ sym (numbers-snoc s (length h.acked))
            ∙ ap (λ k. numbers s k) (sym more);
        nothing_lost =
            sym (append_assoc h.taken v.waiting (c ∷ []))
            ∙ ap (λ xs. xs ++ (c ∷ [])) v.nothing_lost
            ∙ sym (map-append (λ x. x.command) h.acked (fresh ∷ []));
        disk = sound go (
            append-Kept os s h.sequencer.journal h.acked h.sequencer.seq kind c
              (Disk-Kept s h v.disk go) small u e);
      }

  taken-IsRun :
      (s : ℕ) (h : Run) (v : IsRun os s h)
      → (w : List Command) → v.waiting ≡ w
      → (o : SpscRing Command × Option Command) → Holds o.0 (poll w).0 × (o.1 ≡ (poll w).1)
      → IsRun os s (note_taken os h o)
  taken-IsRun s h v [] e (r, none) p = record {
    waiting = [];
    ring = p.0;
    number = v.number;
    in_order = v.in_order;
    nothing_lost = ap (λ w. h.taken ++ w) (sym e) ∙ v.nothing_lost;
    disk = note_taken-Disk s h (r, none) v.disk;
  }
  taken-IsRun s h v [] e (r, some c) p = absurd (ground (arith, p.1))
  taken-IsRun s h v (x ∷ w) e (r, none) p = absurd (ground (arith, p.1))
  taken-IsRun s h v (x ∷ w) e (r, some c) p = record {
    waiting = w;
    ring = p.0;
    number = v.number;
    in_order = v.in_order;
    nothing_lost =
        append_assoc h.taken (c ∷ []) w
        ∙ ap (λ y. h.taken ++ (y ∷ w)) (some-inj p.1)
        ∙ ap (λ l. h.taken ++ l) (sym e)
        ∙ v.nothing_lost;
    disk = note_taken-Disk s h (r, some c) v.disk;
  }

  note-seq :
      (h : Run) (kind : CommandKind) (c : Command) (w : List Command)
      (o : Sequencer JournalWriter × Outcome)
      → Submitted (append os) h.sequencer w kind c o
      → (note os h kind c o).sequencer.seq ≤ h.sequencer.seq + 1
  note-seq h kind c w _ (full r n held) = omega (arith, n)
  note-seq h kind c w _ (failed r n held e) = omega (arith, n)
  note-seq h kind c w _ (done r n held e) = omega (arith, n)

  step-IsRun :
      (s : ℕ) (h : Run) (kind : CommandKind) (c : Command)
      → h.sequencer.seq + 1 < 2 ^ 64
      → IsCommand c
      → IsRun os s h
      → IsRun os s (step os h (submits kind c))
        × ((step os h (submits kind c)).sequencer.seq ≤ h.sequencer.seq + 1)
  step-IsRun s h kind c small u v =
      let got = try_submit-Submitted (append os) h.sequencer v.waiting kind c v.ring in
      elim (Bool-cases h.stopped) [
        | inl e ↦ simp e (v, omega arith)
        | inr e ↦ simp e (
          note-IsRun s h kind c (try_submit (append os) h.sequencer kind c) v e small u got,
          note-seq h kind c v.waiting (try_submit (append os) h.sequencer kind c) got,
        )
      ]

  taken-seq :
      (h : Run) (o : SpscRing Command × Option Command)
      → (note_taken os h o).sequencer.seq ≡ h.sequencer.seq
  taken-seq h (r, none) = refl
  taken-seq h (r, some c) = refl

  run_events-IsRun :
      (s : ℕ) (h : Run) (es : List Event)
      → h.sequencer.seq + length es < 2 ^ 64
      → AreCommands es
      → IsRun os s h
      → IsRun os s (run_events os h es)
  run_events-IsRun s h [] small u v = v
  run_events-IsRun s h (submits kind c ∷ es) small u v =
      let next = step-IsRun s h kind c (omega (arith, small)) u.0 v in
      run_events-IsRun s (step os h (submits kind c)) es (omega (arith, small, next.1)) u.1 next.0
  run_events-IsRun s h (takes ∷ es) small u v =
      run_events-IsRun s (step os h takes) es
        (omega (arith, small, taken-seq h (pop h.sequencer.ring))) u
        (taken-IsRun s h v v.waiting refl (pop h.sequencer.ring)
          (pop_lem h.sequencer.ring v.waiting v.ring))

  -- A reader of the journal finds the records that were given numbers, and nothing else; or it did so
  -- until an append failed, which made the journal what it is.
  pub data OnDisk (s : ℕ) (h : Run) : Type 0 where
    whole :
        h.stopped ≡ false
        → read_journal s (segments h.sequencer.journal)
          ≡ record { records = map result h.acked; ending = end_of_journal }
        → OnDisk s h
    halted_by :
        (before : JournalWriter) (kind : CommandKind) (c : Command)
        → h.stopped ≡ true
        → read_journal s (segments before)
          ≡ record { records = map result h.acked; ending = end_of_journal }
        → (append os before (h.sequencer.seq + 1) kind c).1 ≡ false
        → (append os before (h.sequencer.seq + 1) kind c).0 ≡ h.sequencer.journal
        → OnDisk s h

  Disk-OnDisk : (s : ℕ) (h : Run) → Disk os s h → OnDisk s h
  Disk-OnDisk s h (sound e k) = whole e (Kept-read os s h.sequencer.journal h.acked _ k)
  Disk-OnDisk s h (halted before kind c e k a b) =
      halted_by before kind c e (Kept-read os s before h.acked _ k) a b

  -- What is in the ring, and on the disk.
  pub record IsJournaled (s : ℕ) (h : Run) : Type 0 where
    pub waiting : List Command
    pub ring : Holds h.sequencer.ring waiting
    pub number : h.sequencer.seq ≡ s + length h.acked
    pub in_order : seqs h.acked ≡ numbers s (length h.acked)
    pub nothing_lost : h.taken ++ waiting ≡ commands h.acked
    pub on_disk : OnDisk s h

  -- Over any run of submissions and takings from the ring, of a sequencer with an empty ring and a
  -- writer that has no segments yet, on any operating system, where the commands have fields in
  -- the ranges of their types, the numbers do not overflow, and no submission follows a failure of
  -- the journal: the numbers given are consecutive; what was taken and what waits in the ring are
  -- just the commands that were given numbers, in that order; and a reader of the segments finds
  -- just these records, in order, up to a clean end, or did so until an append for the next number
  -- failed, which stopped the run and left the journal as it is.
  pub durable_first :
      (q : Sequencer JournalWriter) (es : List Event) (roll_bytes group_size : ℕ)
      (policy : FsyncPolicy)
      → q.journal ≡ new_writer roll_bytes group_size policy
      → Holds q.ring []
      → q.seq + length es < 2 ^ 64
      → AreCommands es
      → IsJournaled q.seq (run_events os (start_run os q) es)
  unfolding new_writer
  durable_first q es roll_bytes group_size policy begin held small u =
      let v = run_events-IsRun q.seq (start_run os q) es small u (record {
        waiting = [];
        ring = held;
        number = omega arith;
        in_order = refl;
        nothing_lost = refl;
        disk = sound refl (
            at_start (ap (λ w. w.current) begin) (ap (λ w. w.closed) begin)
              (omega (arith, ap (λ w. w.created_counter) begin)) refl);
      }) in
      record {
        waiting = v.waiting;
        ring = v.ring;
        number = v.number;
        in_order = v.in_order;
        nothing_lost = v.nothing_lost;
        on_disk = Disk-OnDisk q.seq (run_events os (start_run os q) es) v.disk;
      }
