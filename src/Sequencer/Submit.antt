-- ===== src/Sequencer/Submit.antt =====
-- sequencer/sequencer.hpp: the sequencer, over any journal. `append` is JournalWriter::append, which is
-- defined in Sequencer.Writer; `false` is a failure to make the record durable.
pub mod History
use order_matching_engine.Base.{ℕ, ◌+◌, Bool, true, Option, elim_option, if◌then◌else◌}
use order_matching_engine.Ipc.Command.{Command, CommandKind}
use order_matching_engine.Ipc.SpscRing.{SpscRing, try_claim, write_slot, publish}

pub data Outcome : Type 0 where
  sequenced : ℕ → Outcome
  ring_full : Outcome
  durability_failure : Outcome

pub record Sequencer (J : Type 0) : Type 0 where
  pub journal : J
  pub ring : SpscRing Command
  pub seq : ℕ

abbrev pub Append : Type 0 → Type 0
Append J = J → ℕ → CommandKind → Command → J × Bool

module _ {J : Type 0} (append : Append J) where
  -- With a slot in hand: the record is durable before the slot is published.
  unfoldable pub append_then_publish :
      Sequencer J → ℕ → CommandKind → Command → Sequencer J × Outcome
  append_then_publish q slot kind c =
      let written = append q.journal (q.seq + 1) kind c in
      if written.1
      then (
        record q {
          journal = written.0;
          seq = q.seq + 1;
          ring = publish (write_slot q.ring slot c);
        },
        sequenced (q.seq + 1),
      )
      else (record q { journal = written.0 }, durability_failure)

  unfoldable pub try_submit : Sequencer J → CommandKind → Command → Sequencer J × Outcome
  try_submit q kind c =
      let claim = try_claim q.ring in
      elim_option claim.0 (record q { ring = claim.1 }, ring_full)
        (λ slot. append_then_publish (record q { ring = claim.1 }) slot kind c)
