-- ===== src/Sequencer.antt =====
-- sequencer/: the order of the commands, and their journal.
pub mod Submit
pub mod Writer
pub mod Format
pub mod Reader
