-- ===== src/Supervisor/Recorder/Order.antt =====
-- crates/supervisor/src/runner.rs, controller_link.rs: the sequences of a journal's observations.
use susm.Common.{ℕ, zero, suc, ◌+◌, ◌≤◌, ◌≡◌, List, [], ◌∷◌, ◌++◌}
use susm.Supervisor.Journal.{Codec}
use susm.Supervisor.Recorder.Reopening.{IsWhole}
use susm.Supervisor.Journal.Sequences.{sequences}
use susm.Supervisor.Recorder.{RuntimeRecorder}

-- 1, 2, …, n.
abbrev pub counted : ℕ → List ℕ
counted zero = []
counted (suc n) = counted n ++ (suc n ∷ [])

-- The observations are numbered from 1 without a gap or a repetition, the recorder holds the last
-- number, and the file holds the frames in memory.
pub record IsCounted (c : Codec) (r : RuntimeRecorder) : Type 0 where
  pub numbers : sequences r.journal.frames ≡ counted r.sequence
  pub whole : IsWhole c r.journal

-- A call numbers one observation at most.
record Goes (c : Codec) (n : ℕ) (r : RuntimeRecorder) : Type 0 where
  numbers : sequences r.journal.frames ≡ counted r.sequence
  whole : IsWhole c r.journal
  bound : r.sequence ≤ n + 1
