-- ===== src/Supervisor/Journal/Appending.antt =====
-- crates/supervisor/src/journal.rs: what is appended to a journal is there when it is opened again.
use mathlib.Core.List.{append_assoc, append-nil}
use susm.Common.{
  ℕ, ◌<◌, ◌≡◌, refl, ◌∙◌, true, List, [], ◌∷◌, ◌++◌, length, All, Result, ok, arith, ◌>>=◌,
}
use susm.Protocol.Runtime.{RuntimeFrame}
use susm.Supervisor.Journal.{
  Codec, JournalError, RuntimeJournal, frame_bytes, append, read, read_from, open_journal,
}
use susm.Supervisor.Journal.Frames.{Writable, all_bytes}
use susm.Supervisor.Journal.Rounds.{IsTorn, file_limit}
use susm.Supervisor.Journal.Recovery.{read_recovers}

-- Any number of appends, one after the other.
abbrev pub append_all :
    Codec → RuntimeJournal → List RuntimeFrame → Result RuntimeJournal JournalError
append_all c j [] = ok j
append_all c j (f ∷ fs) = append c j f >>= λ next. append_all c next fs

append-Writable :
    (c : Codec) (j : RuntimeJournal) (f : RuntimeFrame)
    → Writable c f
    → j.is_open ≡ true
    → append c j f
      ≡ ok (record j { bytes = j.bytes ++ frame_bytes c f; frames = j.frames ++ f ∷ [] })
unfolding append
append-Writable c j f w o = ground (arith, w.small)

append_all-Writable :
    (c : Codec) (fs : List RuntimeFrame) (bytes : List ℕ) (old : List RuntimeFrame)
    → All (Writable c) fs
    → append_all c (record { bytes = bytes; is_open = true; frames = old }) fs
      ≡ ok (record { bytes = bytes ++ all_bytes c fs; is_open = true; frames = old ++ fs })
append_all-Writable c [] bytes old ws = rw (append-nil bytes, append-nil old) refl
append_all-Writable c (f ∷ fs) bytes old ws =
    rw (append-Writable c (record { bytes = bytes; is_open = true; frames = old }) f ws.0 refl) (
      append_all-Writable c fs (bytes ++ frame_bytes c f) (old ++ f ∷ []) ws.1
      ∙ rw (append_assoc bytes (frame_bytes c f) (all_bytes c fs), append_assoc old (f ∷ []) fs)
          refl)

read_new : (c : Codec) → read c [] ≡ ok []
unfolding read read_from
read_new c = refl

open_journal-new :
    (c : Codec) → open_journal c [] ≡ ok (record { bytes = []; is_open = true; frames = [] })
unfolding open_journal
open_journal-new c = rw (read_new c) refl

open_journal-torn :
    (c : Codec) (fs : List RuntimeFrame) (tail : List ℕ)
    → All (Writable c) fs
    → IsTorn c tail
    → length (all_bytes c fs ++ tail) < file_limit
    → open_journal c (all_bytes c fs ++ tail)
      ≡ ok (record { bytes = all_bytes c fs ++ tail; is_open = true; frames = fs })
unfolding open_journal
open_journal-torn c fs tail ws t lt = rw (read_recovers c fs tail ws t lt) refl

-- Any sequence of writable frames is appended to a new journal without an error, and when the
-- write of one more was interrupted after any number of its bytes, opening the file again gives
-- the same frames in the same order (a file has less than 2 ^ 63 bytes).
pub appends-reopen :
    (c : Codec) (fs : List RuntimeFrame) (tail : List ℕ)
    → All (Writable c) fs
    → IsTorn c tail
    → length (all_bytes c fs ++ tail) < file_limit
    → (open_journal c [] >>= λ j. append_all c j fs >>= λ done. open_journal c (done.bytes ++ tail))
      ≡ ok (record { bytes = all_bytes c fs ++ tail; is_open = true; frames = fs })
appends-reopen c fs tail ws t lt =
    rw (open_journal-new c, append_all-Writable c fs [] [] ws) (open_journal-torn c fs tail ws t lt)
