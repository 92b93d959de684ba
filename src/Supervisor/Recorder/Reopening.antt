-- ===== src/Supervisor/Recorder/Reopening.antt =====
-- crates/supervisor/src/journal.rs: a journal whose file holds the frames in memory, and no other bytes.
use mathlib.Core.List.{append-nil, append_assoc}
use susm.Common.{
  ℕ, zero, suc, ◌<◌, ◌≤◌, ◌≡◌, refl, sym, ap, subst, ◌∙◌, true, List, [], ◌∷◌, ◌++◌, length,
  length-append, All, All-append, ok, ◌>>=◌, arith,
}
use susm.Protocol.Runtime.{RuntimeFrame}
use susm.Supervisor.Journal.{
  Codec, RuntimeJournal, append, frame_bytes, read, read_from, open_journal,
}
use susm.Supervisor.Journal.Frames.{Writable, all_bytes}
use susm.Supervisor.Journal.Rounds.{file_limit}
use susm.Supervisor.Journal.Recovery.{read_split}

pub record IsWhole (c : Codec) (j : RuntimeJournal) : Type 0 where
  pub bytes-eq : j.bytes ≡ all_bytes c j.frames
  pub writable : All (Writable c) j.frames

append-frames :
    (c : Codec) (j : RuntimeJournal) (f : RuntimeFrame) (k : RuntimeJournal)
    → append c j f ≡ ok k
    → k.frames ≡ j.frames ++ f ∷ []
unfolding append
append-frames c j f k h = ground arith

append-bytes :
    (c : Codec) (j : RuntimeJournal) (f : RuntimeFrame) (k : RuntimeJournal)
    → append c j f ≡ ok k
    → k.bytes ≡ j.bytes ++ frame_bytes c f
unfolding append
append-bytes c j f k h = ground arith

all_bytes-snoc :
    (c : Codec) (fs : List RuntimeFrame) (f : RuntimeFrame)
    → all_bytes c (fs ++ f ∷ []) ≡ all_bytes c fs ++ frame_bytes c f
all_bytes-snoc c [] f = append-nil (frame_bytes c f)
all_bytes-snoc c (g ∷ fs) f =
    ap (λ bs. frame_bytes c g ++ bs) (all_bytes-snoc c fs f)
    ∙ sym (append_assoc (frame_bytes c g) (all_bytes c fs) (frame_bytes c f))

pub append-IsWhole :
    (c : Codec) (j : RuntimeJournal) (f : RuntimeFrame) (k : RuntimeJournal)
    → IsWhole c j
    → Writable c f
    → append c j f ≡ ok k
    → IsWhole c k
append-IsWhole c j f k w v h = record {
  bytes-eq =
      append-bytes c j f k h
      ∙ ap (λ bs. bs ++ frame_bytes c f) w.bytes-eq
      ∙ sym (all_bytes-snoc c j.frames f)
      ∙ ap (all_bytes c) (sym (append-frames c j f k h));
  writable =
      subst (All (Writable c)) (sym (append-frames c j f k h))
        (All-append (Writable c) j.frames (f ∷ []) w.writable (v, tt));
}

pub append_grows :
    (c : Codec) (j : RuntimeJournal) (f : RuntimeFrame) (k : RuntimeJournal)
    → append c j f ≡ ok k
    → length j.bytes ≤ length k.bytes
append_grows c j f k h =
    omega (arith, ap length (append-bytes c j f k h), length-append j.bytes (frame_bytes c f))

read_from_end :
    (c : Codec) (fuel : ℕ) (before : List ℕ)
    → 0 < fuel
    → read_from c fuel (before ++ []) (length before) ≡ ok []
unfolding read_from
read_from_end c zero before h = absurd (omega (arith, h))
read_from_end c (suc fuel) before h = ground (arith, length-append before [])

read_whole :
    (c : Codec) (fs : List RuntimeFrame)
    → All (Writable c) fs
    → length (all_bytes c fs ++ []) < file_limit
    → read c (all_bytes c fs ++ []) ≡ ok fs
read_whole c fs ws lt =
    let s = read_split c fs [] ws lt in
    s.2
    ∙ ap (λ r. r >>= λ rest. ok (fs ++ rest)) (read_from_end c s.0 (all_bytes c fs) s.1)
    ∙ ap ok (append-nil fs)

pub read-IsWhole :
    (c : Codec) (j : RuntimeJournal)
    → IsWhole c j
    → length j.bytes < file_limit
    → read c j.bytes ≡ ok j.frames
read-IsWhole c j w lt =
    let e = w.bytes-eq ∙ sym (append-nil (all_bytes c j.frames)) in
    ap (read c) e ∙ read_whole c j.frames w.writable (subst (λ bs. length bs < file_limit) e lt)

pub open_journal-IsWhole :
    (c : Codec) (j : RuntimeJournal)
    → IsWhole c j
    → length j.bytes < file_limit
    → open_journal c j.bytes ≡ ok (record { bytes = j.bytes; is_open = true; frames = j.frames })
unfolding open_journal
open_journal-IsWhole c j w lt = rw (read-IsWhole c j w lt) refl

pub open_journal-bytes :
    (c : Codec) (bytes : List ℕ) (j : RuntimeJournal)
    → open_journal c bytes ≡ ok j
    → j.bytes ≡ bytes
unfolding open_journal
open_journal-bytes c bytes j h = ground arith
