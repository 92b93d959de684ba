-- ===== src/Supervisor/Journal/Sequences.antt =====
-- crates/supervisor/src/journal.rs: what the frames of a journal say, and what the runner appends.
use susm.Common.{
  ℕ, ◌≡◌, refl, ap, ◌∙◌, Option, none, some, List, [], ◌∷◌, ◌++◌, ltb, if◌then◌else◌, Result, arith,
}
use susm.Protocol.Runtime.{
  RuntimeFrame, Record, Checkpoint, checkpoint, RuntimeObservation, observation, acknowledgement,
}
use susm.Supervisor.Journal.{Codec, JournalError, RuntimeJournal, RuntimeRecovery, append}

-- `max().unwrap_or(0)`.
unfoldable pub maximum : List ℕ → ℕ
maximum [] = 0
maximum (n ∷ ns) = let rest = maximum ns in if ltb n rest then rest else n

-- The matches on a frame's record.
abbrev pub checkpoint_in : Option Record → Option Checkpoint
checkpoint_in (some (checkpoint c)) = some c
checkpoint_in (some (observation o)) = none
checkpoint_in (some (acknowledgement n)) = none
checkpoint_in none = none

abbrev pub observation_in : Option Record → Option RuntimeObservation
observation_in (some (checkpoint c)) = none
observation_in (some (observation o)) = some o
observation_in (some (acknowledgement n)) = none
observation_in none = none

abbrev pub committed_in : Option Record → Option ℕ
committed_in (some (checkpoint c)) = some c.committed_sequence
committed_in (some (observation o)) = none
committed_in (some (acknowledgement n)) = some n
committed_in none = none

abbrev pub sequence_in : Option Record → Option ℕ
sequence_in (some (checkpoint c)) = none
sequence_in (some (observation o)) = some o.sequence
sequence_in (some (acknowledgement n)) = none
sequence_in none = none

abbrev pub kept {ℓ} : {B : Type ℓ} → Option B → List B → List B
kept none ys = ys
kept (some y) ys = y ∷ ys

abbrev pub filter_map {ℓ κ} : {A : Type ℓ} {B : Type κ} → (A → Option B) → List A → List B
filter_map f [] = []
filter_map f (x ∷ xs) = kept (f x) (filter_map f xs)

-- `iter().rev().find_map(f)`.
abbrev pub find_last {ℓ κ} : {A : Type ℓ} {B : Type κ} → (A → Option B) → List A → Option B
find_last f [] = none
find_last f (x ∷ xs) = elim (find_last f xs) [ some y ↦ some y | none ↦ f x ]

-- The sequences of the observations, in the order of the file.
unfoldable pub sequences : List RuntimeFrame → List ℕ
sequences frames = filter_map (λ f. sequence_in f.content) frames

unfoldable pub committed : List RuntimeFrame → List ℕ
committed frames = filter_map (λ f. committed_in f.content) frames

-- `RuntimeJournal::recovery`.
unfoldable pub recovery : RuntimeJournal → RuntimeRecovery
recovery j = record {
  last_checkpoint = find_last (λ f. checkpoint_in f.content) j.frames;
  last_sequence = maximum (sequences j.frames);
  committed_sequence = maximum (committed j.frames);
}

abbrev pub later : ℕ → Option RuntimeObservation → Option RuntimeObservation
later n none = none
later n (some o) = if ltb n o.sequence then some o else none

-- `RuntimeJournal::observations_after`.
unfoldable pub observations_after : RuntimeJournal → ℕ → List RuntimeObservation
observations_after j sequence = filter_map (λ f. later sequence (observation_in f.content)) j.frames

module _ (c : Codec) where
  unfoldable pub append_checkpoint :
      RuntimeJournal → Checkpoint → Result RuntimeJournal JournalError
  append_checkpoint j point = append c j (record { format = 1; content = some (checkpoint point) })

  unfoldable pub append_observation :
      RuntimeJournal → RuntimeObservation → Result RuntimeJournal JournalError
  append_observation j o = append c j (record { format = 1; content = some (observation o) })

  unfoldable pub acknowledge : RuntimeJournal → ℕ → Result RuntimeJournal JournalError
  acknowledge j n = append c j (record { format = 1; content = some (acknowledgement n) })

pub find_last-snoc :
    {A B : Type 0} (f : A → Option B) (xs : List A) (x : A) (y : B)
    → f x ≡ some y
    → find_last f (xs ++ x ∷ []) ≡ some y
find_last-snoc f [] x y h = rw (h) refl
find_last-snoc f (z ∷ xs) x y h = rw (find_last-snoc f xs x y h) refl

kept_append : {B : Type 0} (o : Option B) (ys zs : List B) → kept o (ys ++ zs) ≡ kept o ys ++ zs
kept_append none ys zs = refl
kept_append (some y) ys zs = refl

pub filter_map-snoc :
    {A B : Type 0} (f : A → Option B) (xs : List A) (x : A)
    → filter_map f (xs ++ x ∷ []) ≡ filter_map f xs ++ filter_map f (x ∷ [])
filter_map-snoc f [] x = refl
filter_map-snoc f (z ∷ xs) x =
    ap (kept (f z)) (filter_map-snoc f xs x)
    ∙ kept_append (f z) (filter_map f xs) (filter_map f (x ∷ []))

pub maximum-snoc :
    (ns : List ℕ) (n : ℕ) → maximum (ns ++ n ∷ []) ≡ (if ltb (maximum ns) n then n else maximum ns)
unfolding maximum
maximum-snoc [] n = ground arith
maximum-snoc (m ∷ ns) n = ground (arith, maximum-snoc ns n)
