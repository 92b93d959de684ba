-- ===== src/Storage/Commits.antt =====
-- crates/controller/src/storage.rs: the order in which an execution's observations are committed.
use Prim.Native.String.{String}
use susm.Common.{
  ℕ, suc, ◌+◌, ◌<◌, ◌≤◌, ◌≡◌, refl, ap, subst, ◌∙◌, Bool, true, false, some, List, [], ◌∷◌,
  Result-cases, ◌⊎◌, inl, inr, Result, ok, err, if◌then◌else◌, arith,
}
use susm.Common.Maps.{lookup, lookup-adjust_self}
use susm.Domain.Execution.Sequence.{count_up}
use susm.Storage.{
  StoredExecution, Tables, StorageError, ObservationUpdate, acknowledge, progress, terminal_update,
}
use susm.Storage.Operations.{commit_observation, updated, i64_limit, commit_row, committed_tables}

-- The row of `id` is there, and `n` is the last sequence committed for it.
pub record HasCommitted (id : String) (n : ℕ) (t : Tables) : Type 0 where
  pub row : StoredExecution
  pub found : lookup id t.executions ≡ some row
  pub last : row.committed_sequence ≡ n

updated-committed :
    (u : ObservationUpdate) (n : ℕ) (row : StoredExecution)
    → (updated u n row).committed_sequence ≡ n
unfolding updated
updated-committed acknowledge n row = refl
updated-committed (progress p) n row = refl
updated-committed (terminal_update t) n row = refl

committed-HasCommitted :
    (id : String) (n s : ℕ) (u : ObservationUpdate) (t : Tables) (h : HasCommitted id n t)
    → HasCommitted id s (committed_tables id s u h.row t)
committed-HasCommitted id n s u t h = record {
  row = updated u s h.row;
  found = lookup-adjust_self id (updated u s) t.executions h.found;
  last = updated-committed u s h.row;
}

-- A commit of the next sequence is accepted.
pub commit-next :
    (id : String) (n : ℕ) (u : ObservationUpdate) (t : Tables) (h : HasCommitted id n t)
    → n + 1 < i64_limit
    → commit_observation id (n + 1) u t ≡ ok (true, committed_tables id (n + 1) u h.row t)
unfolding commit_observation commit_row
commit-next id n u t h lt = ground (arith, h.found, h.last)

-- A commit that is accepted is that of the next sequence, or of an old one, which changes nothing.
commit-accepted :
    (id : String) (n s : ℕ) (u : ObservationUpdate) (t : Tables) {b : Bool} {next : Tables}
    (h : HasCommitted id n t)
    → commit_observation id s u t ≡ ok (b, next)
    → ((b ≡ false) × (next ≡ t) × (s ≤ n))
      ⊎ ((b ≡ true) × (s ≡ n + 1) × (next ≡ committed_tables id s u h.row t))
unfolding commit_observation commit_row
commit-accepted id n s u t h e = ground (arith, h.found, h.last)

-- A commit that fails leaves the tables as they are.
abbrev attempt : Tables → Result (Bool × Tables) StorageError → Bool × Tables
attempt t (ok r) = r
attempt t (err e) = (false, t)

-- The sequences that are committed when these observations arrive, and the tables after them.
unfoldable pub commits : String → List (ℕ × ObservationUpdate) → Tables → List ℕ × Tables
commits id [] t = ([], t)
commits id ((s, u) ∷ es) t =
    let (accepted, next) = attempt t (commit_observation id s u t) in
    let rest = commits id es next in (if accepted then s ∷ rest.0 else rest.0, rest.1)

abbrev Continues : String → ℕ → List ℕ × Tables → Type 0
Continues id n r = (k : ℕ) × (r.0 ≡ count_up (suc n) k) × HasCommitted id (n + k) r.1

attempt-cases :
    (id : String) (n s : ℕ) (u : ObservationUpdate) (t : Tables) (h : HasCommitted id n t)
    → (attempt t (commit_observation id s u t) ≡ (false, t))
      ⊎ ((s ≡ suc n)
          × (attempt t (commit_observation id s u t) ≡ (true, committed_tables id s u h.row t)))
attempt-cases id n s u t h = elim (Result-cases (commit_observation id s u t)) [
  | inl ((b, next), e) ↦ ground (arith, commit-accepted id n s u t {b = b} {next = next} h e)
  | inr (x, e) ↦ inl (rw (e) refl)
]

-- In whatever order, and however often, the observations of an execution arrive, those that are
-- committed are numbered by the sequences that follow the last one committed before, each once and in
-- order, and the row holds the last of them.
pub commits-count_up :
    (id : String) (n : ℕ) (es : List (ℕ × ObservationUpdate)) (t : Tables)
    → HasCommitted id n t
    → (k : ℕ) × ((commits id es t).0 ≡ count_up (suc n) k)
      × HasCommitted id (n + k) (commits id es t).1
unfolding commits
commits-count_up id n [] t h = (0, refl, subst (λ m. HasCommitted id m t) (omega arith) h)
commits-count_up id n ((s, u) ∷ es) t h = elim (attempt-cases id n s u t h) [
  | inl e ↦ rw (e) (commits-count_up id n es t h)
  | inr (at, e) ↦
      let rest =
        commits-count_up id s es (committed_tables id s u h.row t)
          (committed-HasCommitted id n s u t h) in
      rw (e) (
        suc rest.0,
        ap (λ l. s ∷ l) rest.1 ∙ ap (λ m. m ∷ count_up (suc m) rest.0) at,
        subst (λ m. HasCommitted id m (commits id es (committed_tables id s u h.row t)).1)
            (omega (arith, at)) rest.2,
      )
]
