-- ===== src/Manager/Tracking/Reports.antt =====
-- crates/controller/src/manager.rs: reports and ends of executions, by the active executions and the rows
-- of the storage.
pub mod Ends
pub mod Observations
use native.Mathlib.Nat.{}
use Prim.Native.String.{String}
use text.Mathlib.Text.{◌==◌ as str_eq}
use text.Mathlib.TextEquality.{eq_iff}
use susm.Common.{
  ℕ, suc, ◌<◌, ◌≡◌, refl, sym, ap, subst, ◌∙◌, Bool, true, false, ◌&&◌, ◌||◌, not, Option, none,
  some, List, [], ◌∷◌, All, Bool-cases, Result-cases, Option-cases, ◌⊎◌, inl, inr, if◌then◌else◌,
  Result, ok, err, ◌>>=◌, arith, ◌==◌,
}
use susm.Common.Maps.{Map, lookup, adjust, remove_key, str_eq_sound, str_eq_refl}
use susm.Common.Maps.Keys.{has_unique_keys, has_unique_keys-remove_key}
use susm.Storage.{
  StoredExecution, Tables, StorageError, ObservationUpdate, acknowledge, progress, terminal_update,
  TerminalObservation,
}
use susm.Storage.Operations.{commit_observation, commit_row, updated}
use susm.Manager.{Setting, ActiveExecution, Manager, State, Task}
use susm.Manager.Supervisors.{matching}
use susm.Manager.Tracking.{
  runs, is_active, is_unfinished, is_open, belongs, IsTaskOf, Tracks, IsTracking,
}
use susm.Manager.Tracking.Rows.{KeepsId, KeepsRow, row-Tracks, end-Tracks, remove-is_active}

runs-matching : (e : String) (o : Option ActiveExecution) → matching e o ≡ none → runs e o ≡ false
unfolding matching
runs-matching e none h = refl
runs-matching e (some a) h = elim (Bool-cases (str_eq a.execution_id e)) [
  | inl same ↦ ground arith
  | inr other ↦ other
]

matching-id :
    (e : String) (o : Option ActiveExecution) {a : ActiveExecution}
    → matching e o ≡ some a
    → (o ≡ some a) × (str_eq a.execution_id e ≡ true)
unfolding matching
matching-id e none {a} h = ground arith
matching-id e (some b) {a} h = ground arith

-- The execution goes from the active ones, or was not among them.
pub removed-is_active :
    (w key : String) (active : Map ActiveExecution) {a : ActiveExecution} (wid id : String)
    → matching key (lookup w active) ≡ some a
    → is_active wid id (remove_key w active)
      ≡ (if str_eq w wid && str_eq key id then false else is_active wid id active)
removed-is_active w key active {a} wid id h =
    remove-is_active w active wid id ∙ (elim (Bool-cases (str_eq w wid)) [
      | inl at ↦
          let found =
            subst (λ k. lookup k active ≡ some a) (str_eq_sound w wid at)
              (matching-id key (lookup w active) {a = a} h).0 in
          rw
            (
              at,
              found,
              str_eq_sound a.execution_id key (matching-id key (lookup w active) {a = a} h).1,
            )
            (elim (Bool-cases (str_eq key id)) [
              | inl same ↦ rw (same) refl
              | inr other ↦ rw (other) refl
            ])
      | inr away ↦ rw (away) refl
    ])

pub kept-is_active :
    (w key : String) (active : Map ActiveExecution) (wid id : String)
    → matching key (lookup w active) ≡ none
    → is_active wid id active
      ≡ (if str_eq w wid && str_eq key id then false else is_active wid id active)
kept-is_active w key active wid id h = elim (Bool-cases (str_eq w wid)) [
  | inl at ↦ elim (Bool-cases (str_eq key id)) [
    | inl same ↦
        rw (at, same)
          (subst (λ k. is_active k id active ≡ false) (str_eq_sound w wid at)
            (subst (λ i. is_active w i active ≡ false) (str_eq_sound key id same)
              (runs-matching key (lookup w active) h)))
    | inr other ↦ rw (at, other) refl
  ]
  | inr away ↦ rw (away) refl
]

module _ (x : Setting) {executions : Map StoredExecution} {tasks : List Task} where
  -- An execution that has a row ends.
  pub removed-Tracks :
      (w key : String) (row : StoredExecution) (g : StoredExecution → StoredExecution)
      (active : Map ActiveExecution) {a : ActiveExecution}
      → KeepsRow g
      → 0 < (g row).ended_unix_ms
      → lookup key executions ≡ some row
      → row.workload_id ≡ w
      → matching key (lookup w active) ≡ some a
      → Tracks x active executions tasks
      → Tracks x (remove_key w active) (adjust key g executions) tasks
  removed-Tracks w key row g active {a} k ended found owner h t =
      end-Tracks x w key row g (remove_key w active) k ended found owner
        (has_unique_keys-remove_key w active t.unique)
        (λ wid id. removed-is_active w key active {a = a} wid id h) t

  pub kept-Tracks :
      (w key : String) (row : StoredExecution) (g : StoredExecution → StoredExecution)
      (active : Map ActiveExecution)
      → KeepsRow g
      → 0 < (g row).ended_unix_ms
      → lookup key executions ≡ some row
      → row.workload_id ≡ w
      → matching key (lookup w active) ≡ none
      → Tracks x active executions tasks
      → Tracks x active (adjust key g executions) tasks
  kept-Tracks w key row g active k ended found owner h t =
      end-Tracks x w key row g active k ended found owner t.unique
        (λ wid id. kept-is_active w key active wid id h) t

pub updated-KeepsRow : (u : ObservationUpdate) (sequence : ℕ) → KeepsRow (updated u sequence)
unfolding updated
updated-KeepsRow acknowledge s = record {
  id = λ e. refl;
  workload_id = λ e. refl;
  snapshot = λ e. refl;
}
updated-KeepsRow (progress p) s = record {
  id = λ e. refl;
  workload_id = λ e. refl;
  snapshot = λ e. refl;
}
updated-KeepsRow (terminal_update p) s = record {
  id = λ e. refl;
  workload_id = λ e. refl;
  snapshot = λ e. refl;
}

pub refused-tables :
    (id : String) (sequence : ℕ) (u : ObservationUpdate) (t : Tables) {next : Tables}
    → commit_observation id sequence u t ≡ ok (false, next)
    → next ≡ t
unfolding commit_observation commit_row
refused-tables id sequence u t {next} h = elim (Option-cases (lookup id t.executions)) [
  | inl k ↦ ground arith
  | inr (row, k) ↦ ground arith
]

pub committed-rows :
    (id : String) (sequence : ℕ) (u : ObservationUpdate) (t : Tables) {next : Tables}
    → commit_observation id sequence u t ≡ ok (true, next)
    → next.executions ≡ adjust id (updated u sequence) t.executions
unfolding commit_observation commit_row
committed-rows id sequence u t {next} h = elim (Option-cases (lookup id t.executions)) [
  | inl k ↦ ground arith
  | inr (row, k) ↦ ground arith
]
