-- ===== src/Storage/Claims.antt =====
-- crates/controller/src/storage.rs: the operations as steps, and the session that a workload's row notes.
use Prim.Native.String.{String}
use text.Mathlib.Text.{◌==◌ as str_eq}
use text.Mathlib.TextEquality.{eq_iff}
use mathlib.Core.Option
use susm.Common.{
  ℕ, suc, ◌≡◌, sym, subst, Bool, true, false, Option, none, some, List, [], ◌∷◌, Bool-cases,
  Result-cases, inl, inr, Result, ok, err, if◌then◌else◌, arith,
}
use susm.Common.Maps.{Map, lookup, insert, adjust, lookup-insert, lookup-adjust, lookup-map_entries}
use susm.Storage.{
  WorkloadRow, StoredExecution, Tables, NewDefinition, StorageError, ObservationUpdate,
}
use susm.Storage.Operations.{
  replace_definitions, is_current, upserted, upsert_all, cleared, set_enabled, insert_execution,
  insert_enabled_job_execution, set_execution_supervisor, finish_execution, commit_observation,
}

-- Every operation that writes to the tables.
pub data Operation : Type 0 where
  replaced : List ℕ → List NewDefinition → Operation
  enablement : String → Bool → Operation
  inserted : StoredExecution → Operation
  triggered : StoredExecution → String → Operation
  supervisor_set : String → ℕ → Operation
  execution_finished : StoredExecution → Operation
  committed : String → ℕ → ObservationUpdate → Operation

abbrev pub attempted : Tables → Result (Bool × Tables) StorageError → Bool × Tables
attempted t (ok r) = r
attempted t (err e) = (false, t)

abbrev pub changed : Tables → Result Tables StorageError → Tables
changed t (ok next) = next
changed t (err e) = t

abbrev pub is_for : String → StoredExecution → String → String → Bool
is_for wid e session s = if str_eq e.workload_id wid then str_eq s session else false

-- Whether the operation has started an enabled job `wid` in `session`, and the tables after it. One
-- that fails changes nothing.
unfoldable pub apply : String → String → Operation → Tables → Bool × Tables
apply wid session (replaced g ds) t = (false, (attempted t (replace_definitions g ds t)).1)
apply wid session (enablement id b) t = (false, (set_enabled id b t).1)
apply wid session (inserted e) t = (false, changed t (insert_execution e t))
apply wid session (triggered e s) t =
    let r = attempted t (insert_enabled_job_execution e s t) in
    (if r.0 then is_for wid e session s else false, r.1)
apply wid session (supervisor_set id p) t = (false, set_execution_supervisor id p t)
apply wid session (execution_finished e) t = (false, finish_execution e t)
apply wid session (committed id s u) t = (false, (attempted t (commit_observation id s u t)).1)

-- How often a history has started it.
unfoldable pub starts : String → String → List Operation → Tables → ℕ
starts wid session [] t = 0
starts wid session (o ∷ os) t =
    let (started, next) = apply wid session o t in
    let rest = starts wid session os next in if started then suc rest else rest

-- All triggers are of this session.
abbrev pub in_session : String → Operation → Bool
in_session session (triggered e s) = str_eq s session
in_session session _ = true

-- The workload's row notes this session.
abbrev pub Notes : String → Option WorkloadRow → Type 0
Notes session none = ⊥
Notes session (some row) = row.last_triggered_session ≡ session

abbrev pub Claimed : String → String → Tables → Type 0
Claimed wid session t = Notes session (lookup wid t.workloads)

pub Notes-if :
    (session : String) (b : Bool) (f : WorkloadRow → WorkloadRow) (o : Option WorkloadRow)
    → ((row : WorkloadRow)
        → row.last_triggered_session ≡ session
        → (f row).last_triggered_session ≡ session)
    → Notes session o
    → Notes session (if b then Option.map f o else o)
Notes-if session true f (some row) keeps h = keeps row h
Notes-if session true f none keeps h = h
Notes-if session false f o keeps h = h

pub adjust-Notes :
    (wid session k : String) (f : WorkloadRow → WorkloadRow) (m : Map WorkloadRow)
    → ((row : WorkloadRow)
        → row.last_triggered_session ≡ session
        → (f row).last_triggered_session ≡ session)
    → Notes session (lookup wid m)
    → Notes session (lookup wid (adjust k f m))
adjust-Notes wid session k f m keeps h =
    rw (lookup-adjust k wid f m) (Notes-if session (str_eq k wid) f (lookup wid m) keeps h)

pub upserted-Notes :
    (session : String) (d : NewDefinition) (o : Option WorkloadRow)
    → Notes session o
    → Notes session (some (upserted d o))
upserted-Notes session d none h = elim h [ ]
upserted-Notes session d (some row) h = h

pub insert-Notes :
    (wid session : String) (d : NewDefinition) (m : Map WorkloadRow)
    → Notes session (lookup wid m)
    → Notes session (lookup wid (insert d.id (upserted d (lookup d.id m)) m))
insert-Notes wid session d m h =
    rw (lookup-insert d.id wid (upserted d (lookup d.id m)) m)
      (elim (Bool-cases (str_eq d.id wid)) [
        | inl same ↦ rw (same) (
            upserted-Notes session d (lookup d.id m)
              (subst (λ k. Notes session (lookup k m)) (sym (ground (arith, eq_iff d.id wid))) h))
        | inr other ↦ rw (other) h
      ])

pub upsert_all-Notes :
    (wid session : String) (ds : List NewDefinition) (m : Map WorkloadRow) {r : Map WorkloadRow}
    → Notes session (lookup wid m)
    → upsert_all ds m ≡ ok r
    → Notes session (lookup wid r)
unfolding upsert_all
upsert_all-Notes wid session [] m {r} h e =
    subst (λ q. Notes session (lookup wid q)) (ground arith) h
upsert_all-Notes wid session (d ∷ ds) m {r} h e =
    upsert_all-Notes wid session ds (insert d.id (upserted d (lookup d.id m)) m) {r = r}
      (insert-Notes wid session d m h) (ground arith)

pub Notes-map :
    (session : String) (f : WorkloadRow → WorkloadRow) (o : Option WorkloadRow)
    → ((row : WorkloadRow)
        → row.last_triggered_session ≡ session
        → (f row).last_triggered_session ≡ session)
    → Notes session o
    → Notes session (Option.map f o)
Notes-map session f o keeps h = Notes-if session true f o keeps h

pub replace_definitions-Claimed :
    (wid session : String) (g : List ℕ) (ds : List NewDefinition) (t : Tables)
    → Claimed wid session t
    → Claimed wid session (attempted t (replace_definitions g ds t)).1
unfolding replace_definitions
replace_definitions-Claimed wid session g ds t h =
    elim (Bool-cases (is_current g t.config_generation)) [
      | inl same ↦ rw (same) h
      | inr other ↦ rw (other) (elim (Result-cases (upsert_all ds (cleared t.workloads))) [
        | inl (r, e) ↦ rw (e) (
            upsert_all-Notes wid session ds (cleared t.workloads) {r = r}
              (rw (lookup-map_entries (λ _ row. record row { definition = none }) wid t.workloads)
                (Notes-map session _ (lookup wid t.workloads) (λ row k. k) h))
              e)
        | inr (x, e) ↦ rw (e) h
      ])
    ]

pub set_enabled-Claimed :
    (wid session id : String) (b : Bool) (t : Tables)
    → Claimed wid session t
    → Claimed wid session (set_enabled id b t).1
unfolding set_enabled
set_enabled-Claimed wid session id b t h =
    adjust-Notes wid session id (λ row. record row { enabled = b }) t.workloads (λ row e. e) h

pub insert_execution-Claimed :
    (wid session : String) (e : StoredExecution) (t : Tables)
    → Claimed wid session t
    → Claimed wid session (changed t (insert_execution e t))
unfolding insert_execution
insert_execution-Claimed wid session e t h =
    subst (λ m. Notes session (lookup wid m)) (ground arith) h
