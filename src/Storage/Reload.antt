-- ===== src/Storage/Reload.antt =====
-- crates/controller/src/storage.rs: what a reload of the configuration does to the workloads.
use Prim.Native.String.{String}
use text.Mathlib.Text.{◌==◌ as str_eq}
use text.Mathlib.TextEquality.{eq_iff}
use susm.Common.{
  ℕ, ◌≡◌, refl, sym, subst, ◌∙◌, true, false, Option, none, some, List, [], ◌∷◌, Bool-cases, inl,
  inr, ok, if◌then◌else◌, arith,
}
use susm.Common.Maps.{Map, lookup, insert, lookup-insert, lookup-map_entries}
use susm.Storage.{WorkloadRow, Tables, NewDefinition}
use susm.Storage.Operations.{replace_definitions, same_bytes, upserted, upsert_all, cleared}

-- The definition that a candidate gives a workload: the last one with its id.
unfoldable pub latest_definition : String → List NewDefinition → Option (List ℕ) → Option (List ℕ)
latest_definition wid [] before = before
latest_definition wid (d ∷ ds) before =
    latest_definition wid ds (if str_eq d.id wid then d.definition else before)

-- What a row keeps.
pub record Keeps (wid : String) (definition : Option (List ℕ)) (old : WorkloadRow)
    (m : Map WorkloadRow) : Type 0 where
  pub row : WorkloadRow
  pub found : lookup wid m ≡ some row
  pub enabled-eq : row.enabled ≡ old.enabled
  pub session-eq : row.last_triggered_session ≡ old.last_triggered_session
  pub outcome-eq : row.last_outcome ≡ old.last_outcome
  pub definition-eq : row.definition ≡ definition

insert-Keeps :
    (wid : String) (d : NewDefinition) (b : Option (List ℕ)) (old : WorkloadRow)
    (m : Map WorkloadRow)
    → Keeps wid b old m
    → Keeps wid
        (if str_eq d.id wid then d.definition else b)
        old
        (insert d.id (upserted d (lookup d.id m)) m)
insert-Keeps wid d b old m k = elim (Bool-cases (str_eq d.id wid)) [
  | inl same ↦
      let key : d.id ≡ wid = ground (arith, eq_iff d.id wid) in
      let at : lookup d.id m ≡ some k.row =
        subst (λ i. lookup i m ≡ some k.row) (sym key) k.found in
      rw (same, at)
        (record {
          row = upserted d (some k.row);
          found = rw (lookup-insert d.id wid (upserted d (some k.row)) m, same) refl;
          enabled-eq = k.enabled-eq;
          session-eq = k.session-eq;
          outcome-eq = k.outcome-eq;
          definition-eq = refl;
        })
  | inr other ↦ rw (other) (record {
    row = k.row;
    found = rw (lookup-insert d.id wid (upserted d (lookup d.id m)) m, other) k.found;
    enabled-eq = k.enabled-eq;
    session-eq = k.session-eq;
    outcome-eq = k.outcome-eq;
    definition-eq = k.definition-eq;
  })
]

upsert_all-Keeps :
    (wid : String) (ds : List NewDefinition) (b : Option (List ℕ)) (old : WorkloadRow)
    (m : Map WorkloadRow) {r : Map WorkloadRow}
    → Keeps wid b old m
    → upsert_all ds m ≡ ok r
    → Keeps wid (latest_definition wid ds b) old r
unfolding upsert_all latest_definition
upsert_all-Keeps wid [] b old m {r} k e = subst (Keeps wid b old) (ground arith) k
upsert_all-Keeps wid (d ∷ ds) b old m {r} k e =
    upsert_all-Keeps wid ds (if str_eq d.id wid then d.definition else b) old
      (insert d.id (upserted d (lookup d.id m)) m) {r = r} (insert-Keeps wid d b old m k)
      (ground arith)

cleared-Keeps :
    (wid : String) (old : WorkloadRow) (m : Map WorkloadRow)
    → lookup wid m ≡ some old
    → Keeps wid none old (cleared m)
cleared-Keeps wid old m h = record {
  row = record old { definition = none };
  found = lookup-map_entries (λ _ row. record row { definition = none }) wid m ∙ rw (h) refl;
  enabled-eq = refl;
  session-eq = refl;
  outcome-eq = refl;
  definition-eq = refl;
}

pub same_bytes_refl : (bs : List ℕ) → same_bytes bs bs ≡ true
same_bytes_refl [] = refl
same_bytes_refl (b ∷ bs) = ground (arith, same_bytes_refl bs)

replaced-rows :
    (g : List ℕ) (ds : List NewDefinition) (t : Tables) {next : Tables}
    → replace_definitions g ds t ≡ ok (true, next)
    → (upsert_all ds (cleared t.workloads) ≡ ok next.workloads)
      × (next.config_generation ≡ some g)
      × (next.executions ≡ t.executions)
unfolding replace_definitions
replaced-rows g ds t h = (ground arith, ground arith, ground arith)

replaced-again :
    (g : List ℕ) (ds : List NewDefinition) (t : Tables)
    → t.config_generation ≡ some g
    → replace_definitions g ds t ≡ ok (false, t)
unfolding replace_definitions
replaced-again g ds t h = rw (h, same_bytes_refl g) refl

-- A reload that changes the tables gives every workload that was known the definition of the new
-- configuration, or none if it is not there any more, and keeps the rest of its row: whether it is
-- enabled, the session that has started it, and its last outcome. The executions stay as they are, and
-- a reload of the same generation after it changes nothing, whatever it brings.
pub replace_definitions-Keeps :
    (g : List ℕ) (ds es : List NewDefinition) (t : Tables) (wid : String) (old : WorkloadRow)
    {next : Tables}
    → lookup wid t.workloads ≡ some old
    → replace_definitions g ds t ≡ ok (true, next)
    → Keeps wid (latest_definition wid ds none) old next.workloads
      × (next.executions ≡ t.executions)
      × (replace_definitions g es next ≡ ok (false, next))
replace_definitions-Keeps g ds es t wid old {next} h e =
    let r = replaced-rows g ds t {next = next} e in
    (
      upsert_all-Keeps wid ds none old (cleared t.workloads) {r = next.workloads}
          (cleared-Keeps wid old t.workloads h) r.0,
      r.2,
      replaced-again g es next r.1,
    )
