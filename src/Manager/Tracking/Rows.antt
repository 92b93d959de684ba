-- ===== src/Manager/Tracking/Rows.antt =====
-- crates/controller/src/manager.rs: single changes of the active executions and of the rows.
use Prim.Native.String.{String}
use text.Mathlib.Text.{◌==◌ as str_eq}
use text.Mathlib.TextEquality.{eq_iff}
use mathlib.Core.Option
use susm.Common.{
  ◌<◌, ◌≡◌, refl, sym, ap, subst, ◌∙◌, Bool, true, false, ◌&&◌, Option, none, some, List, [], ◌∷◌,
  All, Bool-cases, inl, inr, if◌then◌else◌, arith,
}
use susm.Common.Maps.{
  Map, lookup, insert, remove_key, adjust, map_entries, lookup-adjust, lookup-remove_key,
  lookup-map_entries, lookup-insert,
}
use susm.Common.Maps.Keys.{has_unique_keys}
use susm.Storage.{StoredExecution}
use susm.Manager.{Setting, ActiveExecution, Task}
use susm.Manager.Tracking.{
  runs, is_active, is_open, is_unfinished, is_sound, belongs, IsTaskOf, Tracks,
}

-- A change of an active execution that keeps which one it is.
abbrev pub KeepsId : (ActiveExecution → ActiveExecution) → Type 0
KeepsId f = (a : ActiveExecution) → (f a).execution_id ≡ a.execution_id

map-runs :
    (id : String) (b : Bool) (f : ActiveExecution → ActiveExecution) (o : Option ActiveExecution)
    → KeepsId f
    → runs id (if b then Option.map f o else o) ≡ runs id o
map-runs id true f none k = refl
map-runs id true f (some a) k = rw (k a) refl
map-runs id false f o k = refl

pub adjust-is_active :
    (key : String) (f : ActiveExecution → ActiveExecution) (m : Map ActiveExecution)
    (wid id : String)
    → KeepsId f
    → is_active wid id (adjust key f m) ≡ is_active wid id m
adjust-is_active key f m wid id k =
    rw (lookup-adjust key wid f m) (map-runs id (str_eq key wid) f (lookup wid m) k)

pub map_entries-is_active :
    (f : String → ActiveExecution → ActiveExecution) (m : Map ActiveExecution) (wid id : String)
    → ((key : String) → KeepsId (f key))
    → is_active wid id (map_entries f m) ≡ is_active wid id m
map_entries-is_active f m wid id k =
    rw (lookup-map_entries f wid m) (map-runs id true (f wid) (lookup wid m) (k wid))

pub remove-is_active :
    (key : String) (m : Map ActiveExecution) (wid id : String)
    → is_active wid id (remove_key key m) ≡ (if str_eq key wid then false else is_active wid id m)
remove-is_active key m wid id =
    rw (lookup-remove_key key wid m)
      (elim (Bool-cases (str_eq key wid)) [ inl h ↦ rw (h) refl | inr h ↦ rw (h) refl ])

pub insert-is_active :
    (key : String) (a : ActiveExecution) (m : Map ActiveExecution) (wid id : String)
    → is_active wid id (insert key a m)
      ≡ (if str_eq key wid then str_eq a.execution_id id else is_active wid id m)
insert-is_active key a m wid id =
    rw (lookup-insert key wid a m)
      (elim (Bool-cases (str_eq key wid)) [ inl h ↦ rw (h) refl | inr h ↦ rw (h) refl ])

-- A change of a row that keeps whose it is.
pub record KeepsRow (g : StoredExecution → StoredExecution) : Type 0 where
  pub id : (e : StoredExecution) → (g e).id ≡ e.id
  pub workload_id : (e : StoredExecution) → (g e).workload_id ≡ e.workload_id
  pub snapshot : (e : StoredExecution) → (g e).snapshot ≡ e.snapshot

map-is_sound :
    (x : Setting) (id : String) (b : Bool) (g : StoredExecution → StoredExecution)
    (o : Option StoredExecution)
    → KeepsRow g
    → is_sound x id (if b then Option.map g o else o) ≡ is_sound x id o
map-is_sound x id true g none k = refl
map-is_sound x id true g (some e) k = rw (k.id e, k.snapshot e) refl
map-is_sound x id false g o k = refl

map-belongs :
    (wid : String) (b : Bool) (g : StoredExecution → StoredExecution) (o : Option StoredExecution)
    → KeepsRow g
    → belongs wid (if b then Option.map g o else o) ≡ belongs wid o
map-belongs wid true g none k = refl
map-belongs wid true g (some e) k = rw (k.workload_id e) refl
map-belongs wid false g o k = refl

map-is_open :
    (wid : String) (b : Bool) (g : StoredExecution → StoredExecution) (o : Option StoredExecution)
    → KeepsRow g
    → ((e : StoredExecution) → (g e).ended_unix_ms ≡ e.ended_unix_ms)
    → is_open wid (if b then Option.map g o else o) ≡ is_open wid o
map-is_open wid true g none k h = refl
map-is_open wid true g (some e) k h = rw (k.workload_id e, h e) refl
map-is_open wid false g o k h = refl

adjust-is_sound :
    (x : Setting) (key : String) (g : StoredExecution → StoredExecution) (m : Map StoredExecution)
    (id : String)
    → KeepsRow g
    → is_sound x id (lookup id (adjust key g m)) ≡ is_sound x id (lookup id m)
adjust-is_sound x key g m id k =
    rw (lookup-adjust key id g m) (map-is_sound x id (str_eq key id) g (lookup id m) k)

-- The tasks belong where they did.
pub adjust-IsTaskOf :
    (key : String) (g : StoredExecution → StoredExecution) (m : Map StoredExecution)
    (tasks : List Task)
    → KeepsRow g
    → All (IsTaskOf m) tasks
    → All (IsTaskOf (adjust key g m)) tasks
adjust-IsTaskOf key g m [] k h = h
adjust-IsTaskOf key g m (t ∷ ts) k (h, hs) = (
  (rw (lookup-adjust key t.execution_id g m)
        (map-belongs t.workload_id (str_eq key t.execution_id) g (lookup t.execution_id m) k))
      ∙ h,
  adjust-IsTaskOf key g m ts k hs,
)

ended-is_open :
    (wid : String) (row : StoredExecution) → 0 < row.ended_unix_ms → is_open wid (some row) ≡ false
ended-is_open wid row h = ground arith

end-is_unfinished :
    (w key : String) (row : StoredExecution) (g : StoredExecution → StoredExecution)
    (m : Map StoredExecution) (wid id : String)
    → 0 < (g row).ended_unix_ms
    → lookup key m ≡ some row
    → row.workload_id ≡ w
    → is_unfinished wid id (adjust key g m)
      ≡ (if str_eq w wid && str_eq key id then false else is_unfinished wid id m)
end-is_unfinished w key row g m wid id ended found owner =
    rw (lookup-adjust key id g m) (elim (Bool-cases (str_eq key id)) [
      | inl same ↦
          let at : lookup id m ≡ some row =
            subst (λ i. lookup i m ≡ some row) (ground (arith, eq_iff key id)) found in
          rw (same, at, sym owner, ended-is_open wid (g row) ended)
            (elim (Bool-cases (str_eq row.workload_id wid)) [
              | inl h ↦ rw (h) refl
              | inr h ↦ rw (h) refl
            ])
      | inr other ↦
          rw (other)
            (elim (Bool-cases (str_eq w wid)) [ inl h ↦ rw (h) refl | inr h ↦ rw (h) refl ])
    ])

module _ (x : Setting) {active : Map ActiveExecution} {executions : Map StoredExecution}
    {tasks : List Task} where
  -- The active executions stay the same.
  pub same-Tracks :
      (next : Map ActiveExecution)
      → has_unique_keys next ≡ true
      → ((wid id : String) → is_active wid id next ≡ is_active wid id active)
      → Tracks x active executions tasks
      → Tracks x next executions tasks
  same-Tracks next u h t = record {
    sound = t.sound;
    agree = λ wid id. h wid id ∙ t.agree wid id;
    unique = u;
    known = t.known;
  }

  -- A row changes and does not end.
  pub row-Tracks :
      (key : String) (g : StoredExecution → StoredExecution)
      → KeepsRow g
      → ((e : StoredExecution) → (g e).ended_unix_ms ≡ e.ended_unix_ms)
      → Tracks x active executions tasks
      → Tracks x active (adjust key g executions) tasks
  row-Tracks key g k h t = record {
    sound = λ id. adjust-is_sound x key g executions id k ∙ t.sound id;
    agree = λ wid id.
        t.agree wid id
        ∙ sym (
            rw (lookup-adjust key id g executions)
              (map-is_open wid (str_eq key id) g (lookup id executions) k h));
    unique = t.unique;
    known = adjust-IsTaskOf key g executions tasks k t.known;
  }

  -- The execution `key` of the workload `w` ends in both.
  pub end-Tracks :
      (w key : String) (row : StoredExecution) (g : StoredExecution → StoredExecution)
      (next : Map ActiveExecution)
      → KeepsRow g
      → (0 < (g row).ended_unix_ms)
      → lookup key executions ≡ some row
      → row.workload_id ≡ w
      → has_unique_keys next ≡ true
      → ((wid id : String)
          → is_active wid id next
            ≡ (if str_eq w wid && str_eq key id then false else is_active wid id active))
      → Tracks x active executions tasks
      → Tracks x next (adjust key g executions) tasks
  end-Tracks w key row g next k ended found owner u h t = record {
    unique = u;
    sound = λ id. adjust-is_sound x key g executions id k ∙ t.sound id;
    agree = λ wid id.
        h wid id
        ∙ ap (λ b. if str_eq w wid && str_eq key id then false else b) (t.agree wid id)
        ∙ sym (end-is_unfinished w key row g executions wid id ended found owner);
    known = adjust-IsTaskOf key g executions tasks k t.known;
  }
