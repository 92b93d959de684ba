-- ===== src/Manager/Tracking/Starts.antt =====
-- crates/controller/src/manager.rs: every way to start an execution, by the active executions and the
-- rows of its storage.
use Prim.Native.String.{String}
use text.Mathlib.Text.{◌==◌ as str_eq}
use susm.Common.{ℕ, ◌≡◌, refl, Bool, true, false, Option, none, some, if◌then◌else◌}
use susm.Common.Maps.{lookup}
use susm.Protocol.{ExecutionConfiguration}
use susm.Manager.{Setting, WorkloadRecord, ActiveExecution, Manager}
use susm.Manager.Lifecycle.{
  start, start_known, start_defined, start_inactive, launch, prepared, start_service, run_job,
  replace_kind, start_replacement, new_row, insert_row,
}
use susm.Manager.Tracking.{IsTracking}
use susm.Manager.Tracking.Starting.{Decodes, started-IsTracking}

pub if-IsTracking :
    (x : Setting) {A : Type 0} (b : Bool) (p q : A × Manager)
    → IsTracking x p.1
    → IsTracking x q.1
    → IsTracking x (if b then p else q).1
if-IsTracking x true p q h k = h
if-IsTracking x false p q h k = k

pub if-Manager :
    (x : Setting) (b : Bool) (p q : Manager)
    → IsTracking x p
    → IsTracking x q
    → IsTracking x (if b then p else q)
if-Manager x true p q h k = h
if-Manager x false p q h k = k

module _ (x : Setting) (decodes : Decodes x) where
  launch-IsTracking :
      (id fresh : String) (now : ℕ) (r : WorkloadRecord) (definition : ExecutionConfiguration)
      (session : Option String) (m : Manager)
      → lookup id m.state.active ≡ none
      → IsTracking x m
      → IsTracking x (launch x id fresh now r definition session m).1
  unfolding launch
  launch-IsTracking id fresh now r definition session m idle t =
      let build = prepared x definition fresh in
      started-IsTracking x decodes id fresh now r build session m
        (insert_row x session (new_row x build id fresh now) m.tables) idle refl t

  inactive-IsTracking :
      (id fresh : String) (now : ℕ) (exclusive : Bool) (session : Option String) (m : Manager)
      (r : WorkloadRecord) (definition : ExecutionConfiguration) (a : Option ActiveExecution)
      → lookup id m.state.active ≡ a
      → IsTracking x m
      → IsTracking x (start_inactive x id fresh now exclusive session m r definition a).1
  unfolding start_inactive
  inactive-IsTracking id fresh now exclusive session m r definition none h t =
      launch-IsTracking id fresh now r definition session m h t
  inactive-IsTracking id fresh now true session m r definition (some a) h t = t
  inactive-IsTracking id fresh now false session m r definition (some a) h t = t

  defined-IsTracking :
      (id fresh : String) (now : ℕ) (exclusive : Bool) (session : Option String) (m : Manager)
      (r : WorkloadRecord) (definition : Option ExecutionConfiguration)
      → IsTracking x m
      → IsTracking x (start_defined x id fresh now exclusive session m r definition).1
  unfolding start_defined
  defined-IsTracking id fresh now exclusive session m r none t = t
  defined-IsTracking id fresh now exclusive session m r (some definition) t =
      inactive-IsTracking id fresh now exclusive session m r definition (lookup id m.state.active)
        refl t

  known-IsTracking :
      (id fresh : String) (now : ℕ) (expected : String) (exclusive : Bool) (session : Option String)
      (m : Manager) (r : Option WorkloadRecord)
      → IsTracking x m
      → IsTracking x (start_known x id fresh now expected exclusive session m r).1
  unfolding start_known
  known-IsTracking id fresh now expected exclusive session m none t = t
  known-IsTracking id fresh now expected exclusive session m (some r) t =
      if-IsTracking x (str_eq r.kind expected) _ _
        (defined-IsTracking id fresh now exclusive session m r r.definition t) t

  pub start-IsTracking :
      (id fresh : String) (now : ℕ) (expected : String) (exclusive : Bool) (session : Option String)
      (m : Manager)
      → IsTracking x m
      → IsTracking x (start x id fresh now expected exclusive session m).1
  unfolding start
  start-IsTracking id fresh now expected exclusive session m t =
      if-IsTracking x m.state.session_ending _ _ t
        (known-IsTracking id fresh now expected exclusive session m (lookup id m.state.workloads) t)

  kind-IsTracking :
      (id fresh : String) (now : ℕ) (m : Manager) (r : Option WorkloadRecord)
      → IsTracking x m
      → IsTracking x (replace_kind x id fresh now m r)
  unfolding replace_kind start_service run_job
  kind-IsTracking id fresh now m none t = t
  kind-IsTracking id fresh now m (some r) t =
      if-Manager x (str_eq r.kind "service") _ _
        (start-IsTracking id fresh now "service" false none m t)
        (if-Manager x (str_eq r.kind "job") _ _ (start-IsTracking id fresh now "job" true none m t)
          t)

  pub replacement-IsTracking :
      (id fresh : String) (now : ℕ) (m : Manager)
      → IsTracking x m
      → IsTracking x (start_replacement x id fresh now m)
  unfolding start_replacement
  replacement-IsTracking id fresh now m t =
      kind-IsTracking id fresh now m (lookup id m.state.workloads) t
