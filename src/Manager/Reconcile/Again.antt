-- ===== src/Manager/Reconcile/Again.antt =====
-- crates/controller/src/manager.rs: what `reconcile_reload` leaves.
use Prim.Native.String.{String}
use susm.Common.{
  ℕ, List, ◌++◌, ◌⊎◌, ◌↔◌, arith, ◌≡◌, refl, ap, ◌∙◌, Bool, true, false, ◌||◌, Option, none, some,
  [], ◌∷◌, Bool-cases, inl, inr, if◌then◌else◌,
}
use susm.Common.Maps.{Map, lookup, map_entries, lookup-map_entries}
use susm.Protocol.{ExecutionConfiguration}
use susm.Storage.Operations.{same_bytes}
use susm.Storage.Reload.{same_bytes_refl}
use susm.Manager.{Setting, ExecutionCommand, sent, WorkloadRecord, ActiveExecution, State}
use susm.Manager.Lifecycle.{send, digest}
use susm.Manager.Snapshot.{policy_update}
use susm.Manager.Reconcile.{
  definition_in, needs_restart, new_policy, synchronized, reconciled, reconcile_changes,
  any_changes, reconcile_reload, different,
}

different-same : (b : Bool) → different b b ≡ false
different-same true = refl
different-same false = refl

same_bytes_sound : (a b : List ℕ) → same_bytes a b ≡ true → a ≡ b
same_bytes_sound [] [] h = refl
same_bytes_sound [] (b ∷ bs) h = ground arith
same_bytes_sound (a ∷ c) [] h = ground arith
same_bytes_sound (a ∷ c) (b ∷ bs) h = ground (arith, same_bytes_sound c bs (ground arith))

same_bytes_different : (a b : List ℕ) → same_bytes a b ≡ false → ¬ (a ≡ b)
same_bytes_different a b h e = cc (ap (λ c. same_bytes c b) e, h, same_bytes_refl b)

module _ (x : Setting) where
  synchronized-fields :
      (d : ExecutionConfiguration) (a : ActiveExecution)
      → ((synchronized x d a).restart_required ≡ a.restart_required)
        × ((synchronized x d a).policy_hash ≡ a.policy_hash)
        × ((synchronized x d a).process_definition_hash ≡ a.process_definition_hash)
  unfolding synchronized send
  synchronized-fields d a = elim (Bool-cases a.policy_sync_pending) [
    | inl h ↦ rw (h) (refl, refl, refl)
    | inr h ↦ rw (h) (refl, refl, refl)
  ]

  chosen :
      (d : ExecutionConfiguration) (a : ActiveExecution)
      → same_bytes
          (if new_policy x d a then (policy_update (digest x) d).policy_hash else a.policy_hash)
          (policy_update (digest x) d).policy_hash
        ≡ true
  chosen d a =
      elim (Bool-cases (same_bytes a.policy_hash (policy_update (digest x) d).policy_hash)) [
        | inl h ↦ rw (h) h
        | inr h ↦ rw (h) (same_bytes_refl (policy_update (digest x) d).policy_hash)
      ]

  reconciled-unchanged :
      (d : Option ExecutionConfiguration) (a : ActiveExecution)
      → reconcile_changes x d (reconciled x d a) ≡ false
  unfolding reconciled reconcile_changes
  reconciled-unchanged none a = refl
  reconciled-unchanged (some d) a =
      let b = record a {
        restart_required = needs_restart x d a;
        policy_hash =
            if new_policy x d a then (policy_update (digest x) d).policy_hash else a.policy_hash;
        policy_sync_pending = new_policy x d a || a.policy_sync_pending;
      } in
      let (restart, hash, process) = synchronized-fields d b in
      rw (restart, hash, process, chosen d a, different-same (needs_restart x d a)) refl

  none-changes :
      (w : Map WorkloadRecord) (active : Map ActiveExecution)
      → any_changes x w (map_entries (λ id a. reconciled x (definition_in id w) a) active) ≡ false
  unfolding any_changes map_entries
  none-changes w [] = refl
  none-changes w ((id, a) ∷ rest) =
      rw (reconciled-unchanged (definition_in id w) a, none-changes w rest) refl

  -- The command that announces the policy of the definition to a supervisor.
  abbrev pub announcement : ExecutionConfiguration → ExecutionCommand
  announcement d = record {
    kind = "update-policy";
    payload = x.encode_update (policy_update (digest x) d);
  }

  -- The policy was known to the supervisor, and nothing is sent; or it was not, and is announced.
  abbrev pub Announced : ExecutionConfiguration → ActiveExecution → ActiveExecution → Type 0
  Announced d a b =
      ((a.policy_hash ≡ (policy_update (digest x) d).policy_hash)
        × (a.policy_sync_pending ≡ false)
        × (b.policy_sync_pending ≡ false)
        × (b.commands ≡ a.commands))
      ⊎ (((¬ (a.policy_hash ≡ (policy_update (digest x) d).policy_hash))
            ⊎ (a.policy_sync_pending ≡ true))
          × (b.policy_sync_pending ≡ true)
          × (b.commands ≡ a.commands ++ sent (announcement d) ∷ []))

  -- The execution `a` has become `b`, which is in step with the definition.
  pub record UpToDate (d : ExecutionConfiguration) (a b : ActiveExecution) : Type 0 where
    pub same : (b.execution_id ≡ a.execution_id) × (b.state ≡ a.state)
    pub restart :
        (b.restart_required ≡ false) ↔ (a.process_definition_hash ≡ d.process_definition_hash)
    pub policy-eq : b.policy_hash ≡ (policy_update (digest x) d).policy_hash
    pub announced : Announced d a b

  needs_restart_iff :
      (d : ExecutionConfiguration) (a : ActiveExecution)
      → (needs_restart x d a ≡ false) ↔ (a.process_definition_hash ≡ d.process_definition_hash)
  needs_restart_iff d a = (
    λ h. same_bytes_sound a.process_definition_hash d.process_definition_hash (ground arith),
    λ e. rw (e, same_bytes_refl d.process_definition_hash) refl,
  )

  known-UpToDate :
      (d : ExecutionConfiguration) (a : ActiveExecution)
      → a.policy_hash ≡ (policy_update (digest x) d).policy_hash
      → new_policy x d a ≡ false
      → UpToDate d a (reconciled x (some d) a)
  unfolding reconciled synchronized send
  known-UpToDate d a e n = elim (Bool-cases a.policy_sync_pending) [
    | inl p ↦
        rw (n, p)
          (record {
            same = (refl, refl);
            restart = needs_restart_iff d a;
            policy-eq = e;
            announced = inr (inr refl, refl, refl);
          })
    | inr p ↦
        rw (n, p)
          (record {
            same = (refl, refl);
            restart = needs_restart_iff d a;
            policy-eq = e;
            announced = inl (e, refl, refl, refl);
          })
  ]

  new-UpToDate :
      (d : ExecutionConfiguration) (a : ActiveExecution)
      → (¬ (a.policy_hash ≡ (policy_update (digest x) d).policy_hash))
      → new_policy x d a ≡ true
      → UpToDate d a (reconciled x (some d) a)
  unfolding reconciled synchronized send
  new-UpToDate d a e n = rw (n) (record {
    same = (refl, refl);
    restart = needs_restart_iff d a;
    policy-eq = refl;
    announced = inr (inl e, refl, refl);
  })

  reconciled-UpToDate :
      (d : ExecutionConfiguration) (a : ActiveExecution) → UpToDate d a (reconciled x (some d) a)
  reconciled-UpToDate d a =
      let hash = (policy_update (digest x) d).policy_hash in
      elim (Bool-cases (same_bytes a.policy_hash hash)) [
        | inl h ↦ known-UpToDate d a (same_bytes_sound a.policy_hash hash h) (rw (h) refl)
        | inr h ↦ new-UpToDate d a (λ e. same_bytes_different a.policy_hash hash h e) (rw (h) refl)
      ]

  -- A reconciliation leaves each active execution whose workload is defined with the policy hash of
  -- the new definition, in the same state. A restart is required of it exactly if its process
  -- definition is another than the new one; the policy is waiting to be confirmed, and the command
  -- update-policy with it has been sent after the earlier commands, exactly if the hash has changed or
  -- was waiting before. A second reconciliation reports no change.
  pub reconcile_reload-UpToDate :
      (s : State) (id : String) (d : ExecutionConfiguration) (a : ActiveExecution)
      → definition_in id s.workloads ≡ some d
      → lookup id s.active ≡ some a
      → ((b : ActiveExecution) × (lookup id (reconcile_reload x s).1.active ≡ some b)
          × UpToDate d a b)
        × ((reconcile_reload x (reconcile_reload x s).1).0 ≡ false)
  unfolding reconcile_reload
  reconcile_reload-UpToDate s id d a h k = (
    (
      reconciled x (some d) a,
      lookup-map_entries (λ id a. reconciled x (definition_in id s.workloads) a) id s.active
          ∙ rw (k, h) refl,
      reconciled-UpToDate d a,
    ),
    none-changes s.workloads s.active,
  )
