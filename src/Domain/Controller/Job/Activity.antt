-- ===== src/Domain/Controller/Job/Activity.antt =====
-- A job has at most one execution, and reruns coalesce.
use susm.Common.{
  ◌∷◌, [], List, ◌++◌, ◌≡◌, inl, inr, refl, arith, ok, err, Result-cases, if◌then◌else◌, ◌==◌, true,
  ap, sym,
}
use susm.Domain.Ids.{ExecutionId}
use susm.Domain.Transition.{without_effects, with_effects}
use susm.Domain.Execution.{ExecutionOutcome, JobCancelCause, JobExecutionOrigin}
use susm.Domain.Controller.{
  is_available, AfterActive, nothing, JobActivity, idle, active, JobState, RerunDisposition,
  not_requested, JobActivityEvent, start_requested, rerun_requested, cancel_requested,
  execution_terminated, JobActivityEffect, start_execution, cancel_execution, stale_execution,
}
use susm.Domain.Controller.Job.{Step, Outcome, transition}

abbrev pub live : JobActivity → List ExecutionId
live idle = []
live (active id _) = id ∷ []

abbrev pub started : List JobActivityEffect → List ExecutionId
started [] = []
started (start_execution id _ ∷ es) = id ∷ started es
started (_ ∷ es) = started es

abbrev pub remove : ExecutionId → List ExecutionId → List ExecutionId
remove id [] = []
remove id (x ∷ xs) = if x == id then remove id xs else x ∷ remove id xs

abbrev pub ended_by : JobActivityEvent → List ExecutionId → List ExecutionId
ended_by (execution_terminated id _ _) xs = remove id xs
ended_by _ xs = xs

-- The state and the executions that exist. An accepted event ends the one that it reports as
-- terminated and creates those that its effects start; a rejected event changes nothing.
abbrev pub observed :
    JobState × List ExecutionId → JobActivityEvent → Outcome → JobState × List ExecutionId
observed (s, xs) e (ok t) = (t.state, started t.effects ++ ended_by e xs)
observed (s, xs) e (err _) = (s, xs)

unfoldable pub observe :
    JobState × List ExecutionId → List JobActivityEvent → JobState × List ExecutionId
observe w [] = w
observe w (e ∷ es) = observe (observed w e (transition w.0 e)) es

transition-live :
    (s : JobState) (e : JobActivityEvent) {t : Step}
    → transition s e ≡ ok t
    → live t.state.activity ≡ started t.effects ++ ended_by e (live s.activity)
unfolding transition
transition-live s (start_requested id o) h = ground arith
transition-live s (rerun_requested id) h = ground arith
transition-live s cancel_requested h = ground arith
transition-live s (execution_terminated id o d) h = ground arith

observed-live :
    (s : JobState) (xs : List ExecutionId) (e : JobActivityEvent)
    → xs ≡ live s.activity
    → let w = observed (s, xs) e (transition s e) in w.1 ≡ live w.0.activity
observed-live s xs e p = elim (Result-cases (transition s e)) [
  | inl (t, h) ↦ rw (h, p) (sym (transition-live s e {t = t} h))
  | inr (x, h) ↦ rw h p
]

-- If the job's activity knows the executions that exist, it does so after any history: those that
-- effects have started and no accepted report has ended are exactly its active execution.
pub observe_job-live :
    (s : JobState) (xs : List ExecutionId) (es : List JobActivityEvent)
    → xs ≡ live s.activity
    → (observe (s, xs) es).1 ≡ live (observe (s, xs) es).0.activity
unfolding observe
observe_job-live s xs [] p = p
observe_job-live s xs (e ∷ es) p =
    let w = observed (s, xs) e (transition s e) in
    observe_job-live w.0 w.1 es (observed-live s xs e p)

abbrev pub kept : JobState → Outcome → Step
kept s (ok t) = t
kept s (err _) = without_effects s

-- A history; a rejected event changes nothing.
unfoldable pub run : JobState → List JobActivityEvent → JobState × List JobActivityEffect
run s [] = (s, [])
run s (e ∷ es) =
    let t = kept s (transition s e) in let rest = run t.state es in (rest.0, t.effects ++ rest.1)

run-cons :
    (s : JobState) (e : JobActivityEvent) (es : List JobActivityEvent) {t : Step}
    → kept s (transition s e) ≡ t
    → run s (e ∷ es) ≡ ((run t.state es).0, t.effects ++ (run t.state es).1)
unfolding run
run-cons s e es h = ap (λ t. ((run t.state es).0, t.effects ++ (run t.state es).1)) h

run-nil : (s : JobState) → run s [] ≡ (s, [])
unfolding run
run-nil s = refl

-- Rerun requests, with the identities that they would use if the job were idle.
abbrev pub reruns : List ExecutionId → List JobActivityEvent → List JobActivityEvent
reruns [] es = es
reruns (id ∷ ids) es = rerun_requested id ∷ reruns ids es

abbrev rerunning : JobState → ExecutionId → JobState
rerunning s id = record s { activity = active id AfterActive.rerun }

more_reruns :
    (s : JobState) (id x : ExecutionId)
    → is_available s.definition ≡ true
    → s.activity ≡ active id AfterActive.rerun
    → kept s (transition s (rerun_requested x)) ≡ without_effects s
unfolding transition
more_reruns s id x a p = ground arith

replaced :
    (s : JobState) (id y : ExecutionId) (o : ExecutionOutcome)
    → s.activity ≡ active id AfterActive.rerun
    → kept s (transition s (execution_terminated id o (RerunDisposition.start y)))
      ≡ with_effects
          (record s { activity = active y nothing })
          (start_execution y (JobExecutionOrigin.rerun id) ∷ [])
unfolding transition
replaced s id y o p = ground arith

run-more_reruns :
    (s : JobState) (id y : ExecutionId) (o : ExecutionOutcome) (xs : List ExecutionId)
    → is_available s.definition ≡ true
    → s.activity ≡ active id AfterActive.rerun
    → let w = run s (reruns xs (execution_terminated id o (RerunDisposition.start y) ∷ [])) in
      (w.0.activity ≡ active y nothing)
      × (w.1 ≡ start_execution y (JobExecutionOrigin.rerun id) ∷ [])
run-more_reruns s id y o [] a p = rw (run-cons s _ [] (replaced s id y o p), run-nil) (refl, refl)
run-more_reruns s id y o (x ∷ xs) a p =
    rw (run-cons s _ (reruns xs _) (more_reruns s id x a p)) (run-more_reruns s id y o xs a p)

first_rerun :
    (s : JobState) (id x : ExecutionId)
    → is_available s.definition ≡ true
    → s.activity ≡ active id nothing
    → kept s (transition s (rerun_requested x))
      ≡ with_effects (rerunning s id) (cancel_execution id JobCancelCause.rerun ∷ [])
unfolding transition
first_rerun s id x a p = ground arith

-- Reruns of an active job with an available definition and no rerun pending coalesce: however
-- many come, one at least, before the execution ends, it is cancelled once, and one replacement
-- starts that names it as its predecessor.
pub run-reruns :
    (s : JobState) (id x y : ExecutionId) (o : ExecutionOutcome) (xs : List ExecutionId)
    → is_available s.definition ≡ true
    → s.activity ≡ active id nothing
    → let w = run s (reruns (x ∷ xs) (execution_terminated id o (RerunDisposition.start y) ∷ [])) in
      (w.0.activity ≡ active y nothing)
      × (w.1
          ≡ cancel_execution id JobCancelCause.rerun
            ∷ start_execution y (JobExecutionOrigin.rerun id)
            ∷ [])
run-reruns s id x y o xs a p =
    let rest = run-more_reruns (rerunning s id) id y o xs a refl in
    rw (run-cons s _ (reruns xs _) (first_rerun s id x a p))
      (rest.0, ap (λ l. cancel_execution id JobCancelCause.rerun ∷ l) rest.1)

-- A cancel of an active job takes a pending rerun back: after it the end of the execution leaves
-- the job idle, with no further execution, and a report that asks for a replacement is refused as
-- stale.
pub cancel_clears_rerun :
    (s : JobState) (id y : ExecutionId) (after : AfterActive) (o : ExecutionOutcome)
    → s.activity ≡ active id after
    → let c = kept s (transition s cancel_requested) in
      let t = kept c.state (transition c.state (execution_terminated id o not_requested)) in
      (c.effects ≡ cancel_execution id JobCancelCause.cancel ∷ [])
      × (t.state.activity ≡ idle)
      × (t.effects ≡ [])
      × (transition c.state (execution_terminated id o (RerunDisposition.start y))
          ≡ err stale_execution)
unfolding transition
cancel_clears_rerun s id y after o p = (ground arith, ground arith, ground arith, ground arith)
