-- ===== src/Manager/Launching/Budget.antt =====
-- crates/controller/src/manager.rs: how often `run_execution` starts a supervisor.
use susm.Common.{
  ℕ, suc, ◌+◌, ◌≤◌, ◌<◌, ◌≡◌, refl, ap, ◌∙◌, Option, none, some, List, [], ◌∷◌, Bool-cases, inl,
  inr, arith, length, leb, Bool, true, false, All,
}
use susm.Protocol.{ExecutionConfiguration}
use susm.Manager.Completion.{ExecutionFinish}
use susm.Manager.Launching.{
  AttemptResult, Spawned, process, spawn_error, WaitEnd, process_exited, cancelled_first, hanging,
  Round, RoundEnd, again, broken, given_up, waits, Progress, finished, waiting, after_exit,
  next_failure, after_sleep, after_wait, after_spawn, round_end, counted, run_rounds, run_execution,
  finish_of,
}

-- The process of the round exits, if it starts one.
abbrev pub exits : Round → Bool
exits r = elim r.spawned [
  | process process_id ↦ elim r.wait [
    | process_exited ↦ true
    | cancelled_first ↦ true
    | hanging ↦ false
  ]
  | spawn_error error ↦ true
]

-- A round after which the loop goes on has failed, and is not the eighth that has.
abbrev InBudget : ℕ → RoundEnd → Type 0
InBudget failures (again next process_id) = (next ≡ suc failures) × (next < 8)
InBudget failures (broken result cancelled process_id) = Unit
InBudget failures (given_up f) = Unit
InBudget failures waits = ⊥

next_failure-eq : (failures : ℕ) → failures < 8 → next_failure failures ≡ suc failures
next_failure-eq failures h = ground arith

sleep-InBudget :
    (r : Round) (failures process_id : ℕ)
    → suc failures < 8
    → InBudget failures (after_sleep r (suc failures) process_id)
unfolding after_sleep
sleep-InBudget r failures process_id h = elim (Bool-cases r.cancelled_in_sleep) [
  | inl c ↦ rw (c) tt
  | inr c ↦ rw (c) (refl, h)
]

exit-InBudget :
    (r : Round) (failures process_id : ℕ) (cancelled : Bool) (result : Option AttemptResult)
    → failures < 8
    → InBudget failures (after_exit r failures process_id cancelled result)
unfolding after_exit
exit-InBudget r failures process_id cancelled (some result) h = tt
exit-InBudget r failures process_id true none h = tt
exit-InBudget r failures process_id false none h =
    rw (next_failure-eq failures h) (elim (Bool-cases (leb 8 (suc failures))) [
      | inl e ↦ rw (e) tt
      | inr e ↦ rw (e) (sleep-InBudget r failures process_id (ground arith))
    ])

wait-InBudget :
    (r : Round) (failures process_id : ℕ) (w : WaitEnd)
    → failures < 8
    → exits (record r { spawned = process process_id; wait = w }) ≡ true
    → InBudget failures (after_wait r failures process_id w)
unfolding after_wait
wait-InBudget r failures process_id process_exited h e =
    exit-InBudget r failures process_id false r.result h
wait-InBudget r failures process_id cancelled_first h e =
    exit-InBudget r failures process_id true r.result h
wait-InBudget r failures process_id hanging h e = ground arith

spawn-InBudget :
    (r : Round) (failures before : ℕ) (s : Spawned)
    → failures < 8
    → exits (record r { spawned = s }) ≡ true
    → InBudget failures (after_spawn r failures before s)
unfolding after_spawn
spawn-InBudget r failures before (process process_id) h e =
    wait-InBudget r failures process_id r.wait h e
spawn-InBudget r failures before (spawn_error error) h e =
    rw (next_failure-eq failures h) (elim (Bool-cases (leb 8 (suc failures))) [
      | inl e ↦ rw (e) tt
      | inr e ↦ rw (e) (sleep-InBudget r failures before (ground arith))
    ])

round-InBudget :
    (r : Round) (failures process_id : ℕ)
    → failures < 8
    → exits r ≡ true
    → InBudget failures (round_end r failures process_id)
unfolding round_end
round-InBudget r failures process_id h e = elim (Bool-cases r.is_cancelled) [
  | inl c ↦ rw (c) tt
  | inr c ↦ rw (c) (spawn-InBudget r failures process_id r.spawned h e)
]

-- The task has finished, and its rounds and the failures before them are so many at most.
pub record EndsWithin (n failures : ℕ) (result : Option (ℕ × Progress)) : Type 0 where
  pub rounds : ℕ
  pub finish : ExecutionFinish
  pub result-eq : result ≡ some (rounds, finished finish)
  pub within : failures + rounds ≤ n

go_on :
    (c : ExecutionConfiguration) (rs : List Round) (failures : ℕ) (e : RoundEnd)
    → failures < 8
    → InBudget failures e
    → ((process_id : ℕ)
        → suc failures < 8
        → EndsWithin 8 (suc failures) (run_rounds c rs (suc failures) process_id))
    → EndsWithin 8 failures (elim e [
      | again next process_id ↦ counted (run_rounds c rs next process_id)
      | broken result cancelled process_id ↦
          some (1, finished (finish_of c result cancelled process_id))
      | given_up f ↦ some (1, finished f)
      | waits ↦ some (1, waiting)
    ])
go_on c rs failures (broken result cancelled process_id) h b rest = record {
  rounds = 1;
  finish = finish_of c result cancelled process_id;
  result-eq = refl;
  within = ground arith;
}
go_on c rs failures (given_up f) h b rest = record {
  rounds = 1;
  finish = f;
  result-eq = refl;
  within = ground arith;
}
go_on c rs failures waits h b rest = elim b [ ]
go_on c rs failures (again next process_id) h (same, b) rest =
    let r = rest process_id (ground arith) in
    record {
      rounds = suc r.rounds;
      finish = r.finish;
      result-eq = ap (λ n. counted (run_rounds c rs n process_id)) same ∙ ap counted r.result-eq;
      within = ground arith;
    }

rounds-EndsWithin :
    (c : ExecutionConfiguration) (rs : List Round) (failures process_id : ℕ)
    → failures < 8
    → 8 ≤ failures + length rs
    → All (λ r. exits r ≡ true) rs
    → EndsWithin 8 failures (run_rounds c rs failures process_id)
unfolding run_rounds
rounds-EndsWithin c [] failures process_id h k e = elim (no_room h k) [ ]
  where
    no_room : failures < 8 → 8 ≤ failures + 0 → ⊥
    no_room h k = omega arith
rounds-EndsWithin c (r ∷ rs) failures process_id h k (e, es) =
    go_on c rs failures (round_end r failures process_id) h
      (round-InBudget r failures process_id h e)
      (λ p b. rounds-EndsWithin c rs (suc failures) p b (ground arith) es)

-- If every supervisor process that it starts exits, by itself or after a cancellation, then the task
-- that keeps an execution's supervisor running finishes, and eight rounds of its loop are enough for it,
-- whenever it is cancelled, whichever starts fail and whatever results it finds.
pub run_execution-EndsWithin :
    (c : ExecutionConfiguration) (rs : List Round)
    → 8 ≤ length rs
    → All (λ r. exits r ≡ true) rs
    → EndsWithin 8 0 (run_execution c rs)
unfolding run_execution
run_execution-EndsWithin c rs h e = rounds-EndsWithin c rs 0 0 (ground arith) (ground arith) e
