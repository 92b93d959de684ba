-- ===== src/Manager/Examples.antt =====
-- A manager of one service.
use susm.Common.{◌≡◌, refl, true, false, none, some, List, [], ◌∷◌, arith}
use susm.Common.Maps.{lookup}
use susm.Common.Maps.Keys.{has_unique_keys}
use susm.Protocol.{ExecutionConfiguration}
use susm.Manager.{Setting, ActiveExecution, State, Manager, subscribed}
use susm.Manager.Completion.{ExecutionFinish}
use susm.Manager.Reconcile.{reconcile_reload}
use susm.Manager.Reconcile.Again.{UpToDate, reconcile_reload-UpToDate}
use susm.Manager.History.{
  Call, service_start, service_restart, process_started, attachment, observation, task_ended,
  session_end, steps,
}
use susm.Manager.Tracking.{IsTracking}
use susm.Manager.Tracking.Histories.{steps-IsTracking}
use susm.Manager.Ending.{IsQuiet}
use susm.Manager.Ending.Histories.{steps-IsQuiet}
use susm.Manager.Launching.{Round, process_exited, spawn_error, process, run_execution}
use susm.Manager.Launching.Budget.{EndsWithin, run_execution-EndsWithin}
use susm.Storage.{StoredExecution}

abbrev configuration : ExecutionConfiguration
configuration = record {
  workload_id = "web";
  execution_id = "";
  attempt = 0;
  kind = "service";
  executable = "C:\\web.exe";
  arguments = [];
  working_directory = "";
  environment_set = [];
  environment_unset = [];
  success_exit_codes = 0 ∷ [];
  stop_method = "kill";
  stop_timeout_ms = 0;
  stop_executable = "";
  stop_arguments = [];
  capture_logs = false;
  segment_size = 0;
  segment_age_ms = 0;
  retention_size = 0;
  retention_size_unlimited = false;
  retention_age_ms = 0;
  retention_age_unlimited = false;
  log_directory = "";
  runtime_journal = "";
  result_file = "";
  restart_policy = "never";
  max_restarts = 0;
  max_restarts_unlimited = false;
  restart_reset_after_ms = 0;
  restart_backoff_initial_ms = 0;
  restart_backoff_multiplier = 0;
  restart_backoff_maximum_ms = 0;
  execution_config_hash = [];
  manager_session_id = "";
  process_definition_hash = 5 ∷ [];
  supervisor_executable = "";
  version_pin = "";
}

abbrev setting : Setting
setting = record {
  manager_session_id = some "logon";
  supervisor_executable = "susm-supervisor.exe";
  version_pin_path = λ _. none;
  encode = λ _. 1 ∷ [];
  decode = λ _. some configuration;
  encode_update = λ u. u.max_restarts ∷ [];
  sha256 = λ bytes. bytes;
}

abbrev manager : Manager
manager = record {
  tables = record {
    config_generation = none;
    workloads =
        (
          "web",
          record {
            kind = "service";
            definition = some (1 ∷ []);
            enabled = true;
            last_triggered_session = "";
            last_outcome = "";
          },
        )
        ∷ [];
    executions = [];
  };
  state = record {
    workloads =
        (
          "web",
          record {
            kind = "service";
            definition = some configuration;
            enabled = true;
            last_outcome = "";
          },
        )
        ∷ [];
    active = [];
    revision = 0;
    session_ending = false;
  };
  tasks = [];
}

abbrev finish : ExecutionFinish
finish = record { state = "stopped"; exit_code = some 0; error = ""; supervisor_process_id = 44 }

-- The service is started, restarted while it runs, and its first execution ends.
abbrev calls : List Call
calls =
    service_start "web" "e1" 10
    ∷ process_started 0 44
    ∷ attachment "e1" "web" "" [] 44 "a1"
    ∷ observation "e1"
        (record {
          sequence = 1;
          kind = "attempt-started";
          exit_code = none;
          detail = "";
          attempt = 1;
          workload_process_id = 45;
        })
        "unused" 11
    ∷ service_restart "web"
    ∷ task_ended 0 finish "e2" 12
    ∷ session_end
    ∷ []

steps_example : IsTracking setting (steps setting calls manager)
unfolding IsTracking lookup has_unique_keys
steps_example =
    steps-IsTracking setting (λ c. refl) calls manager
      (record { sound = λ id. refl; agree = λ wid id. refl; unique = refl; known = tt })

abbrev failed : Round
failed = record {
  is_cancelled = false;
  spawned = spawn_error "access denied";
  wait = process_exited;
  result = none;
  cancelled_in_sleep = false;
}

abbrev rounds : List Round
rounds =
    failed
    ∷ record failed { spawned = process 7 }
    ∷ failed
    ∷ failed
    ∷ failed
    ∷ failed
    ∷ failed
    ∷ failed
    ∷ failed
    ∷ []

EndsWithin_example : EndsWithin 8 0 (run_execution configuration rounds)
EndsWithin_example =
    run_execution-EndsWithin configuration rounds (omega arith)
      (refl, (refl, (refl, (refl, (refl, (refl, (refl, (refl, (refl, tt)))))))))

abbrev active : ActiveExecution
active = record {
  execution_id = "e1";
  supervisor_process_id = 44;
  workload_process_id = 45;
  attempt = 1;
  error = "";
  state = "running";
  cancelled = false;
  commands = subscribed "a1" ∷ [];
  locally_owned = true;
  restart_after = false;
  process_definition_hash = 4 ∷ [];
  policy_hash = 6 ∷ [];
  restart_required = false;
  policy_sync_pending = false;
  attachment_id = some "a1";
}

abbrev running : State
running = record manager.state { active = ("web", active) ∷ [] }

UpToDate_example :
    ((b : ActiveExecution) × (lookup "web" (reconcile_reload setting running).1.active ≡ some b)
      × UpToDate setting configuration active b)
    × ((reconcile_reload setting (reconcile_reload setting running).1).0 ≡ false)
unfolding lookup
UpToDate_example = reconcile_reload-UpToDate setting running "web" configuration active refl refl

abbrev first_execution : StoredExecution
first_execution = record {
  id = "e1";
  workload_id = "web";
  state = "running";
  supervisor_process_id = 44;
  workload_process_id = 45;
  attempt = 1;
  started_unix_ms = 10;
  ended_unix_ms = 0;
  exit_code = none;
  error = "";
  snapshot = 1 ∷ [];
  committed_sequence = 1;
}

abbrev restarting : Manager
restarting = record manager {
  tables = record manager.tables { executions = ("e1", first_execution) ∷ [] };
  state = running;
}

-- The session is ending while the service runs; it is started, asked to restart, and ends.
abbrev ending_manager : Manager
ending_manager = record manager { state = record running { session_ending = true } }

abbrev late_calls : List Call
late_calls =
    service_start "web" "e7" 10
    ∷ service_restart "web"
    ∷ task_ended 0 finish "e7" 12
    ∷ service_start "web" "e7" 13
    ∷ []

IsQuiet_example : IsQuiet "e7" (steps setting late_calls ending_manager)
unfolding lookup
IsQuiet_example =
    steps-IsQuiet setting "e7" late_calls ending_manager (record { ending = refl; absent = refl })
