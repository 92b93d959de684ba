-- ===== src/Domain/SupervisorBinding.antt =====
-- crates/domain/src/supervisor_binding.rs: the process that implements an active execution. This
-- file has the data, `Events` the transition.
pub mod Events
pub mod Run
pub mod Failures
pub mod Launches
mod Examples
use susm.Common.{
  ℕ, Bool, Option, some, none, u32_limit, checked_add, if◌then◌else◌, ltb, ◌==◌, ◌&&◌,
}
use susm.Common.Options.{◌>>=◌}
use susm.Domain.Time.{Duration, BootInstant, from_secs, from_millis}
use susm.Domain.Ids.{
  ExecutionId, ObservationSequence, SupervisorId, SupervisorIncarnation, next_incarnation,
}
use susm.Domain.Restart.{BackoffPolicy, RetryOrdinal, retry_ordinal}

pub record SupervisorProcessIdentity : Type 0 where
  pub supervisor_id : SupervisorId
  pub incarnation : SupervisorIncarnation

-- The derived `==`.
abbrev pub same_process : SupervisorProcessIdentity → SupervisorProcessIdentity → Bool
same_process p q = p.supervisor_id == q.supervisor_id && p.incarnation == q.incarnation

-- `SupervisorProcessIdentity::next_incarnation`.
unfoldable pub next_process : SupervisorProcessIdentity → Option SupervisorProcessIdentity
next_process p =
    next_incarnation p.incarnation >>= λ incarnation. some (record p { incarnation = incarnation })

abbrev pub SupervisorFailureCount : Type 0
SupervisorFailureCount = ℕ

-- `SupervisorFailureCount::after_failure`.
unfoldable pub after_failure : SupervisorFailureCount → Option SupervisorFailureCount
after_failure n = checked_add u32_limit n 1

-- `SupervisorFailureCount::retry_ordinal`.
unfoldable pub failure_ordinal : SupervisorFailureCount → Option RetryOrdinal
failure_ordinal n = retry_ordinal n

pub record SupervisorLaunchPolicy : Type 0 where
  pub max_failures : ℕ
  pub backoff : BackoffPolicy
  pub handshake_timeout : Duration
  pub discovery_timeout : Duration

-- `SupervisorLaunchPolicy::permits_retry_after`.
unfoldable pub permits_retry_after : SupervisorLaunchPolicy → SupervisorFailureCount → Bool
permits_retry_after policy failures = ltb failures policy.max_failures

-- `SupervisorLaunchPolicy::default`.
abbrev pub default_launch_policy : SupervisorLaunchPolicy
default_launch_policy = record {
  max_failures = 8;
  backoff = record { initial = from_millis 100; multiplier = 2; maximum = from_secs 5 };
  handshake_timeout = from_secs 5;
  discovery_timeout = from_secs 3;
}

-- The fields are the process, the failures and, in turn, the discovery deadline, none, the handshake
-- deadline, the last sequence, and the retry deadline.
pub data SupervisorBinding : Type 0 where
  discovering : SupervisorProcessIdentity → SupervisorFailureCount → BootInstant → SupervisorBinding
  launch_pending : SupervisorProcessIdentity → SupervisorFailureCount → SupervisorBinding
  awaiting_handshake :
      SupervisorProcessIdentity → SupervisorFailureCount → BootInstant → SupervisorBinding
  attached :
      SupervisorProcessIdentity → SupervisorFailureCount → ObservationSequence → SupervisorBinding
  restart_backoff :
      SupervisorProcessIdentity → SupervisorFailureCount → BootInstant → SupervisorBinding

pub data HandshakeRejection : Type 0 where
  authentication_failed wrong_manager_session wrong_execution wrong_supervisor : HandshakeRejection
  wrong_execution_config incompatible_protocol stale_observation : HandshakeRejection

pub data SupervisorFailure : Type 0 where
  process_missing process_exited handshake_timed_out : SupervisorFailure
  handshake_rejected : HandshakeRejection → SupervisorFailure

pub data SupervisorBindingEvent : Type 0 where
  discovery_attached : SupervisorProcessIdentity → ObservationSequence → SupervisorBindingEvent
  discovery_failed :
      SupervisorProcessIdentity → BootInstant → SupervisorFailure → SupervisorBindingEvent
  launch_succeeded launch_failed : SupervisorProcessIdentity → BootInstant → SupervisorBindingEvent
  handshake_accepted : SupervisorProcessIdentity → ObservationSequence → SupervisorBindingEvent
  handshake_failed :
      SupervisorProcessIdentity → BootInstant → SupervisorFailure → SupervisorBindingEvent
  supervisor_exited : SupervisorProcessIdentity → BootInstant → SupervisorBindingEvent
  retry_deadline_reached : SupervisorProcessIdentity → BootInstant → SupervisorBindingEvent
  execution_terminated : SupervisorBindingEvent

pub data SupervisorBindingEffect : Type 0 where
  launch_supervisor : SupervisorProcessIdentity → SupervisorBindingEffect
  arm_discovery_deadline arm_handshake_deadline arm_retry_deadline :
      BootInstant → SupervisorBindingEffect
  adopt_supervisor :
      SupervisorProcessIdentity → ExecutionId → ObservationSequence → SupervisorBindingEffect
  request_supervisor_shutdown : SupervisorProcessIdentity → SupervisorBindingEffect
  report_supervisor_unavailable : SupervisorBindingEffect

pub data SupervisorBindingError : Type 0 where
  unexpected_event stale_process stale_deadline : SupervisorBindingError
  failure_count_overflow incarnation_overflow deadline_overflow : SupervisorBindingError
