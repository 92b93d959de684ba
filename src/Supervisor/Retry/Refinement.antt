-- ===== src/Supervisor/Retry/Refinement.antt =====
-- The supervisor's retry decision and delay against those of the domain model.
use Prim.Native.Nat.{min, max}
use native.Mathlib.Nat.{pow-le-pow_right, min-eq_left, min-eq_right}
use native.Mathlib.Decide.{dec_le}
use mathlib.Core.Path.{ap₂}
use susm.Common.{
  ℕ, zero, suc, ◌+◌, ◌-◌, ◌*◌, ◌^◌, ◌≤◌, ◌<◌, ◌≡◌, refl, Bool, false, ◌&&◌, not, arith, u64_limit,
  List, ap, sym, ◌∙◌,
}
use susm.Domain.Time.{from_millis}
use susm.Domain.Restart.{
  BackoffPolicy, ExecutionRestartPolicy, ServiceRestartPolicy, JobRestartPolicy, delay_for,
}
use susm.Domain.Restart.Backoff
use susm.Domain.Restart.Backoff.{delay_for-eq, pow_floor, pow_unroll, mul_pow_zero}
use susm.Domain.Execution.Retry.{wants, budget, covers}
use susm.Domain.SupervisorBinding.{default_launch_policy}
use susm.Protocol.{ExecutionConfiguration, PolicyUpdate}
use susm.Manager.Snapshot.{
  duration_ms, apply_backoff, apply_restart, supervisor_retry_delay, policy_update,
}
use susm.Supervisor.Retry.{should_retry, delay_loop, retry_delay, apply_policy, saturating_mul}

-- With the configuration that the controller makes of a restart policy (out of one that does not
-- yet say that restarts are unlimited), the supervisor retries after `retries` retries exactly
-- when the domain's policy wants a retry after this end and its budget covers retry number
-- `retries` + 1.
pub should_retry-eq :
    (c : ExecutionConfiguration) (p : ExecutionRestartPolicy) (successful : Bool) (retries : ℕ)
    → c.max_restarts_unlimited ≡ false
    → should_retry (apply_restart c p) successful retries
      ≡ (wants p (not successful) && covers (budget p) (retries + 1))
unfolding should_retry apply_restart
should_retry-eq c (ExecutionRestartPolicy.service ServiceRestartPolicy.never) b n h = ground arith
should_retry-eq c (ExecutionRestartPolicy.service (ServiceRestartPolicy.on_failure p)) b n h =
    ground arith
should_retry-eq c (ExecutionRestartPolicy.service (ServiceRestartPolicy.always p)) b n h =
    ground arith
should_retry-eq c (ExecutionRestartPolicy.job JobRestartPolicy.never) b n h = ground arith
should_retry-eq c (ExecutionRestartPolicy.job (JobRestartPolicy.on_failure p)) b n h = ground arith

-- One round, below the maximum and above it.
capped : (d m mx : ℕ) → mx < u64_limit → min (saturating_mul d m) mx ≡ min (d * m) mx
capped d m mx h = omega arith

cap_power : (x m n mx : ℕ) → 0 < m → min (min x mx * m ^ n) mx ≡ min (x * m ^ n) mx
cap_power x m n mx mp = elim (dec_le x mx) [
  | yes le ↦ ap (λ t. min (t * m ^ n) mx) (min-eq_left le)
  | no gt ↦
      ap (λ t. min (t * m ^ n) mx) (min-eq_right (omega arith))
      ∙ (pow_floor mx m n mx mp (omega arith) ∙ sym (pow_floor x m n mx mp (omega arith)))
]

delay_loop-eq :
    (n m mx d : ℕ) → 0 < m → d ≤ mx → mx < u64_limit → delay_loop n m mx d ≡ min (d * m ^ n) mx
unfolding delay_loop
delay_loop-eq zero m mx d mp le h = omega (arith, mul_pow_zero d m)
delay_loop-eq (suc n) m mx d mp le h =
    delay_loop-eq n m mx (min (saturating_mul d m) mx) mp (omega arith) h
    ∙ (ap (λ t. min (t * m ^ n) mx) (capped d m mx h)
        ∙ (cap_power (d * m) m n mx mp ∙ ap (λ t. min t mx) (sym (pow_unroll d m n))))

max_one : (x : ℕ) → 0 < x → max x 1 ≡ x
max_one x h = omega arith

scaled : (i k mx : ℕ) → min (i * 1_000_000 * k) (mx * 1_000_000) ≡ min (i * k) mx * 1_000_000
scaled i k mx = grind arith

in_millis : (n : ℕ) → n < u64_limit → duration_ms (from_millis n) ≡ n
unfolding duration_ms
in_millis n h = omega arith

delay_of :
    (n i m mx : ℕ)
    → 0 < i
    → 0 < m
    → i ≤ mx
    → mx < u64_limit
    → from_millis (min (delay_loop n (max m 1) (max mx 1) (max i 1)) (max mx 1))
      ≡ min (from_millis i * m ^ n) (from_millis mx)
delay_of n i m mx ip mp le h =
    rw (max_one m mp, max_one i ip, max_one mx (omega arith), delay_loop-eq n m mx i mp le h)
      (omega (arith, scaled i (m ^ n) mx))

-- For a valid policy whose initial and maximum delay are whole milliseconds, the maximum below 2
-- ^ 64 of them, the supervisor waits as long as the domain's policy says, although it counts in
-- milliseconds and saturates where the domain's loop stops.
pub retry_delay-eq :
    (c : ExecutionConfiguration) (p : BackoffPolicy) (initial maximum retry : ℕ)
    → Backoff.IsValid p
    → p.initial ≡ from_millis initial
    → p.maximum ≡ from_millis maximum
    → maximum < u64_limit
    → retry_delay (apply_backoff c p) retry ≡ delay_for p retry
unfolding retry_delay apply_backoff
retry_delay-eq c p initial maximum retry v pi pm h =
    rw
      (ap duration_ms pi ∙ in_millis initial (omega arith), ap duration_ms pm ∙ in_millis maximum h)
      (delay_of (retry - 1) initial p.multiplier maximum (omega arith) v.multiplier_pos
          (omega arith) h
        ∙ (ap₂ (λ a b. min (a * p.multiplier ^ (retry - 1)) b) (sym pi) (sym pm)
            ∙ sym (delay_for-eq p retry v)))

default_IsValid : Backoff.IsValid default_launch_policy.backoff
default_IsValid = omega arith

pow_under : (n : ℕ) → n ≤ 31 → 2 ^ n ≤ 2 ^ 31
pow_under n le = pow-le-pow_right (omega arith) le

pow_over : (n : ℕ) → 31 ≤ n → 2 ^ 31 ≤ 2 ^ n
pow_over n le = pow-le-pow_right (omega arith) le

cut : (n : ℕ) → 31 ≤ n → min n 31 ≡ 31
cut n le = omega arith

-- At the exponents that the shift is cut off to, the cap applies.
doubled :
    (n : ℕ)
    → from_millis (min (min (100 * 2 ^ min n 31) (u64_limit - 1)) 5_000)
      ≡ min (from_millis 100 * 2 ^ n) (5 * 1_000_000_000)
doubled n = elim (dec_le n 31) [
  | yes le ↦ rw (min-eq_left le) (omega (arith, pow_under n le))
  | no gt ↦ rw (cut n (omega arith)) (omega (arith, pow_over n (omega arith)))
]

-- The manager's delay before it launches a supervisor again is, for any number of failures, that
-- of the domain's default launch policy.
pub supervisor_retry_delay-eq :
    (failures : ℕ)
    → supervisor_retry_delay failures ≡ delay_for default_launch_policy.backoff failures
unfolding supervisor_retry_delay
supervisor_retry_delay-eq failures =
    doubled (failures - 1)
    ∙ sym (delay_for-eq default_launch_policy.backoff failures default_IsValid)

-- A policy update carries exactly the policies: after it the configuration has those of the one that
-- the update was made from, so an update made of the result is the same, its hash included, and an
-- update made of a configuration itself changes nothing.
pub apply_policy-policy_update :
    (digest : PolicyUpdate → List ℕ) (c d : ExecutionConfiguration)
    → (policy_update digest (apply_policy c (policy_update digest d)) ≡ policy_update digest d)
      × (apply_policy c (policy_update digest c) ≡ c)
unfolding apply_policy policy_update
apply_policy-policy_update digest c d = (refl, refl)
