-- ===== src/Domain/Time.antt =====
-- crates/domain/src/time.rs. A `Duration` is its number of nanoseconds, a `BootInstant` (and each
-- deadline, a newtype of it) its interrupt time in ticks of 100 ns.
use susm.Common.{
  ℕ, ◌+◌, ◌*◌, ◌/◌, ◌%◌, ◌≡◌, Option, none, some, arith, u64_limit, checked_add, checked_mul,
  if◌then◌else◌, ltb, non_zero,
}
use susm.Common.Options.{◌>>=◌}

abbrev pub Duration : Type 0
Duration = ℕ

abbrev pub BootInstant : Type 0
BootInstant = ℕ

abbrev pub nanos_per_sec : ℕ
nanos_per_sec = 1_000_000_000

-- `Duration::as_secs`, `Duration::subsec_nanos`, and the least number that is no `Duration`.
abbrev pub as_secs : Duration → ℕ
as_secs d = d / nanos_per_sec

abbrev pub subsec_nanos : Duration → ℕ
subsec_nanos d = d % nanos_per_sec

abbrev pub duration_limit : ℕ
duration_limit = u64_limit * nanos_per_sec

abbrev pub from_secs : ℕ → Duration
from_secs n = n * nanos_per_sec

abbrev pub from_millis : ℕ → Duration
from_millis n = n * 1_000_000

-- `u64::div_ceil`.
abbrev pub div_ceil : ℕ → ℕ → ℕ
div_ceil a b = if ltb 0 (a % b) then a / b + 1 else a / b

unfoldable pub non_zero_duration : Duration → Option Duration
non_zero_duration value = non_zero value

-- `BootInstant::checked_add`.
unfoldable pub checked_add_duration : BootInstant → Duration → Option BootInstant
checked_add_duration at duration = do
  whole_ticks ← checked_mul u64_limit (as_secs duration) 10_000_000
  let fractional_ticks = div_ceil (subsec_nanos duration) 100
  duration_ticks ← checked_add u64_limit whole_ticks fractional_ticks
  checked_add u64_limit at duration_ticks

-- The sum in ticks, rounded up, when it fits 64 bits.
pub checked_add_duration-eq :
    (at : BootInstant) (duration : Duration)
    → checked_add_duration at duration ≡ (
        let ticks = (duration + 99) / 100 in
        if ltb (at + ticks) u64_limit then some (at + ticks) else none)
unfolding checked_add_duration
checked_add_duration-eq at duration = ground arith
