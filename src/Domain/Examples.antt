-- ===== src/Domain/Examples.antt =====
-- Times, identifiers and delays at some values.
use Prim.Native.Nat.{min}
use susm.Common.{ℕ, ◌-◌, ◌*◌, ◌^◌, ◌≡◌, ◌↔◌, refl, List, [], ◌∷◌, arith, ok, err}
use susm.Domain.Ids.{parse, is_boundary, invalid_character, is_allowed}
use susm.Domain.Ids.Parse.{IsWorkloadId, parse_iff}
use susm.Domain.Restart.{default_backoff, delay_for}
use susm.Domain.Restart.Backoff
use susm.Domain.Restart.Backoff.{delay_for-eq, delay_for_mono}

default_backoff-IsValid : Backoff.IsValid default_backoff
default_backoff-IsValid = record {
  initial_pos = omega arith;
  multiplier_pos = omega arith;
  ordered = omega arith;
  in_range = omega arith;
}

delay_example :
    delay_for default_backoff 4
    ≡ min (default_backoff.initial * default_backoff.multiplier ^ (4 - 1)) default_backoff.maximum
delay_example = delay_for-eq default_backoff 4 default_backoff-IsValid

abbrev name : List ℕ
name = 97 ∷ 45 ∷ 98 ∷ []

parse_example : (parse name ≡ ok name) ↔ ((name ≡ name) × IsWorkloadId name)
parse_example = parse_iff name name

space_step : parse (97 ∷ 32 ∷ 98 ∷ []) ≡ err (invalid_character 1)
unfolding parse is_boundary is_allowed
space_step = refl
