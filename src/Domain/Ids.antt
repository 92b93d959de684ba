-- ===== src/Domain/Ids.antt =====
-- crates/domain/src/ids.rs. The newtypes of a UUID are told apart and compared by value only, so
-- each is the number of its 128 bits; a hash is the number of its 256 bits. Counters are numbers:
-- `new` keeps a `NonZero` one from being 0, and `next` stops at the width.
pub mod Parse
use susm.Common.{
  ℕ, suc, Option, none, some, Bool, ◌&&◌, ◌||◌, not, List, [], ◌∷◌, u32_limit, u64_limit,
  checked_add, non_zero, if◌then◌else◌, ltb, leb, ◌==◌, length, Result, ok, err,
}
use susm.Common.Options.{◌>>=◌}

abbrev pub ManagerSessionId : Type 0
ManagerSessionId = ℕ

abbrev pub ExecutionId : Type 0
ExecutionId = ℕ

abbrev pub SupervisorId : Type 0
SupervisorId = ℕ

abbrev pub ConfigGeneration : Type 0
ConfigGeneration = ℕ

abbrev pub ProcessDefinitionHash : Type 0
ProcessDefinitionHash = ℕ

abbrev pub ExecutionConfigHash : Type 0
ExecutionConfigHash = ℕ

abbrev pub SupervisorIncarnation : Type 0
SupervisorIncarnation = ℕ

abbrev pub IntentRevision : Type 0
IntentRevision = ℕ

abbrev pub AttemptNumber : Type 0
AttemptNumber = ℕ

abbrev pub ObservationSequence : Type 0
ObservationSequence = ℕ

-- `SupervisorIncarnation::next`.
unfoldable pub next_incarnation : SupervisorIncarnation → Option SupervisorIncarnation
next_incarnation n = checked_add u32_limit n 1 >>= non_zero

-- `IntentRevision::next`.
unfoldable pub next_revision : IntentRevision → Option IntentRevision
next_revision n = checked_add u64_limit n 1 >>= non_zero

-- `AttemptNumber::next`.
unfoldable pub next_attempt : AttemptNumber → Option AttemptNumber
next_attempt n = checked_add u32_limit n 1 >>= non_zero

-- `ObservationSequence::next`, which may be 0 at first.
unfoldable pub next_sequence : ObservationSequence → Option ObservationSequence
next_sequence n = checked_add u64_limit n 1

-- The bytes of the identifier.
abbrev pub WorkloadId : Type 0
WorkloadId = List ℕ

abbrev pub max_workload_id_bytes : ℕ
max_workload_id_bytes = 128

pub data InvalidWorkloadId : Type 0 where
  empty too_long invalid_boundary : InvalidWorkloadId
  invalid_character : ℕ → InvalidWorkloadId

unfoldable pub is_ascii_lowercase : ℕ → Bool
is_ascii_lowercase b = leb b'a' b && leb b b'z'

unfoldable pub is_ascii_digit : ℕ → Bool
is_ascii_digit b = leb b'0' b && leb b b'9'

-- A byte that may stand at either end.
unfoldable pub is_boundary : ℕ → Bool
unfolding is_ascii_lowercase is_ascii_digit
is_boundary b = is_ascii_lowercase b || is_ascii_digit b

-- A byte that may stand anywhere: `matches!(byte, b'-' | b'_' | b'.')` besides.
unfoldable pub is_allowed : ℕ → Bool
unfolding is_boundary
is_allowed b = is_boundary b || b == b'-' || b == b'_' || b == b'.'

-- `slice::last` of a slice that begins with `first`.
abbrev pub last_or : ℕ → List ℕ → ℕ
last_or first [] = first
last_or first (b ∷ bs) = last_or b bs

-- `Iterator::position`.
abbrev pub position : (ℕ → Bool) → List ℕ → Option ℕ
position p [] = none
position p (b ∷ bs) = if p b then some 0 else (position p bs >>= λ i. some (suc i))

check_characters : WorkloadId → Option ℕ → Result WorkloadId InvalidWorkloadId
check_characters value (some index) = err (invalid_character index)
check_characters value none = ok value

-- `WorkloadId::parse`.
unfoldable pub parse : List ℕ → Result WorkloadId InvalidWorkloadId
unfolding check_characters
parse [] = err empty
parse (first ∷ rest) =
    let last = last_or first rest in
    let value = first ∷ rest in
    if ltb max_workload_id_bytes (length value)
    then err too_long
    else if not (is_boundary first)
    then err invalid_boundary
    else if not (is_boundary last)
    then err invalid_boundary
    else check_characters value (position (λ b. not (is_allowed b)) value)
