-- ===== src/Common/Tests.antt =====
-- Boolean tests on the native numbers, the conditional, and checked machine arithmetic
-- (`checked_add`, `checked_mul` and `NonZero` of Rust's standard library).
use Prim.Native.Nat.{ℕ, ◌+◌, ◌*◌, ◌^◌, ◌≤◌, ◌<◌, compare, Ordering}
use mathlib.Core.Path.{◌≡◌, refl}
use mathlib.Core.Logic.{◌↔◌, ◌⊎◌, inl, inr}
use mathlib.Core.Bool.{Bool, true, false}
use mathlib.Core.Option.{Option, none, some}
use native.Mathlib.Omega.{arith}

abbrev pub ltb : ℕ → ℕ → Bool
ltb a b = elim (compare a b) [ Ordering.lt ↦ true | _ ↦ false ]

abbrev pub leb : ℕ → ℕ → Bool
leb a b = elim (compare a b) [ Ordering.gt ↦ false | _ ↦ true ]

infix 50 ◌==◌
abbrev pub ◌==◌ : ℕ → ℕ → Bool
a == b = elim (compare a b) [ Ordering.eq ↦ true | _ ↦ false ]

infix 1 if◌then◌else◌
abbrev pub if◌then◌else◌ {ℓ} : {A : Type ℓ} → Bool → A → A → A
if true then x else y = x
if false then x else y = y

pub ltb→lt : (a b : ℕ) → ltb a b ≡ true → a < b
ltb→lt a b h = ground arith

pub lt→ltb : (a b : ℕ) → a < b → ltb a b ≡ true
lt→ltb a b h = ground arith

pub leb→le : (a b : ℕ) → leb a b ≡ true → a ≤ b
leb→le a b h = ground arith

pub ==_iff : (a b : ℕ) → ((a == b) ≡ true) ↔ (a ≡ b)
==_iff a b = ground arith

pub ruleset tests = (arith, ltb→lt, lt→ltb, leb→le)

-- To split on a computed value and keep the equation.
pub Bool-cases : (b : Bool) → (b ≡ true) ⊎ (b ≡ false)
Bool-cases true = inl refl
Bool-cases false = inr refl

pub Option-cases {ℓ} : {A : Type ℓ} (o : Option A) → (o ≡ none) ⊎ ((a : A) × (o ≡ some a))
Option-cases none = inl refl
Option-cases (some a) = inr (a, refl)

-- The number of values of a `u32` and of a `u64`.
abbrev pub u32_limit : ℕ
u32_limit = 2 ^ 32

abbrev pub u64_limit : ℕ
u64_limit = 2 ^ 64

-- `a.checked_add(b)` at a type with `limit` values.
abbrev pub checked_add : ℕ → ℕ → ℕ → Option ℕ
checked_add limit a b = if ltb (a + b) limit then some (a + b) else none

abbrev pub checked_mul : ℕ → ℕ → ℕ → Option ℕ
checked_mul limit a b = if ltb (a * b) limit then some (a * b) else none

-- `NonZeroU32::new`, `NonZeroU64::new`.
abbrev pub non_zero : ℕ → Option ℕ
non_zero n = if n == 0 then none else some n
