-- ===== src/Domain/Restart/Backoff.antt =====
-- The delay before a retry: a closed form, and its bounds.
use Prim.Native.Nat.{min}
use native.Mathlib.Nat.{pow-zero, pow-suc, pow-le-pow_right}
use susm.Common.{
  ℕ, zero, suc, ◌*◌, ◌-◌, ◌^◌, ◌≤◌, ◌<◌, ◌≡◌, arith, inl, inr, Bool-cases, ◌==◌, ==_iff,
}
use susm.Domain.Time.{duration_limit}
use susm.Domain.Restart.{BackoffPolicy, delay_rounds, delay_for}

-- What `BackoffPolicy::new` and the `NonZero` types give.
pub record IsValid (p : BackoffPolicy) : Type 0 where
  pub initial_pos : 0 < p.initial
  pub multiplier_pos : 0 < p.multiplier
  pub ordered : p.initial ≤ p.maximum
  pub in_range : p.maximum < duration_limit

pub pow-pos : (m n : ℕ) → 0 < m → 0 < m ^ n
pow-pos m zero h = omega (arith, pow-zero m)
pow-pos m (suc n) h = grind (arith, pow-suc m n, pow-pos m n h)

pub mul_pow_zero : (d m : ℕ) → d * m ^ 0 ≡ d
mul_pow_zero d m = grind (arith, pow-zero m)

pub pow_unroll : (d m n : ℕ) → d * m ^ suc n ≡ d * m * m ^ n
pow_unroll d m n = grind (arith, pow-suc m n)

pub pow_floor : (x m n mx : ℕ) → 0 < m → mx ≤ x → min (x * m ^ n) mx ≡ mx
pow_floor x m n mx h le = grind (arith, pow-pos m n h)

pub pow_cap : (d m n mx : ℕ) → 0 < m → mx ≤ d * m → min (d * m * m ^ n) mx ≡ mx
pow_cap d m n mx h le = grind (arith, pow-pos m n h)

delay_rounds-eq :
    (n m mx d : ℕ)
    → 0 < m
    → d ≤ mx
    → mx < duration_limit
    → delay_rounds n m mx d ≡ min (d * m ^ n) mx
unfolding delay_rounds
delay_rounds-eq zero m mx d mp le h = omega (arith, mul_pow_zero d m)
delay_rounds-eq (suc n) m mx d mp le h =
    rw (pow_unroll d m n) (ground (arith, delay_rounds-eq n m mx (d * m) mp, pow_cap d m n mx mp))

pow-one : (n : ℕ) → 1 ^ n ≡ 1
pow-one zero = omega (arith, pow-zero 1)
pow-one (suc n) = omega (arith, pow-suc 1 n, pow-one n)

mul_pow_one : (d n : ℕ) → d * 1 ^ n ≡ d
mul_pow_one d n = grind (arith, pow-one n)

mul_pow_cap : (d m n mx : ℕ) → 0 < m → d ≡ mx → min (d * m ^ n) mx ≡ mx
mul_pow_cap d m n mx h e = pow_floor d m n mx h (omega arith)

-- For a valid policy the delay before retry `n` is min(initial * multiplier ^ (n - 1), maximum),
-- although the loop stops early, multiplies with an overflow check and skips the first tests.
pub delay_for-eq :
    (p : BackoffPolicy) (retry : ℕ)
    → IsValid p
    → delay_for p retry ≡ min (p.initial * p.multiplier ^ (retry - 1)) p.maximum
unfolding delay_for
delay_for-eq p retry v = elim (Bool-cases (p.multiplier == 1)) [
  | inl e ↦ rw ((==_iff _ _).0 e) (ground (arith, mul_pow_one p.initial (retry - 1)))
  | inr e ↦ ground (
    arith,
    mul_pow_cap p.initial p.multiplier (retry - 1) p.maximum,
    delay_rounds-eq (retry - 1) p.multiplier p.maximum p.initial,
  )
]

-- The delay lies between the policy's initial and maximum delay.
pub delay_for_bounds :
    (p : BackoffPolicy) (retry : ℕ)
    → IsValid p
    → (p.initial ≤ delay_for p retry) × (delay_for p retry ≤ p.maximum)
delay_for_bounds p retry v = (
  grind (arith, delay_for-eq p retry v, pow-pos p.multiplier (retry - 1) v.multiplier_pos),
  omega (arith, delay_for-eq p retry v),
)

-- A later retry never waits less.
pub delay_for_mono :
    (p : BackoffPolicy) (n k : ℕ) → IsValid p → n ≤ k → delay_for p n ≤ delay_for p k
delay_for_mono p n k v le = grind (
  arith,
  delay_for-eq p n v,
  delay_for-eq p k v,
  pow-le-pow_right v.multiplier_pos {i = n - 1} {j = k - 1} (omega arith),
)
