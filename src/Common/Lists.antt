-- ===== src/Common/Lists.antt =====
-- Lists measured by native numbers, and predicates on lists that compute.
use Prim.Native.Nat.{ℕ, zero, suc, ◌+◌, ◌-◌, ◌≤◌}
use mathlib.Core.Path.{◌≡◌, refl, ap, ◌∙◌}
use mathlib.Core.Bool.{Bool, false, ◌||◌}
use mathlib.Core.Option.{Option, none, some}
use mathlib.Core.List.{List, [], ◌∷◌, ◌++◌}
use native.Mathlib.Omega.{arith}
use susm.Common.Tests.{◌==◌}

module _ {ℓ} {A : Type ℓ} where
  abbrev pub length : List A → ℕ
  length [] = 0
  length (x ∷ xs) = suc (length xs)

  abbrev pub get_elem? : List A → ℕ → Option A
  get_elem? [] i = none
  get_elem? (x ∷ xs) zero = some x
  get_elem? (x ∷ xs) (suc i) = get_elem? xs i

  abbrev pub take : ℕ → List A → List A
  take zero xs = []
  take (suc n) [] = []
  take (suc n) (x ∷ xs) = x ∷ take n xs

  abbrev pub drop : ℕ → List A → List A
  drop zero xs = xs
  drop (suc n) [] = []
  drop (suc n) (x ∷ xs) = drop n xs

  -- `&xs[from..to]`.
  unfoldable pub slice : List A → ℕ → ℕ → List A
  slice xs from to = take (to - from) (drop from xs)

  pub drop-append_left : (xs ys : List A) → drop (length xs) (xs ++ ys) ≡ ys
  drop-append_left [] ys = refl
  drop-append_left (x ∷ xs) ys = drop-append_left xs ys

  pub take-append_left : (xs ys : List A) → take (length xs) (xs ++ ys) ≡ xs
  take-append_left [] ys = refl
  take-append_left (x ∷ xs) ys = ap (λ l. x ∷ l) (take-append_left xs ys)

  -- The part between `from` and `to` of a list that has it there.
  pub slice_middle :
      (before part after : List A) (from to : ℕ)
      → from ≡ length before
      → to ≡ from + length part
      → slice (before ++ (part ++ after)) from to ≡ part
  unfolding slice
  slice_middle before part after from to f t =
      rw (f, drop-append_left before (part ++ after))
        (ap (λ n. take n (part ++ after)) (omega (arith, t, f)) ∙ take-append_left part after)

  pub take_within : (n : ℕ) (xs ys : List A) → n ≤ length xs → take n (xs ++ ys) ≡ take n xs
  take_within zero xs ys h = refl
  take_within (suc n) [] ys h = absurd (omega (arith, h))
  take_within (suc n) (x ∷ xs) ys h = ap (λ l. x ∷ l) (take_within n xs ys (omega (arith, h)))

  pub slice_from :
      (before xs : List A) (n : ℕ)
      → slice (before ++ xs) (length before) (length before + n) ≡ take n xs
  unfolding slice
  slice_from before xs n = rw (drop-append_left before xs) (ap (λ m. take m xs) (omega arith))

  drop_behind : (xs ys : List A) (k m : ℕ) → m ≡ length xs + k → drop m (xs ++ ys) ≡ drop k ys
  drop_behind [] ys k m h = ap (λ i. drop i ys) (omega (arith, h))
  drop_behind (x ∷ xs) ys k zero h = absurd (omega (arith, h))
  drop_behind (x ∷ xs) ys k (suc m) h = drop_behind xs ys k m (omega (arith, h))

  pub slice_behind :
      (before xs : List A) (k n : ℕ)
      → slice (before ++ xs) (length before + k) (length before + k + n) ≡ take n (drop k xs)
  unfolding slice
  slice_behind before xs k n =
      rw (drop_behind before xs k (length before + k) refl)
        (ap (λ m. take m (drop k xs)) (omega arith))

  pub length-append : (xs ys : List A) → length (xs ++ ys) ≡ length xs + length ys
  length-append [] ys = omega arith
  length-append (x ∷ xs) ys = omega (arith, length-append xs ys)

-- A predicate that holds of every entry.
abbrev pub All {ℓ κ} : {A : Type ℓ} → (A → Type κ) → List A → Type κ
All P [] = Unit
All P (x ∷ xs) = P x × All P xs

pub All-append {ℓ κ} :
    {A : Type ℓ} (P : A → Type κ) (xs ys : List A) → All P xs → All P ys → All P (xs ++ ys)
All-append P [] ys hx hy = hy
All-append P (x ∷ xs) ys hx hy = (hx.0, All-append P xs ys hx.1 hy)

-- `BTreeSet::contains` on the set's values.
unfoldable pub contains : List ℕ → ℕ → Bool
contains [] n = false
contains (x ∷ xs) n = x == n || contains xs n
