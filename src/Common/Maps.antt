-- ===== src/Common/Maps.antt =====
-- Maps with string keys, as association lists: `BTreeMap<String, V>` and a table with its primary key.
pub mod Keys
use Prim.Native.String.{String}
use text.Mathlib.Text.{◌==◌ as str_eq}
use text.Mathlib.TextEquality.{eq_iff}
use mathlib.Core.Path.{◌≡◌, refl}
use mathlib.Core.Bool.{true}
use mathlib.Core.Option
use mathlib.Core.Option.{Option, none, some}
use mathlib.Core.List.{List, [], ◌∷◌}
use native.Mathlib.Omega.{arith}
use susm.Common.Tests.{if◌then◌else◌}

abbrev pub Map {ℓ} : Type ℓ → Type ℓ
Map V = List (String × V)

module _ {ℓ} {V : Type ℓ} where
  unfoldable pub lookup : String → Map V → Option V
  lookup k [] = none
  lookup k ((j, v) ∷ m) = if str_eq j k then some v else lookup k m

  -- `BTreeMap::remove`, `DELETE`.
  unfoldable pub remove_key : String → Map V → Map V
  remove_key k [] = []
  remove_key k ((j, v) ∷ m) =
      let rest = remove_key k m in if str_eq j k then rest else (j, v) ∷ rest

  -- `BTreeMap::insert`.
  unfoldable pub insert : String → V → Map V → Map V
  insert k v m = (k, v) ∷ remove_key k m

  -- Every value, by its key: `values_mut`, `UPDATE` without a condition.
  unfoldable pub map_entries : (String → V → V) → Map V → Map V
  map_entries f [] = []
  map_entries f ((j, v) ∷ m) = (j, f j v) ∷ map_entries f m

  -- One value: `get_mut`, `UPDATE` by the primary key.
  unfoldable pub adjust : String → (V → V) → Map V → Map V
  adjust k f [] = []
  adjust k f ((j, v) ∷ m) = (j, if str_eq j k then f v else v) ∷ adjust k f m

  pub lookup-remove_key :
      (k j : String) (m : Map V)
      → lookup j (remove_key k m) ≡ (if str_eq k j then none else lookup j m)
  unfolding lookup remove_key
  lookup-remove_key k j [] = ground arith
  lookup-remove_key k j ((i, v) ∷ m) =
      ground (arith, lookup-remove_key k j m, eq_iff i k, eq_iff i j, eq_iff k j)

  pub lookup-insert :
      (k j : String) (v : V) (m : Map V)
      → lookup j (insert k v m) ≡ (if str_eq k j then some v else lookup j m)
  unfolding lookup insert
  lookup-insert k j v m = ground (arith, lookup-remove_key k j m)

  pub lookup-map_entries :
      (f : String → V → V) (j : String) (m : Map V)
      → lookup j (map_entries f m) ≡ Option.map (f j) (lookup j m)
  unfolding lookup map_entries
  lookup-map_entries f j [] = refl
  lookup-map_entries f j ((i, v) ∷ m) = ground (arith, lookup-map_entries f j m, eq_iff i j)

  pub lookup-adjust :
      (k j : String) (f : V → V) (m : Map V)
      → lookup j (adjust k f m) ≡ (if str_eq k j then Option.map f (lookup j m) else lookup j m)
  unfolding lookup adjust
  lookup-adjust k j f [] = ground arith
  lookup-adjust k j f ((i, v) ∷ m) =
      ground (arith, lookup-adjust k j f m, eq_iff i k, eq_iff i j, eq_iff k j)

pub str_eq_refl : (k : String) → str_eq k k ≡ true
str_eq_refl k = ground (arith, eq_iff k k)

-- The adjusted entry itself.
pub lookup-adjust_self {ℓ} :
    {V : Type ℓ} (k : String) (f : V → V) (m : Map V) {v : V}
    → lookup k m ≡ some v
    → lookup k (adjust k f m) ≡ some (f v)
lookup-adjust_self k f m {v} h = ground (arith, lookup-adjust k k f m, str_eq_refl k)

pub str_eq_sound : (j k : String) → str_eq j k ≡ true → j ≡ k
str_eq_sound j k h = ground (arith, eq_iff j k)
