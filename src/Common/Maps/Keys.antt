-- ===== src/Common/Maps/Keys.antt =====
-- The keys of a map: each has one entry.
use Prim.Native.String.{String}
use text.Mathlib.Text.{◌==◌ as str_eq}
use text.Mathlib.TextEquality.{eq_iff}
use mathlib.Core.Path.{◌≡◌, refl}
use mathlib.Core.Bool.{Bool, true, false, ◌&&◌, ◌||◌, not}
use mathlib.Core.Option.{some}
use mathlib.Core.List.{[], ◌∷◌}
use native.Mathlib.Omega.{arith}
use susm.Common.Maps.{Map, lookup, remove_key, insert, map_entries, adjust}

module _ {ℓ} {V : Type ℓ} where
  unfoldable pub has_key : String → Map V → Bool
  has_key k [] = false
  has_key k ((j, v) ∷ m) = str_eq j k || has_key k m

  unfoldable pub has_unique_keys : Map V → Bool
  has_unique_keys [] = true
  has_unique_keys ((j, v) ∷ m) = not (has_key j m) && has_unique_keys m

  has_key-adjust : (j k : String) (f : V → V) (m : Map V) → has_key j (adjust k f m) ≡ has_key j m
  unfolding has_key adjust
  has_key-adjust j k f [] = refl
  has_key-adjust j k f ((i, v) ∷ m) = rw (has_key-adjust j k f m) refl

  pub has_unique_keys-adjust :
      (k : String) (f : V → V) (m : Map V) → has_unique_keys (adjust k f m) ≡ has_unique_keys m
  unfolding has_unique_keys adjust
  has_unique_keys-adjust k f [] = refl
  has_unique_keys-adjust k f ((i, v) ∷ m) =
      rw (has_key-adjust i k f m, has_unique_keys-adjust k f m) refl

  has_key-map_entries :
      (j : String) (f : String → V → V) (m : Map V) → has_key j (map_entries f m) ≡ has_key j m
  unfolding has_key map_entries
  has_key-map_entries j f [] = refl
  has_key-map_entries j f ((i, v) ∷ m) = rw (has_key-map_entries j f m) refl

  pub has_unique_keys-map_entries :
      (f : String → V → V) (m : Map V) → has_unique_keys (map_entries f m) ≡ has_unique_keys m
  unfolding has_unique_keys map_entries
  has_unique_keys-map_entries f [] = refl
  has_unique_keys-map_entries f ((i, v) ∷ m) =
      rw (has_key-map_entries i f m, has_unique_keys-map_entries f m) refl

  has_key-remove_key :
      (j k : String) (m : Map V) → has_key j (remove_key k m) ≡ (not (str_eq k j) && has_key j m)
  unfolding has_key remove_key
  has_key-remove_key j k [] = ground arith
  has_key-remove_key j k ((i, v) ∷ m) =
      ground (arith, has_key-remove_key j k m, eq_iff i k, eq_iff i j, eq_iff k j)

  pub has_unique_keys-remove_key :
      (k : String) (m : Map V) → has_unique_keys m ≡ true → has_unique_keys (remove_key k m) ≡ true
  unfolding has_unique_keys remove_key
  has_unique_keys-remove_key k [] h = refl
  has_unique_keys-remove_key k ((i, v) ∷ m) h =
      ground (arith, has_unique_keys-remove_key k m, has_key-remove_key i k m)

  pub has_unique_keys-insert :
      (k : String) (v : V) (m : Map V)
      → has_unique_keys m ≡ true
      → has_unique_keys (insert k v m) ≡ true
  unfolding has_unique_keys insert
  has_unique_keys-insert k v m h =
      ground (arith, has_unique_keys-remove_key k m h, has_key-remove_key k k m, eq_iff k k)

  pub lookup-has_key : (k : String) (m : Map V) {v : V} → lookup k m ≡ some v → has_key k m ≡ true
  unfolding has_key lookup
  lookup-has_key k [] {v} h = ground arith
  lookup-has_key k ((i, w) ∷ m) {v} h = ground (arith, lookup-has_key k m {v = v})
