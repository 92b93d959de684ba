-- ===== src/Domain/Ids/Parse.antt =====
-- What `WorkloadId::parse` accepts, and what it reports otherwise.
use susm.Common.{
  ℕ, suc, ◌≤◌, ◌<◌, ◌≡◌, ◌↔◌, ◌⊎◌, refl, none, some, Bool, true, false, not, List, [], ◌∷◌, arith,
  length, All, take, get_elem?, zero, ok, err,
}
use mathlib.Core.Option
use susm.Domain.Ids.{
  is_ascii_lowercase, is_ascii_digit, invalid_character, is_boundary, is_allowed, last_or, position,
  parse,
}

-- A byte of [a-z0-9], which may stand at either end.
abbrev pub IsEnd : ℕ → Type 0
IsEnd b = ((97 ≤ b) × (b ≤ 122)) ⊎ ((48 ≤ b) × (b ≤ 57))

-- A byte of [a-z0-9._-].
abbrev pub IsCharacter : ℕ → Type 0
IsCharacter b = IsEnd b ⊎ ((b ≡ 46) ⊎ ((b ≡ 95) ⊎ (b ≡ 45)))

-- A sequence that begins with `b` ends with a byte of [a-z0-9].
abbrev pub EndsWell : ℕ → List ℕ → Type 0
EndsWell b [] = IsEnd b
EndsWell b (c ∷ cs) = EndsWell c cs

-- The grammar of the identifiers: [a-z0-9]([a-z0-9._-]*[a-z0-9])?, of at most 128 bytes.
abbrev pub IsWorkloadId : List ℕ → Type 0
IsWorkloadId [] = ⊥
IsWorkloadId (b ∷ bs) = (length (b ∷ bs) ≤ 128) × IsEnd b × EndsWell b bs × All IsCharacter (b ∷ bs)

is_boundary_sound : (b : ℕ) → is_boundary b ≡ true → IsEnd b
unfolding is_boundary is_ascii_lowercase is_ascii_digit
is_boundary_sound b h = ground arith

is_boundary_complete : (b : ℕ) → IsEnd b → is_boundary b ≡ true
unfolding is_boundary is_ascii_lowercase is_ascii_digit
is_boundary_complete b h = ground arith

is_allowed_sound : (b : ℕ) → is_allowed b ≡ true → IsCharacter b
unfolding is_allowed is_boundary is_ascii_lowercase is_ascii_digit
is_allowed_sound b h = ground arith

is_allowed_complete : (b : ℕ) → IsCharacter b → is_allowed b ≡ true
unfolding is_allowed is_boundary is_ascii_lowercase is_ascii_digit
is_allowed_complete b h = ground arith

last_or_sound : (b : ℕ) (bs : List ℕ) → is_boundary (last_or b bs) ≡ true → EndsWell b bs
last_or_sound b [] h = is_boundary_sound b h
last_or_sound b (c ∷ cs) h = last_or_sound c cs h

last_or_complete : (b : ℕ) (bs : List ℕ) → EndsWell b bs → is_boundary (last_or b bs) ≡ true
last_or_complete b [] h = is_boundary_complete b h
last_or_complete b (c ∷ cs) h = last_or_complete c cs h

abbrev bad : ℕ → Bool
bad b = not (is_allowed b)

position-none-All : (bs : List ℕ) → position bad bs ≡ none → All IsCharacter bs
position-none-All [] h = tt
position-none-All (b ∷ bs) h =
    (is_allowed_sound b (ground arith), position-none-All bs (ground arith))

All-position-none : (bs : List ℕ) → All IsCharacter bs → position bad bs ≡ none
All-position-none [] h = refl
All-position-none (b ∷ bs) h = ground (arith, All-position-none bs h.1, is_allowed_complete b h.0)

-- `parse` accepts the identifiers of the grammar.
accepts : (bs : List ℕ) → IsWorkloadId bs → parse bs ≡ ok bs
unfolding parse
accepts [] h = elim h [ ]
accepts (b ∷ bs) h =
    ground
      (arith, All-position-none (b ∷ bs) h.3, is_boundary_complete b h.1, last_or_complete b bs h.2)

-- What it returns is its input, in the grammar.
accepted : (bs : List ℕ) {v : List ℕ} → parse bs ≡ ok v → (v ≡ bs) × IsWorkloadId bs
unfolding parse
accepted [] h = cc
accepted (b ∷ bs) h = (
  ground arith,
  (
    ground arith,
    is_boundary_sound b (ground arith),
    last_or_sound b bs (ground arith),
    position-none-All (b ∷ bs) (ground arith),
  ),
)

-- `parse` accepts exactly the byte sequences of at most 128 bytes that begin and end with one of
-- a-z and 0-9 and consist of these, the dot, the underscore and the hyphen, and returns them
-- unchanged.
pub parse_iff : (bs v : List ℕ) → (parse bs ≡ ok v) ↔ ((v ≡ bs) × IsWorkloadId bs)
parse_iff bs v = (accepted bs, λ h. rw h.0 (accepts bs h.1))

position-found :
    (bs : List ℕ) {i : ℕ}
    → position bad bs ≡ some i
    → (i < length bs)
      × All IsCharacter (take i bs)
      × (Option.map is_allowed (get_elem? bs i) ≡ some false)
position-found [] h = cc
position-found (b ∷ bs) {i = zero} h = (omega arith, tt, ground arith)
position-found (b ∷ bs) {i = suc i} h =
    let r = position-found bs {i = i} (ground arith) in
    (omega (arith, r.0), (is_allowed_sound b (ground arith), r.1), r.2)

-- A reported index is that of the first byte that is not allowed, in an input of legal length.
pub parse-invalid_character :
    (bs : List ℕ) {i : ℕ}
    → parse bs ≡ err (invalid_character i)
    → (length bs ≤ 128)
      × (i < length bs)
      × All IsCharacter (take i bs)
      × (Option.map is_allowed (get_elem? bs i) ≡ some false)
unfolding parse
parse-invalid_character [] h = cc
parse-invalid_character (b ∷ bs) {i} h =
    let r = position-found (b ∷ bs) {i = i} (ground arith) in (ground arith, r.0, r.1, r.2)
