-- ===== src/Supervisor/Journal/Recovery.antt =====
-- crates/supervisor/src/journal.rs: what opening and reading the file of a journal gives.
use mathlib.Core.List.{append-nil}
use susm.Common.{
  ℕ, zero, suc, ◌+◌, ◌-◌, ◌*◌, ◌≤◌, ◌<◌, ◌≡◌, ◌≢◌, sym, ap, ◌∙◌, List, [], ◌∷◌, ◌++◌, length,
  length-append, slice, slice_from, slice_behind, take, drop, All, ok, err, arith, inl, inr, ltb,
  Bool-cases, ◌>>=◌,
}
use susm.Protocol.Runtime.{RuntimeFrame}
use susm.Supervisor.Journal.{
  Codec, max_runtime_frame_bytes, checksum_mismatch, from_le_bytes, frame_bytes, check_frame,
  read_frame, read_from, read,
}
use susm.Supervisor.Journal.Frames.{Writable, all_bytes, length-frame}
use susm.Supervisor.Journal.Rounds.{IsTorn, file_limit, read_frame_torn, read_from-frames}

read_from_torn :
    (c : Codec) (fuel : ℕ) (before tail : List ℕ)
    → IsTorn c tail
    → length (before ++ tail) < file_limit
    → 0 < fuel
    → read_from c fuel (before ++ tail) (length before) ≡ ok []
unfolding read_from
read_from_torn c zero before tail t lt h = absurd (omega (arith, h))
read_from_torn c (suc fuel) before tail t lt h = elim (Bool-cases (ltb (length tail) 4)) [
  | inr four ↦
      rw (read_frame_torn c before tail t (ground arith) lt)
        (ground (arith, length-append before tail))
  | inl few ↦ ground (arith, length-append before tail)
]

length-all_bytes : (c : Codec) (fs : List RuntimeFrame) → 8 * length fs ≤ length (all_bytes c fs)
length-all_bytes c [] = omega arith
length-all_bytes c (f ∷ fs) = omega (
  arith,
  length-all_bytes c fs,
  length-frame c f,
  length-append (frame_bytes c f) (all_bytes c fs),
)

pub read_split :
    (c : Codec) (fs : List RuntimeFrame) (tail : List ℕ)
    → All (Writable c) fs
    → length (all_bytes c fs ++ tail) < file_limit
    → (fuel : ℕ) × (0 < fuel)
      × (read c (all_bytes c fs ++ tail) ≡ (
          read_from c fuel (all_bytes c fs ++ tail) (length (all_bytes c fs)) >>= λ rest.
          ok (fs ++ rest)))
unfolding read
read_split c fs tail ws lt =
    let n = length (all_bytes c fs ++ tail) + 1 in
    (
      n - length fs,
      omega (arith, length-all_bytes c fs, length-append (all_bytes c fs) tail),
      read_from-frames c fs n (n - length fs) [] tail ws lt
          (omega (arith, length-all_bytes c fs, length-append (all_bytes c fs) tail)),
    )

-- What stands behind the whole frames has a length, a payload and a checksum that is not the
-- payload's.
pub record IsDamaged (c : Codec) (rest : List ℕ) : Type 0 where
  pub size : ℕ
  pub size-eq : size ≡ from_le_bytes (take 4 rest)
  pub small : size ≤ max_runtime_frame_bytes
  pub whole : size + 8 ≤ length rest
  pub mismatch : c.crc (take size (drop 4 rest)) ≢ from_le_bytes (take 4 (drop (size + 4) rest))

read_frame_damaged :
    (c : Codec) (bytes payload : List ℕ) (o n expected : ℕ)
    → from_le_bytes (slice bytes o (o + 4)) ≡ n
    → n ≤ max_runtime_frame_bytes
    → slice bytes (o + 4) (o + 4 + n) ≡ payload
    → from_le_bytes (slice bytes (o + 4 + n) (o + 4 + n + 4)) ≡ expected
    → o + n + 8 ≤ length bytes
    → length bytes < file_limit
    → c.crc payload ≢ expected
    → read_frame c bytes o ≡ err checksum_mismatch
unfolding read_frame check_frame
read_frame_damaged c bytes payload o n expected s1 small s2 s3 le lt ne = ground arith

read_from_damaged :
    (c : Codec) (fuel : ℕ) (before rest : List ℕ)
    → IsDamaged c rest
    → length (before ++ rest) < file_limit
    → 0 < fuel
    → read_from c fuel (before ++ rest) (length before) ≡ err checksum_mismatch
unfolding read_from
read_from_damaged c zero before rest d lt h = absurd (omega (arith, h))
read_from_damaged c (suc fuel) before rest d lt h =
    let o = length before in
    rw
      (read_frame_damaged c (before ++ rest) (take d.size (drop 4 rest)) o d.size _
        (ap from_le_bytes (slice_from before rest 4) ∙ sym d.size-eq) d.small
        (slice_behind before rest 4 d.size)
        (ap (λ m. from_le_bytes (slice (before ++ rest) m (m + 4))) (omega arith)
          ∙ ap from_le_bytes (slice_behind before rest (d.size + 4) 4))
        (omega (arith, d.whole, length-append before rest)) lt d.mismatch)
      (ground (arith, length-append before rest, d.whole))

-- A file of less than 2 ^ 63 bytes that holds any number of whole writable frames and then the
-- beginning of one more, from none to all but one of its bytes, is read as the whole frames.
pub read_recovers :
    (c : Codec) (fs : List RuntimeFrame) (tail : List ℕ)
    → All (Writable c) fs
    → IsTorn c tail
    → length (all_bytes c fs ++ tail) < file_limit
    → read c (all_bytes c fs ++ tail) ≡ ok fs
read_recovers c fs tail ws t lt =
    let s = read_split c fs tail ws lt in
    s.2
    ∙ ap (λ r. r >>= λ rest. ok (fs ++ rest)) (read_from_torn c s.0 (all_bytes c fs) tail t lt s.1)
    ∙ ap ok (append-nil fs)

-- A file of less than 2 ^ 63 bytes in which a complete frame follows the whole writable frames,
-- but with a checksum that is not that of its payload, is refused: the damage is never passed
-- over, nor is what stands behind it read.
pub read_damaged :
    (c : Codec) (fs : List RuntimeFrame) (rest : List ℕ)
    → All (Writable c) fs
    → IsDamaged c rest
    → length (all_bytes c fs ++ rest) < file_limit
    → read c (all_bytes c fs ++ rest) ≡ err checksum_mismatch
read_damaged c fs rest ws d lt =
    let s = read_split c fs rest ws lt in
    s.2
    ∙ ap (λ r. r >>= λ rest'. ok (fs ++ rest'))
        (read_from_damaged c s.0 (all_bytes c fs) rest d lt s.1)
