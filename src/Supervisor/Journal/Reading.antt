-- ===== src/Supervisor/Journal/Reading.antt =====
-- crates/supervisor/src/journal.rs: the loop of `read_runtime_frames` ends.
use susm.Common.{
  ℕ, zero, suc, ◌+◌, ◌-◌, ◌<◌, ◌≤◌, ◌≡◌, ◌≢◌, none, some, List, ◌∷◌, length, Result, ok, err, arith,
  ◌>>=◌, Result-cases, ltb, Bool-cases, inl, inr,
}
use susm.Protocol.Runtime.{RuntimeFrame}
use susm.Supervisor.Journal.{
  Codec, JournalError, out_of_fuel, check_frame, read_frame, read_from, read,
}

-- A round that goes on has taken eight bytes of the file at least.
read_frame-next :
    (c : Codec) (bytes : List ℕ) (o : ℕ) (f : RuntimeFrame) (e : ℕ)
    → read_frame c bytes o ≡ ok (some (f, e))
    → (o + 8 ≤ e) × (e ≤ length bytes)
unfolding read_frame check_frame
read_frame-next c bytes o f e h = (ground arith, ground arith)

read_frame-total : (c : Codec) (bytes : List ℕ) (o : ℕ) → read_frame c bytes o ≢ err out_of_fuel
unfolding read_frame check_frame
read_frame-total c bytes o h = ground arith

bind-error :
    (r : Result (List RuntimeFrame) JournalError) (f : RuntimeFrame)
    → r ≢ err out_of_fuel
    → (r >>= λ frames. ok (f ∷ frames)) ≢ err out_of_fuel
bind-error (ok fs) f ne h = ground arith
bind-error (err e) f ne h = ground arith

read_from-total :
    (c : Codec) (fuel : ℕ) (bytes : List ℕ) (o : ℕ)
    → length bytes < fuel + o
    → o ≤ length bytes
    → read_from c fuel bytes o ≢ err out_of_fuel
unfolding read_from
read_from-total c zero bytes o h le = absurd (omega (arith, h, le))
read_from-total c (suc fuel) bytes o h le = elim (Bool-cases (ltb (length bytes - o) 4)) [
  | inl few ↦ rw (few) (λ eq. ground arith)
  | inr four ↦ rw (four) (elim (Result-cases (read_frame c bytes o)) [
    | inr (e, at) ↦ rw (at) (λ eq. ground (arith, read_frame-total c bytes o))
    | inl (none, at) ↦ rw (at) (λ eq. ground arith)
    | inl (some (f, next), at) ↦ rw (at) (
        bind-error (read_from c fuel bytes next) f (
          read_from-total c fuel bytes next (omega (arith, h, read_frame-next c bytes o f next at))
            ((read_frame-next c bytes o f next at).1)))
  ])
]

-- The fuel that `read` gives is enough for every file: reading it ends with the frames or with one of
-- the errors of the code.
pub read-total : (c : Codec) (bytes : List ℕ) → read c bytes ≢ err out_of_fuel
unfolding read
read-total c bytes = read_from-total c (length bytes + 1) bytes 0 (omega arith) (omega arith)
