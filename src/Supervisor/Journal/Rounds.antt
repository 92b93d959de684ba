-- ===== src/Supervisor/Journal/Rounds.antt =====
-- crates/supervisor/src/journal.rs: the rounds of the loop that reads a journal.
use mathlib.Core.List.{append_assoc, append-nil}
use susm.Common.{
  ℕ, zero, suc, ◌+◌, ◌^◌, ◌≤◌, ◌<◌, ◌≡◌, refl, sym, ap, ◌∙◌, none, List, [], ◌∷◌, ◌++◌, length,
  length-append, slice, take_within, take, All, Result, ok, err, arith, ◌>>=◌, slice_from,
}
use susm.Protocol.Runtime.{RuntimeFrame}
use susm.Supervisor.Journal.{
  Codec, max_runtime_frame_bytes, JournalError, to_le_bytes, frame_bytes, read_frame, read_from,
}
use susm.Supervisor.Journal.Frames.{
  Writable, all_bytes, from_le-to_le, length-to_le, length-frame, read_frame_complete,
}

-- The part of a frame's bytes that an interrupted write left, none or some but not all of them.
pub record IsTorn (c : Codec) (tail : List ℕ) : Type 0 where
  pub frame : RuntimeFrame
  pub rest : List ℕ
  pub writable : Writable c frame
  pub split : tail ++ rest ≡ frame_bytes c frame
  pub missing : 0 < length rest

-- The lengths that a file can have.
abbrev pub file_limit : ℕ
file_limit = 2 ^ 63

read_frame_short :
    (c : Codec) (bytes : List ℕ) (o n : ℕ)
    → slice bytes o (o + 4) ≡ to_le_bytes n
    → n ≤ max_runtime_frame_bytes
    → length bytes < o + 4 + n + 4
    → o ≤ length bytes
    → length bytes < file_limit
    → read_frame c bytes o ≡ ok none
unfolding read_frame
read_frame_short c bytes o n s small short inside lt = ground (arith, from_le-to_le n)

take_head : (n : ℕ) → take 4 (to_le_bytes n) ≡ to_le_bytes n
unfolding to_le_bytes
take_head n = refl

pub read_frame_torn :
    (c : Codec) (before tail : List ℕ)
    → IsTorn c tail
    → 4 ≤ length tail
    → length (before ++ tail) < file_limit
    → read_frame c (before ++ tail) (length before) ≡ ok none
read_frame_torn c before tail t four lt =
    let f = t.frame in
    let head = to_le_bytes (length (c.encode f)) in
    read_frame_short c (before ++ tail) (length before) (length (c.encode f))
      (slice_from before tail 4
        ∙ sym (take_within 4 tail t.rest four)
        ∙ ap (take 4) t.split
        ∙ take_within 4 head _ (omega (arith, length-to_le (length (c.encode f))))
        ∙ take_head (length (c.encode f)))
      t.writable.small
      (omega (
        arith,
        t.missing,
        length-append before tail,
        length-append tail t.rest,
        ap length t.split,
        length-frame c f,
      ))
      (omega (arith, length-append before tail)) lt

read_from-frame :
    (c : Codec) (f : RuntimeFrame) (fuel : ℕ) (before after : List ℕ)
    → Writable c f
    → length (before ++ (frame_bytes c f ++ after)) < file_limit
    → read_from c (suc fuel) (before ++ (frame_bytes c f ++ after)) (length before) ≡ (
        read_from c fuel
          (before ++ (frame_bytes c f ++ after))
          (length before + length (frame_bytes c f))
        >>= λ frames. ok (f ∷ frames))
unfolding read_from
read_from-frame c f fuel before after w lt =
    rw (read_frame_complete c f before after w (omega (arith, lt))) (
      ground (
        arith,
        length-append before (frame_bytes c f ++ after),
        length-append (frame_bytes c f) after,
        length-frame c f,
      ))

-- The same, with the frame among what is in front of the next round.
read_from-next :
    (c : Codec) (f : RuntimeFrame) (fuel : ℕ) (before after : List ℕ)
    → Writable c f
    → length (before ++ (frame_bytes c f ++ after)) < file_limit
    → read_from c (suc fuel) (before ++ (frame_bytes c f ++ after)) (length before) ≡ (
        read_from c fuel ((before ++ frame_bytes c f) ++ after) (length (before ++ frame_bytes c f))
        >>= λ frames. ok (f ∷ frames))
read_from-next c f fuel before after w lt =
    read_from-frame c f fuel before after w lt
    ∙ ap
        (λ l. read_from c fuel l (length before + length (frame_bytes c f)) >>= λ frames.
          ok (f ∷ frames))
        (sym (append_assoc before (frame_bytes c f) after))
    ∙ ap
        (λ n.
          read_from c fuel ((before ++ frame_bytes c f) ++ after) n >>= λ frames. ok (f ∷ frames))
        (sym (length-append before (frame_bytes c f)))

append_frame :
    (c : Codec) (f : RuntimeFrame) (before after tail : List ℕ)
    → before ++ ((frame_bytes c f ++ after) ++ tail)
      ≡ before ++ (frame_bytes c f ++ (after ++ tail))
append_frame c f before after tail =
    ap (λ l. before ++ l) (append_assoc (frame_bytes c f) after tail)

then_all :
    {A : Type 0} (f : A) (fs : List A) (r : Result (List A) JournalError)
    → ((r >>= λ rest. ok (fs ++ rest)) >>= λ frames. ok (f ∷ frames))
      ≡ (r >>= λ rest. ok ((f ∷ fs) ++ rest))
then_all f fs (ok r) = refl
then_all f fs (err e) = refl

then_none : (r : Result (List RuntimeFrame) JournalError) → (r >>= λ rest. ok ([] ++ rest)) ≡ r
then_none (ok r) = refl
then_none (err e) = refl

-- The loop reads every whole frame and goes on with what stands behind them.
pub read_from-frames :
    (c : Codec) (fs : List RuntimeFrame) (n fuel : ℕ) (before tail : List ℕ)
    → All (Writable c) fs
    → length (before ++ (all_bytes c fs ++ tail)) < file_limit
    → n ≡ length fs + fuel
    → read_from c n (before ++ (all_bytes c fs ++ tail)) (length before) ≡ (
        read_from c fuel ((before ++ all_bytes c fs) ++ tail) (length (before ++ all_bytes c fs))
        >>= λ rest. ok (fs ++ rest))
read_from-frames c [] n fuel before tail ws lt h =
    rw (append-nil before, then_none (read_from c fuel (before ++ tail) (length before)))
      (ap (λ m. read_from c m (before ++ tail) (length before)) (omega (arith, h)))
read_from-frames c (f ∷ fs) zero fuel before tail ws lt h = absurd (omega (arith, h))
read_from-frames c (f ∷ fs) (suc n) fuel before tail ws lt h =
    let shape = append_frame c f before (all_bytes c fs) tail in
    ap (λ l. read_from c (suc n) l (length before)) shape
    ∙ read_from-next c f n before (all_bytes c fs ++ tail) ws.0 (omega (arith, lt, ap length shape))
    ∙ ap (λ r. r >>= λ frames. ok (f ∷ frames))
        (read_from-frames c fs n fuel (before ++ frame_bytes c f) tail ws.1
          (omega (
            arith,
            lt,
            ap length shape,
            ap length (append_assoc before (frame_bytes c f) (all_bytes c fs ++ tail)),
          ))
          (omega (arith, h)))
    ∙ then_all f fs _
    ∙ ap (λ l. read_from c fuel (l ++ tail) (length l) >>= λ rest. ok ((f ∷ fs) ++ rest))
        (append_assoc before (frame_bytes c f) (all_bytes c fs))
