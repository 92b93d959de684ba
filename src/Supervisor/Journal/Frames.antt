-- ===== src/Supervisor/Journal/Frames.antt =====
-- crates/supervisor/src/journal.rs: where the parts of a frame stand among the bytes of a file.
use mathlib.Core.List.{append_assoc}
use susm.Common.{
  ℕ, ◌+◌, ◌≤◌, ◌<◌, ◌≡◌, refl, sym, ap, ◌∙◌, some, List, [], ◌∷◌, ◌++◌, length, length-append,
  slice, slice_middle, u32_limit, u64_limit, ok, arith,
}
use susm.Protocol.Runtime.{RuntimeFrame, Record}
use susm.Supervisor.Journal.{
  Codec, max_runtime_frame_bytes, to_le_bytes, from_le_bytes, frame_bytes, read_frame,
}

pub from_le-to_le : (n : ℕ) → n < u32_limit → from_le_bytes (to_le_bytes n) ≡ n
unfolding from_le_bytes to_le_bytes
from_le-to_le n h = omega arith

pub length-to_le : (n : ℕ) → length (to_le_bytes n) ≡ 4
unfolding to_le_bytes
length-to_le n = refl

abbrev pub HasContent : RuntimeFrame → Type 0
HasContent f = (r : Record) × (f.content ≡ some r)

-- A frame of the supported format that is small enough, for which the encoding decodes to it and the
-- checksum is a `u32`.
pub record Writable (c : Codec) (f : RuntimeFrame) : Type 0 where
  pub small : length (c.encode f) ≤ max_runtime_frame_bytes
  pub decodes : c.decode (c.encode f) ≡ some f
  pub checksum : c.crc (c.encode f) < u32_limit
  pub format : f.format ≡ 1
  pub content : HasContent f

-- The bytes of a sequence of frames.
abbrev pub all_bytes : Codec → List RuntimeFrame → List ℕ
all_bytes c [] = []
all_bytes c (f ∷ fs) = frame_bytes c f ++ all_bytes c fs

read_frame_found :
    (c : Codec) (f : RuntimeFrame) (bytes : List ℕ) (o n : ℕ)
    → Writable c f
    → n ≡ length (c.encode f)
    → slice bytes o (o + 4) ≡ to_le_bytes n
    → slice bytes (o + 4) (o + 4 + n) ≡ c.encode f
    → slice bytes (o + 4 + n) (o + 4 + n + 4) ≡ to_le_bytes (c.crc (c.encode f))
    → o + 4 + n + 4 ≤ length bytes
    → length bytes < u64_limit
    → read_frame c bytes o ≡ ok (some (f, o + 4 + n + 4))
unfolding read_frame
read_frame_found c f bytes o n w e s1 s2 s3 le lt =
    ground (arith, from_le-to_le n, from_le-to_le (c.crc (c.encode f)))

-- The three parts of a frame, cut out of the bytes it stands in.
module _ (b p q r a : List ℕ) where
  abbrev framed : List ℕ
  framed = b ++ ((p ++ (q ++ r)) ++ a)

  slice_first : (n : ℕ) → n ≡ length p → slice framed (length b) (length b + n) ≡ p
  slice_first n e =
      ap (λ l. slice (b ++ l) (length b) (length b + n)) (append_assoc p (q ++ r) a)
      ∙ slice_middle b p ((q ++ r) ++ a) (length b) (length b + n) refl (omega (arith, e))

  slice_second :
      (from to : ℕ) → from ≡ length b + length p → to ≡ from + length q → slice framed from to ≡ q
  slice_second from to f t =
      ap (λ l. slice l from to)
        (ap (λ l. b ++ l) (append_assoc p (q ++ r) a ∙ ap (λ l. p ++ l) (append_assoc q r a))
          ∙ sym (append_assoc b p (q ++ (r ++ a))))
      ∙ slice_middle (b ++ p) q (r ++ a) from to (f ∙ sym (length-append b p)) t

  slice_third :
      (from to : ℕ)
      → from ≡ length b + length p + length q
      → to ≡ from + length r
      → slice framed from to ≡ r
  slice_third from to f t =
      ap (λ l. slice l from to)
        (ap (λ l. b ++ l) (append_assoc p (q ++ r) a ∙ ap (λ l. p ++ l) (append_assoc q r a))
          ∙ sym (append_assoc b p (q ++ (r ++ a)))
          ∙ sym (append_assoc (b ++ p) q (r ++ a)))
      ∙ slice_middle ((b ++ p) ++ q) r a from to
          (omega (arith, f, length-append b p, length-append (b ++ p) q)) t

pub length-frame :
    (c : Codec) (f : RuntimeFrame) → length (frame_bytes c f) ≡ length (c.encode f) + 8
length-frame c f = omega (
  arith,
  length-append (to_le_bytes (length (c.encode f)))
      (c.encode f ++ to_le_bytes (c.crc (c.encode f))),
  length-append (c.encode f) (to_le_bytes (c.crc (c.encode f))),
  length-to_le (length (c.encode f)),
  length-to_le (c.crc (c.encode f)),
)

-- The whole frame that stands at an offset is read, and the next round starts after it.
pub read_frame_complete :
    (c : Codec) (f : RuntimeFrame) (before after : List ℕ)
    → Writable c f
    → length (before ++ (frame_bytes c f ++ after)) < u64_limit
    → read_frame c (before ++ (frame_bytes c f ++ after)) (length before)
      ≡ ok (some (f, length before + length (frame_bytes c f)))
read_frame_complete c f before after w lt =
    let p = c.encode f in
    let n = to_le_bytes (length p) in
    let s = to_le_bytes (c.crc p) in
    read_frame_found c f (before ++ (frame_bytes c f ++ after)) (length before) (length p) w refl
      (slice_first before n p s after 4 (sym (length-to_le (length p))))
      (slice_second before n p s after (length before + 4) (length before + 4 + length p)
        (omega (arith, length-to_le (length p))) refl)
      (slice_third before n p s after (length before + 4 + length p)
        (length before + 4 + length p + 4) (omega (arith, length-to_le (length p)))
        (omega (arith, length-to_le (c.crc p))))
      (omega (
        arith,
        length-frame c f,
        length-append before (frame_bytes c f ++ after),
        length-append (frame_bytes c f) after,
      ))
      lt
    ∙ ap (λ k. ok (some (f, k))) (omega (arith, length-frame c f))
