-- ===== src/Supervisor/Journal.antt =====
-- crates/supervisor/src/journal.rs: the runtime journal. The file is the list of its bytes; reads
-- and writes of the disk succeed. Protobuf (`prost`) and the checksum (`crc32c`) are parameters.
pub mod Frames
pub mod Rounds
pub mod Recovery
pub mod Appending
pub mod Reading
pub mod Sequences
use susm.Common.{
  ℕ, zero, suc, ◌+◌, ◌-◌, ◌*◌, ◌/◌, ◌%◌, ◌^◌, ◌≤◌, ◌<◌, ◌≡◌, Bool, true, false, ◌||◌, not, Option,
  none, some, List, [], ◌∷◌, ◌++◌, length, slice, u32_limit, u64_limit, checked_add, if◌then◌else◌,
  ltb, ◌==◌, Result, ok, err, ok_or, ◌>>=◌, ◌>>◌,
}
use susm.Protocol.Runtime.{
  RuntimeFrame, Record, Checkpoint, checkpoint, RuntimeObservation, observation, acknowledgement,
}

abbrev pub max_runtime_frame_bytes : ℕ
max_runtime_frame_bytes = 4 * 1024 * 1024

-- `RuntimeFrame::encode_to_vec`, `RuntimeFrame::decode` and `crc32c::crc32c`.
pub record Codec : Type 0 where
  pub encode : RuntimeFrame → List ℕ
  pub decode : List ℕ → Option RuntimeFrame
  pub crc : List ℕ → ℕ

-- `out_of_fuel` is the model's own: the rounds that `read_from` was given are used up.
pub data JournalError : Type 0 where
  frame_too_large length_overflow offset_overflow checksum_mismatch : JournalError
  undecodable unsupported_frame finalized out_of_fuel : JournalError

-- `u32::to_le_bytes`, `u32::from_le_bytes`.
unfoldable pub to_le_bytes : ℕ → List ℕ
to_le_bytes n = (n % 256) ∷ (n / 256 % 256) ∷ (n / 65_536 % 256) ∷ (n / 16_777_216 % 256) ∷ []

unfoldable pub from_le_bytes : List ℕ → ℕ
from_le_bytes [] = 0
from_le_bytes (b ∷ bs) = b + 256 * from_le_bytes bs

-- The fields of `RuntimeJournalInner` but for the path: the file's bytes, whether it is still held
-- open, and the frames in memory.
pub record RuntimeJournal : Type 0 where
  pub bytes : List ℕ
  pub is_open : Bool
  pub frames : List RuntimeFrame

pub record RuntimeRecovery : Type 0 where
  pub last_checkpoint : Option Checkpoint
  pub last_sequence : ℕ
  pub committed_sequence : ℕ

abbrev is_none {ℓ} : {A : Type ℓ} → Option A → Bool
is_none none = true
is_none (some _) = false

module _ (c : Codec) where
  -- The bytes that `append` writes for a frame.
  abbrev pub frame_bytes : RuntimeFrame → List ℕ
  frame_bytes frame =
      let payload = c.encode frame in
      to_le_bytes (length payload) ++ (payload ++ to_le_bytes (c.crc payload))

  unfoldable pub append : RuntimeJournal → RuntimeFrame → Result RuntimeJournal JournalError
  append j frame =
      let payload = c.encode frame in
      if ltb max_runtime_frame_bytes (length payload)
      then err frame_too_large
      else if not (ltb (length payload) u32_limit)
      then err length_overflow
      else if not j.is_open
      then err finalized
      else ok (record j { bytes = j.bytes ++ frame_bytes frame; frames = j.frames ++ frame ∷ [] })

  -- The checks that follow the length of a frame that is there in full.
  check_frame : List ℕ → ℕ → ℕ → Result (Option (RuntimeFrame × ℕ)) JournalError
  check_frame payload expected frame_end =
      if not (c.crc payload == expected)
      then err checksum_mismatch
      else (ok_or (c.decode payload) undecodable >>= λ frame.
          if not (frame.format == 1) || is_none frame.content
          then err unsupported_frame
          else ok (some (frame, frame_end)))

  -- One round of the loop of `read_runtime_frames`: `none` is its `break`.
  unfoldable pub read_frame : List ℕ → ℕ → Result (Option (RuntimeFrame × ℕ)) JournalError
  unfolding check_frame
  read_frame bytes offset =
      let payload_start = offset + 4 in
      let size = from_le_bytes (slice bytes offset payload_start) in
      if ltb max_runtime_frame_bytes size then err frame_too_large else do
        checksum_start ← ok_or (checked_add u64_limit payload_start size) length_overflow
        frame_end ← ok_or (checked_add u64_limit checksum_start 4) offset_overflow
        if ltb (length bytes) frame_end
            then ok none
            else check_frame (slice bytes payload_start checksum_start)
                (from_le_bytes (slice bytes checksum_start frame_end)) frame_end

  -- The loop, on fuel. The recursive call waits in a case.
  unfoldable pub read_from : ℕ → List ℕ → ℕ → Result (List RuntimeFrame) JournalError
  read_from zero bytes offset = err out_of_fuel
  read_from (suc fuel) bytes offset =
      if ltb (length bytes - offset) 4 then ok [] else elim (read_frame bytes offset) [
        | err e ↦ err e
        | ok none ↦ ok []
        | ok (some (frame, frame_end)) ↦
            read_from fuel bytes frame_end >>= λ frames. ok (frame ∷ frames)
      ]

  -- `read_runtime_frames`: each round takes eight bytes or more.
  unfoldable pub read : List ℕ → Result (List RuntimeFrame) JournalError
  read bytes = read_from (length bytes + 1) bytes 0

  -- `RuntimeJournal::open` on a file with these bytes (none if it is new).
  unfoldable pub open_journal : List ℕ → Result RuntimeJournal JournalError
  unfolding read
  open_journal bytes = do
    frames ← read bytes
    ok (record { bytes = bytes; is_open = true; frames = frames })

-- `RuntimeJournal::finalize`.
unfoldable pub finalize : RuntimeJournal → RuntimeJournal
finalize j = record j { is_open = false }
