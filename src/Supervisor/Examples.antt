-- ===== src/Supervisor/Examples.antt =====
-- Runs of the supervisor's journal, recorder and retry decision. The codec is a small one: an
-- acknowledgement is its number, an observation its number and its time, and the checksum a sum.
use susm.Common.{
  ℕ, ◌+◌, ◌%◌, ◌^◌, ◌<◌, ◌≡◌, ◌≢◌, refl, true, false, Option, none, some, List, [], ◌∷◌, ◌++◌,
  length, arith, All, ok, err, ◌>>=◌,
}
use susm.Common.Lists.{slice}
use susm.Protocol.Runtime.{RuntimeFrame, Record, observation, acknowledgement}
use susm.Supervisor.Journal.{
  Codec, checksum_mismatch, out_of_fuel, to_le_bytes, from_le_bytes, RuntimeJournal, append, read,
  read_frame, read_from, open_journal,
}
use susm.Supervisor.Journal.Frames.{Writable, all_bytes}
use susm.Supervisor.Journal.Rounds.{IsTorn}
use susm.Supervisor.Journal.Recovery.{IsDamaged, read_recovers, read_damaged}
use susm.Supervisor.Journal.Reading.{read-total}
use susm.Supervisor.Journal.Appending.{append_all, appends-reopen}
use susm.Supervisor.Recorder.{RuntimeRecorder, ObservationFacts}
use susm.Supervisor.Recorder.Calls.{Call, observed, acknowledged, recovered}

abbrev encode_content : Option Record → List ℕ
encode_content (some (acknowledgement n)) = n ∷ []
encode_content (some (observation o)) = o.sequence ∷ o.observed_unix_ms ∷ []
encode_content _ = []

abbrev ack : ℕ → RuntimeFrame
ack n = record { format = 1; content = some (acknowledgement n) }

abbrev recording : ℕ → ℕ → RuntimeFrame
recording n now = record {
  format = 1;
  content = some (
      observation (record {
        sequence = n;
        kind = "launched";
        attempt = 1;
        exit_code = none;
        detail = "";
        observed_unix_ms = now;
        is_terminal = false;
        workload_process_id = 40;
      }));
}

abbrev decode_bytes : List ℕ → Option RuntimeFrame
decode_bytes (n ∷ []) = some (ack n)
decode_bytes (n ∷ now ∷ []) = some (recording n now)
decode_bytes _ = none

abbrev total : List ℕ → ℕ
total [] = 0
total (b ∷ bs) = (b + total bs) % 256

abbrev codec : Codec
codec = record { encode = λ f. encode_content f.content; decode = decode_bytes; crc = total }

abbrev two_frames : List RuntimeFrame
two_frames = ack 7 ∷ ack 8 ∷ []

abbrev torn_tail : List ℕ
torn_tail = 1 ∷ 0 ∷ 0 ∷ 0 ∷ 9 ∷ []

ack-Writable : (n : ℕ) → n < 256 → Writable codec (ack n)
ack-Writable n h = record {
  small = omega arith;
  decodes = refl;
  checksum = omega arith;
  format = refl;
  content = (acknowledgement n, refl);
}

torn_tail-IsTorn : IsTorn codec torn_tail
unfolding to_le_bytes
torn_tail-IsTorn = record {
  frame = ack 9;
  rest = 9 ∷ 0 ∷ 0 ∷ 0 ∷ [];
  writable = ack-Writable 9 (omega arith);
  split = refl;
  missing = omega arith;
}

two_frames-Writable : All (Writable codec) two_frames
two_frames-Writable = (ack-Writable 7 (omega arith), (ack-Writable 8 (omega arith), tt))

two_frames_short : length (all_bytes codec two_frames ++ torn_tail) < 2 ^ 63
unfolding to_le_bytes
two_frames_short = omega arith

recovers_example : read codec (all_bytes codec two_frames ++ torn_tail) ≡ ok two_frames
recovers_example =
    read_recovers codec two_frames torn_tail two_frames-Writable torn_tail-IsTorn two_frames_short

reopen_example :
    (open_journal codec [] >>= λ j.
    append_all codec j two_frames >>= λ done. open_journal codec (done.bytes ++ torn_tail))
    ≡ ok (record {
      bytes = all_bytes codec two_frames ++ torn_tail;
      is_open = true;
      frames = two_frames;
    })
reopen_example =
    appends-reopen codec two_frames torn_tail two_frames-Writable torn_tail-IsTorn two_frames_short

-- What `append` leaves behind a torn tail.
abbrev overwritten : List ℕ
overwritten = torn_tail ++ (1 ∷ 0 ∷ 0 ∷ 0 ∷ 5 ∷ 5 ∷ 0 ∷ 0 ∷ 0 ∷ [])

overwritten-IsDamaged : IsDamaged codec overwritten
unfolding from_le_bytes
overwritten-IsDamaged = record {
  size = 1;
  size-eq = refl;
  small = omega arith;
  whole = omega arith;
  mismatch = λ h. omega arith;
}

overwritten_short : length (all_bytes codec two_frames ++ overwritten) < 2 ^ 63
unfolding to_le_bytes
overwritten_short = omega arith

damaged_example : read codec (all_bytes codec two_frames ++ overwritten) ≡ err checksum_mismatch
damaged_example =
    read_damaged codec two_frames overwritten two_frames-Writable overwritten-IsDamaged
      overwritten_short

-- A journal with a torn tail is opened, one frame is appended without an error, and the file cannot be
-- read any more.
torn_then_append :
    (open_journal codec torn_tail >>= λ j. append codec j (ack 5) >>= λ k. read codec k.bytes)
    ≡ err checksum_mismatch
unfolding open_journal read read_from read_frame append to_le_bytes from_le_bytes slice
torn_then_append = refl

-- With the length of a long frame in the torn tail, the frame that was appended is dropped silently.
torn_then_dropped :
    (open_journal codec (100 ∷ 0 ∷ 0 ∷ 0 ∷ []) >>= λ j.
    append codec j (ack 5) >>= λ k. read codec k.bytes)
    ≡ ok []
unfolding open_journal read read_from read_frame append to_le_bytes from_le_bytes slice
torn_then_dropped = refl

total_example : read codec (1 ∷ 2 ∷ 3 ∷ []) ≢ err out_of_fuel
total_example = read-total codec (1 ∷ 2 ∷ 3 ∷ [])

abbrev facts : ObservationFacts
facts = record {
  kind = "launched";
  attempt = 1;
  exit_code = none;
  detail = "";
  is_terminal = false;
  workload_process_id = 40;
}

abbrev new_journal : RuntimeJournal
new_journal = record { bytes = []; is_open = true; frames = [] }

abbrev new_recording : RuntimeRecorder
new_recording = record { journal = new_journal; sequence = 0; committed_sequence = 0 }

abbrev some_calls : List Call
some_calls = observed facts 1_000 ∷ acknowledged 1 ∷ recovered ∷ observed facts 2_000 ∷ []

abbrev recorded : RuntimeRecorder
recorded = record {
  journal = record {
    bytes = all_bytes codec (recording 1 1_000 ∷ ack 1 ∷ recording 2 2_000 ∷ []);
    is_open = true;
    frames = recording 1 1_000 ∷ ack 1 ∷ recording 2 2_000 ∷ [];
  };
  sequence = 2;
  committed_sequence = 1;
}
