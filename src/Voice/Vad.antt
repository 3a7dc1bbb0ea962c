-- ===== src/Voice/Vad.antt =====
-- app/services/voice/vad.py: the end of an utterance. Whether a frame is speech is the answer of the
-- backend, an argument.
use cat_backend.Common.{ℕ, ◌+◌, ◌*◌, Bool, true, false, not, if◌then◌else◌, leb}

abbrev pub frame_duration_ms : ℕ
frame_duration_ms = 20

abbrev pub default_silence_threshold_ms : ℕ
default_silence_threshold_ms = 500

pub record VadProcessor : Type 0 where
  pub silence_threshold_ms : ℕ
  pub silent_frames : ℕ
  pub has_seen_speech : Bool

pub record VadResult : Type 0 where
  pub is_speech : Bool
  pub duration_silent_ms : ℕ

unfoldable pub process_frame : Bool → VadProcessor → VadResult × VadProcessor
process_frame speech_detected v =
    let after : VadProcessor =
      if speech_detected
      then record v { has_seen_speech = true; silent_frames = 0 }
      else record v { silent_frames = v.silent_frames + 1 } in
    (
      record {
        is_speech = speech_detected;
        duration_silent_ms = after.silent_frames * frame_duration_ms;
      },
      after,
    )

unfoldable pub is_speech_ended : VadProcessor → Bool
is_speech_ended v =
    if not v.has_seen_speech
    then false
    else leb v.silence_threshold_ms (v.silent_frames * frame_duration_ms)

unfoldable pub reset : VadProcessor → VadProcessor
reset v = record v { silent_frames = 0; has_seen_speech = false }
