-- ===== src/Voice/Buffer.antt =====
-- app/services/voice/audio_buffer.py: the frames of an utterance, the oldest first. A frame is a list
-- of bytes.
use cat_backend.Common.{
  ℕ, ◌*◌, ◌/◌, Bool, List, [], ◌∷◌, ◌++◌, Option, none, some, if◌then◌else◌, leb, length, is_empty,
  flat_map,
}
use cat_backend.Voice.Vad.{frame_duration_ms}

abbrev pub Frame : Type 0
Frame = List ℕ

abbrev pub max_buffer_duration_ms : ℕ
max_buffer_duration_ms = 30000

pub record AudioBuffer : Type 0 where
  pub max_duration_ms : ℕ
  pub frames : List Frame

abbrev pub max_frames : AudioBuffer → ℕ
max_frames b = b.max_duration_ms / frame_duration_ms

abbrev pub duration_ms : AudioBuffer → ℕ
duration_ms b = length b.frames * frame_duration_ms

-- `popleft`; `none` is its IndexError.
abbrev pub popleft : List Frame → Option (List Frame)
popleft [] = none
popleft (f ∷ fs) = some fs

abbrev put : Frame → AudioBuffer → Option (List Frame) → Option AudioBuffer
put frame b none = none
put frame b (some fs) = some (record b { frames = fs ++ (frame ∷ []) })

unfoldable pub append : Frame → AudioBuffer → Option AudioBuffer
append frame b =
    put frame b (if leb (max_frames b) (length b.frames) then popleft b.frames else some b.frames)

unfoldable pub flush : AudioBuffer → List ℕ × AudioBuffer
flush b = (flat_map (λ f. f) b.frames, record b { frames = [] })

unfoldable pub reset : AudioBuffer → AudioBuffer
reset b = record b { frames = [] }

abbrev pub is_overflowing : AudioBuffer → Bool
is_overflowing b = leb (max_frames b) (length b.frames)

abbrev pub is_empty_buffer : AudioBuffer → Bool
is_empty_buffer b = is_empty b.frames
