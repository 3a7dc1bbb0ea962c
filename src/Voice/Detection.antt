-- ===== src/Voice/Detection.antt =====
-- The speech detector of app/services/voice/vad.py against the frames it has seen.
use cat_backend.Common.{
  ℕ, ◌+◌, ◌*◌, ◌≡◌, refl, Bool, true, false, List, [], ◌∷◌, Option, none, some, length, leb, arith,
  Option-cases, inl, inr, ◌∙◌, if◌then◌else◌,
}
use cat_backend.Voice.Vad.{VadProcessor, process_frame, is_speech_ended, reset, frame_duration_ms}

-- The detector after frames, each given by the backend's answer.
abbrev pub fed : List Bool → VadProcessor → VadProcessor
fed [] v = v
fed (speech ∷ frames) v = fed frames (process_frame speech v).1

-- How many frames follow the last speech, if there is any.
abbrev pub silent_since : List Bool → Option ℕ
silent_since [] = none
silent_since (speech ∷ frames) = elim (silent_since frames) [
  | some n ↦ some n
  | none ↦ if speech then some (length frames) else none
]

abbrev pub over : ℕ → Option ℕ → Bool
over threshold none = false
over threshold (some n) = leb threshold (n * frame_duration_ms)

fed-unheard :
    (frames : List Bool) (v : VadProcessor)
    → silent_since frames ≡ none
    → ((fed frames v).has_seen_speech ≡ v.has_seen_speech)
      × ((fed frames v).silent_frames ≡ v.silent_frames + length frames)
unfolding process_frame
fed-unheard [] v h = (refl, omega arith)
fed-unheard (true ∷ frames) v h = elim (Option-cases (silent_since frames)) [
  | inl quiet ↦ absurd (cc (rw quiet at h))
  | inr (n, talk) ↦ absurd (cc (rw talk at h))
]
fed-unheard (false ∷ frames) v h =
    let later : silent_since frames ≡ none = ground arith in
    let (seen, silent) = fed-unheard frames (process_frame false v).1 later in
    (seen, silent ∙ omega arith)

fed-heard :
    (frames : List Bool) (v : VadProcessor) (n : ℕ)
    → silent_since frames ≡ some n
    → ((fed frames v).has_seen_speech ≡ true) × ((fed frames v).silent_frames ≡ n)
unfolding process_frame
fed-heard [] v n h = cc
fed-heard (true ∷ frames) v n h = elim (Option-cases (silent_since frames)) [
  | inr (m, talk) ↦
      let (seen, silent) = fed-heard frames (process_frame true v).1 m talk in
      (seen, silent ∙ cc (rw talk at h))
  | inl quiet ↦
      let (seen, silent) = fed-unheard frames (process_frame true v).1 quiet in
      let count : length frames ≡ n = cc (rw quiet at h) in (seen, silent ∙ omega (arith, count))
]
fed-heard (false ∷ frames) v n h = elim (Option-cases (silent_since frames)) [
  | inr (m, talk) ↦
      let (seen, silent) = fed-heard frames (process_frame false v).1 m talk in
      (seen, silent ∙ cc (rw talk at h))
  | inl quiet ↦ absurd (cc (rw quiet at h))
]

fed-threshold :
    (frames : List Bool) (v : VadProcessor)
    → (fed frames v).silence_threshold_ms ≡ v.silence_threshold_ms
unfolding process_frame
fed-threshold [] v = refl
fed-threshold (true ∷ frames) v = fed-threshold frames (process_frame true v).1
fed-threshold (false ∷ frames) v = fed-threshold frames (process_frame false v).1

-- After a reset and any frames, the end of speech is reported exactly when there was speech and the
-- frames after the last of it last as long as the threshold.
pub is_speech_ended-fed :
    (frames : List Bool) (v : VadProcessor)
    → is_speech_ended (fed frames (reset v)) ≡ over v.silence_threshold_ms (silent_since frames)
unfolding is_speech_ended reset
is_speech_ended-fed frames v = elim (Option-cases (silent_since frames)) [
  | inl quiet ↦ rw (quiet, (fed-unheard frames (reset v) quiet).0) refl
  | inr (n, talk) ↦
      let (seen, silent) = fed-heard frames (reset v) n talk in
      rw (talk, seen, silent, fed-threshold frames (reset v)) refl
]
