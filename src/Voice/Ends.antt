-- ===== src/Voice/Ends.antt =====
-- What every frame keeps and how a call ends, over app/services/voice/voice_pipeline.py.
use cat_backend.Common.{
  ℕ, ◌≤◌, ◌≡◌, refl, ◌∙◌, Bool, true, false, not, ◌&&◌, Option, none, some, inl, inr, arith,
  Bool-cases, if◌then◌else◌,
}
use cat_backend.Common.Eq.{ℕ-Eq}
use cat_backend.Common.Words.{Text}
use cat_backend.Debtor.Mood.{Language}
use cat_backend.Debtor.Simulator.{Prompt}
use cat_backend.Transcript.Retry.{Attempt}
use cat_backend.Transcript.Numbering.{IsNumbered}
use cat_backend.Transcript.Steps.{Reach, done, Reach-IsNumbered}
use cat_backend.Voice.Vad.{process_frame, is_speech_ended}
use cat_backend.Voice.Buffer.{AudioBuffer, Frame, is_empty_buffer}
use cat_backend.Voice.Window.{append-some}
use cat_backend.Voice.Vad.{frame_duration_ms}
use cat_backend.Voice.Pipeline.{Pipeline, utterance, after_append, process_audio_frame}
use cat_backend.Voice.Turns.{Continues, Proceeds, process_utterance-Proceeds}

past_guard : {A : Type 0} (b : Bool) (x y : A) → b ≡ true → (if not b then x else y) ≡ y
past_guard b x y e = rw e refl

module _ (commit : ℕ → Attempt Unit) (key : Text) (synthesize : Text → Language → Option Frame)
    (lower : Text → Text) (chat : ℕ → Prompt → Option Text) (clock : ℕ → ℕ)
    (transcribe : Frame → Option Text) where
  appended :
      (b : AudioBuffer) (p q : Pipeline)
      → p.is_active ≡ true
      → Reach q.recorder p.recorder
      → (response : Option Frame) × (after : Pipeline) × (after_append commit key synthesize lower
            chat clock transcribe
            (some b)
            p
          ≡ some (response, after))
        × Proceeds q after
  appended b p q active r = elim (Bool-cases (is_speech_ended p.vad && not (is_empty_buffer b))) [
    | inl over ↦
        let busy : Pipeline = record p { audio_buffer = b; is_processing = true } in
        let turn =
          process_utterance-Proceeds commit key synthesize lower chat clock transcribe busy q active
            r in
        let result =
          utterance commit key synthesize lower chat clock transcribe
            (record p { audio_buffer = b }) in
        (
          result.0,
          result.1,
          rw (after_append, over) refl,
          record { continues = turn.continues; recorded = turn.recorded },
        )
    | inr listening ↦ (
      none,
      record p { audio_buffer = b },
      rw (after_append, listening) refl,
      record { continues = inl active; recorded = r },
    )
  ]

  -- While the call is active, and with room for a frame in the buffer, every frame is handled
  -- whatever the services do: the call goes on, or it is over and the queue has nothing but the
  -- signal; and the numbers of every transcript stay 0, 1 and so on.
  pub process_audio_frame-Continues :
      (frame : Frame) (speech : Bool) (p : Pipeline)
      → p.is_active ≡ true
      → frame_duration_ms ≤ p.audio_buffer.max_duration_ms
      → ((t : ℕ) → IsNumbered t p.recorder)
      → (t : ℕ)
      → (response : Option Frame) × (q : Pipeline) × (process_audio_frame commit key synthesize
            lower chat clock transcribe frame speech p
          ≡ some (response, q))
        × Continues q
        × IsNumbered t q.recorder
  unfolding process_audio_frame process_frame
  process_audio_frame-Continues frame true p active room h t =
      let (b, stored) = append-some frame p.audio_buffer (omega (arith, room)) in
      let (response, q, same, steps) =
        appended b (record p { vad = (process_frame true p.vad).1 }) p active done in
      (
        response,
        q,
        past_guard p.is_active _ _ active ∙ rw stored same,
        steps.continues,
        Reach-IsNumbered p.recorder q.recorder h steps.recorded t,
      )
  process_audio_frame-Continues frame false p active room h t =
      let (response, q, same, steps) =
        appended p.audio_buffer (record p { vad = (process_frame false p.vad).1 }) p active done in
      (
        response,
        q,
        past_guard p.is_active _ _ active ∙ same,
        steps.continues,
        Reach-IsNumbered p.recorder q.recorder h steps.recorded t,
      )
