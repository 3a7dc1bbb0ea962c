-- ===== src/Voice/Tests.antt =====
-- Frames of one byte, a silence of two frames, and a call whose goal is reached.
use cat_backend.Common.{
  ℕ, ◌≤◌, ◌≡◌, refl, true, false, List, [], ◌∷◌, Option, none, some, inl, arith, length,
}
use cat_backend.Common.Words.{Text, codes}
use cat_backend.Definition.Contract.{ScriptContract}
use cat_backend.Debtor.Mood.{Language, EmotionalState}
use cat_backend.Transcript.Retry.{Attempt}
use cat_backend.Transcript.Manager.{started}
use cat_backend.Transcript.Numbering.{IsNumbered}
use cat_backend.Voice.Vad.{VadProcessor, is_speech_ended, reset}
use cat_backend.Voice.Detection.{fed, is_speech_ended-fed}
use cat_backend.Voice.Buffer.{AudioBuffer, Frame, flush}
use cat_backend.Voice.Window.{append_all, append_all-flush, fresh}
use cat_backend.Voice.Pipeline.{Pipeline, process_audio_frame}
use cat_backend.Voice.Turns.{Continues}
use cat_backend.Voice.Ends.{process_audio_frame-Continues}

abbrev detector : VadProcessor
detector = record { silence_threshold_ms = 40; silent_frames = 9; has_seen_speech = false }

is_speech_ended-fed_example :
    is_speech_ended (fed (false ∷ true ∷ false ∷ false ∷ []) (reset detector)) ≡ true
is_speech_ended-fed_example = is_speech_ended-fed (false ∷ true ∷ false ∷ false ∷ []) detector

abbrev three : List Frame
three = (1 ∷ []) ∷ (2 ∷ []) ∷ (3 ∷ []) ∷ []

append_all-flush_example :
    (c : AudioBuffer) × (append_all three (fresh 40) ≡ some c)
    × (c.frames ≡ (2 ∷ []) ∷ (3 ∷ []) ∷ [])
    × (length c.frames ≤ 2)
    × (flush c ≡ (2 ∷ 3 ∷ [], fresh 40))
append_all-flush_example = append_all-flush three 40 (omega arith)

abbrev script : ScriptContract
script = record {
  debtor_persona = record {
    name = codes "Ana";
    communication_style = codes "shy";
    background = codes "x";
  };
  financial_situation = record {
    outstanding_balance = 1;
    days_past_due = 0;
    reason_for_delinquency = codes "x";
  };
  opening_response = codes "Hi";
  expected_replies = [];
  trigger_phrases = [];
  emotional_state_rules = [];
  payment_conditions = [];
  escalation_conditions = [];
  prohibited_responses = [];
  conversation_goal = record {
    target_outcome = codes "paid";
    completion_condition = codes "thanks";
  };
}

-- The second utterance is about to end.
abbrev calling : Pipeline
calling = record {
  session_id = 7;
  is_active = true;
  is_processing = false;
  utterance_count = 1;
  persona = record {
    name = codes "Ana";
    communication_style = codes "shy";
    emotional_state = EmotionalState.neutral;
    conversation_history = [];
    language = Language.en;
  };
  script_content = some script;
  vad = record { silence_threshold_ms = 40; silent_frames = 1; has_seen_speech = true };
  audio_buffer = record { max_duration_ms = 40; frames = three };
  output_queue = [];
  recorder = started [];
}

abbrev as_is : Text → Text
as_is text = text

abbrev says_thanks : Frame → Option Text
says_thanks pcm = some (codes " ok thanks ")

calling-IsNumbered : (t : ℕ) → IsNumbered t (started [])
calling-IsNumbered t = record { counts = tt; owned = tt; next = inl refl }

process_audio_frame-Continues_example :
    (response : Option Frame) × (q : Pipeline) × (process_audio_frame
        (λ n. Attempt.returned tt)
        (codes "7")
        (λ text language. none)
        as_is
        (λ n prompt. none)
        (λ n. n)
        says_thanks
        (0 ∷ [])
        false
        calling
      ≡ some (response, q))
    × Continues q
    × IsNumbered 7 q.recorder
process_audio_frame-Continues_example =
    process_audio_frame-Continues (λ n. Attempt.returned tt) (codes "7") (λ text language. none)
      as_is (λ n prompt. none) (λ n. n) says_thanks (0 ∷ []) false calling refl (omega arith)
      calling-IsNumbered 7
