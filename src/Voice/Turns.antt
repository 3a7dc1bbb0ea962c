-- ===== src/Voice/Turns.antt =====
-- One utterance of app/services/voice/voice_pipeline.py: what is recorded, and whether the call goes on.
use cat_backend.Common.{
  ℕ, ◌≡◌, refl, String, Bool, true, false, [], ◌∷◌, Option, none, some, ◌⊎◌, inl, inr, is_empty,
  Bool-cases, Option-cases,
}
use cat_backend.Common.Eq.{◌==◌, ℕ-Eq}
use cat_backend.Common.Words.{Text, strip}
use cat_backend.Definition.Contract.{ScriptContract}
use cat_backend.Debtor.Mood.{Language}
use cat_backend.Debtor.Phrases.{
  evaluate_escalation_conditions, evaluate_conversation_goal_completion,
}
use cat_backend.Debtor.Simulator.{PersonaContext, Prompt, SimulatorResponse, generate_response}
use cat_backend.Transcript.Retry.{Attempt}
use cat_backend.Transcript.Manager.{Recorder, append_entry}
use cat_backend.Transcript.Steps.{Reach, done, then_step, append_step, persist_step}
use cat_backend.Voice.Buffer.{Frame, flush}
use cat_backend.Voice.Pipeline.{
  Pipeline, call_end, record_entry, teardown, spoken, ended, generated, goal_reached, escalated,
  scripted, turn, heard, process_utterance,
}

abbrev pub Continues : Pipeline → Type 0
Continues p =
    (p.is_active ≡ true)
    ⊎ ((reason : Text) × (outcome : Option Text) × (p.is_active ≡ false)
        × (p.output_queue ≡ call_end reason outcome ∷ []))

-- From a state to one that is reached by transcript operations and in which the call goes on or is over.
pub record Proceeds (p q : Pipeline) : Type 0 where
  pub continues : Continues q
  pub recorded : Reach p.recorder q.recorder

record_entry-Reach :
    (speaker : String) (text : Text) (timestamp : ℕ) (p : Pipeline)
    → Reach p.recorder (record_entry speaker text timestamp p).recorder
record_entry-Reach speaker text timestamp p =
    elim (Option-cases (append_entry p.session_id speaker text timestamp p.recorder)) [
      | inl refused ↦ rw refused done
      | inr ((e, after), stored) ↦
          rw stored (then_step done (append_step p.session_id speaker text timestamp stored))
    ]

Reach-trans : (a b c : Recorder) → Reach a b → Reach b c → Reach a c
Reach-trans a b c r done = r
Reach-trans a b c r (then_step {b = m} before step) = then_step (Reach-trans a b m r before) step

module _ (commit : ℕ → Attempt Unit) (key : Text)
    (synthesize : Text → Language → Option Frame) where
  spoken-Proceeds :
      (sound : Option Frame) (p : Pipeline) (q : Pipeline)
      → p.is_active ≡ true
      → Reach q.recorder p.recorder
      → Proceeds q (spoken commit key synthesize sound p).1
  spoken-Proceeds none p q active r = record { continues = inl active; recorded = r }
  spoken-Proceeds (some sound) p q active r = record { continues = inl active; recorded = r }

  ended-Proceeds :
      (line reason : Text) (outcome : Option Text) (timestamp : ℕ) (p q : Pipeline)
      → Reach q.recorder p.recorder
      → Proceeds q (ended commit key synthesize line reason outcome timestamp p).1
  unfolding teardown
  ended-Proceeds line reason outcome timestamp p q r = record {
    continues = inr (reason, outcome, refl, refl);
    recorded =
        then_step (Reach-trans _ _ _ r (record_entry-Reach "debtor" line timestamp p))
          (persist_step commit key p.session_id);
  }

  module _ (lower : Text → Text) (chat : ℕ → Prompt → Option Text) (clock : ℕ → ℕ) where
    generated-Proceeds :
        (reply : Option (SimulatorResponse × PersonaContext)) (p q : Pipeline)
        → p.is_active ≡ true
        → Reach q.recorder p.recorder
        → Proceeds q (generated commit key synthesize lower chat clock reply p).1
    generated-Proceeds none p q active r = record { continues = inl active; recorded = r }
    generated-Proceeds (some (reply, after)) p q active r =
        spoken-Proceeds (synthesize (strip reply.text) reply.language) _ q active (
          Reach-trans _ _ _ r (
            record_entry-Reach "debtor" (strip reply.text) (clock 1)
              (record p { persona = after })))

    goal-Proceeds :
        (goal : Option Text) (agent_text : Text) (p q : Pipeline)
        → p.is_active ≡ true
        → Reach q.recorder p.recorder
        → Proceeds q (goal_reached commit key synthesize lower chat clock goal agent_text p).1
    goal-Proceeds none agent_text p q active r =
        generated-Proceeds (generate_response lower chat p.persona agent_text p.script_content) p q
          active r
    goal-Proceeds (some outcome) agent_text p q active r =
        ended-Proceeds _ outcome (some outcome) (clock 1) p q r

    escalated-Proceeds :
        (found : Option (Text × Bool)) (script : ScriptContract) (agent_text : Text)
        (p q : Pipeline)
        → p.is_active ≡ true
        → Reach q.recorder p.recorder
        → Proceeds q (escalated commit key synthesize lower chat clock found script agent_text p).1
    escalated-Proceeds none script agent_text p q active r =
        goal-Proceeds
          (evaluate_conversation_goal_completion lower agent_text script.conversation_goal)
          agent_text p q active r
    escalated-Proceeds (some (behavior, true)) script agent_text p q active r =
        ended-Proceeds behavior behavior none (clock 1) p q r
    escalated-Proceeds (some (behavior, false)) script agent_text p q active r =
        goal-Proceeds
          (evaluate_conversation_goal_completion lower agent_text script.conversation_goal)
          agent_text p q active r

    turn-Proceeds :
        (script : Option ScriptContract) (agent_text : Text) (p q : Pipeline)
        → p.is_active ≡ true
        → Reach q.recorder p.recorder
        → Proceeds q (turn commit key synthesize lower chat clock script agent_text p).1
    turn-Proceeds none agent_text p q active r =
        generated-Proceeds (generate_response lower chat p.persona agent_text p.script_content) p q
          active r
    turn-Proceeds (some script) agent_text p q active r =
        elim (Bool-cases (p.utterance_count == 0)) [
          | inl first ↦
              rw (turn, scripted, first)
                (spoken-Proceeds (synthesize script.opening_response Language.tl) _ q active (
                  Reach-trans _ _ _ r
                    (record_entry-Reach "debtor" script.opening_response (clock 1) p)))
          | inr later ↦
              rw (turn, scripted, later)
                (escalated-Proceeds
                  (evaluate_escalation_conditions lower agent_text script.escalation_conditions)
                  script agent_text p q active r)
        ]

    module _ (transcribe : Frame → Option Text) where
      heard-Proceeds :
          (text : Option Text) (p q : Pipeline)
          → p.is_active ≡ true
          → Reach q.recorder p.recorder
          → Proceeds q (heard commit key synthesize lower chat clock transcribe text p).1
      heard-Proceeds none p q active r = record { continues = inl active; recorded = r }
      heard-Proceeds (some text) p q active r = elim (Bool-cases (is_empty (strip text))) [
        | inl blank ↦ rw (heard, blank) (record { continues = inl active; recorded = r })
        | inr speaks ↦
            rw (heard, speaks)
              (turn-Proceeds p.script_content (strip text) _ q active
                (Reach-trans _ _ _ r (record_entry-Reach "agent" (strip text) (clock 0) p)))
      ]

      pub process_utterance-Proceeds :
          (p q : Pipeline)
          → p.is_active ≡ true
          → Reach q.recorder p.recorder
          → Proceeds q (process_utterance commit key synthesize lower chat clock transcribe p).1
      unfolding process_utterance
      process_utterance-Proceeds p q active r =
          elim (Bool-cases (is_empty (flush p.audio_buffer).0)) [
            | inl silent ↦ rw silent (record { continues = inl active; recorded = r })
            | inr sound ↦ rw sound (
                heard-Proceeds (transcribe (flush p.audio_buffer).0)
                  (record p { audio_buffer = (flush p.audio_buffer).1 }) q active r)
          ]
