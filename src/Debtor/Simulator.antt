-- ===== src/Debtor/Simulator.antt =====
-- `DebtorSimulatorService.generate_response` of app/services/debtor_simulator.py. The language model
-- is the parameter `chat`: its content at each attempt for a prompt, or `none` for whatever it
-- raises. A `Prompt` has what the messages to the model are rendered from.
use cat_backend.Common.{
  ℕ, ◌+◌, zero, suc, Bool, not, List, [], ◌∷◌, ◌++◌, Option, none, some, if◌then◌else◌, is_empty,
}
use cat_backend.Common.Words.{Text, strip}
use cat_backend.Definition.Contract.{ScriptContract, EmotionalStateRule}
use cat_backend.Debtor.Mood.{
  EmotionalState, Language, classify_agent_tone, transition_emotional_state, detect_language,
}
use cat_backend.Debtor.Phrases.{
  match_trigger_phrase, evaluate_escalation_conditions, match_payment_condition,
  contains_prohibited_response, select_safe_debtor_response,
}

pub data Role : Type 0 where
  agent debtor : Role

pub record Message : Type 0 where
  pub role : Role
  pub content : Text

pub record PersonaContext : Type 0 where
  pub name : Text
  pub communication_style : Text
  pub emotional_state : EmotionalState
  pub conversation_history : List Message
  pub language : Language

pub record SimulatorResponse : Type 0 where
  pub text : Text
  pub emotional_state : EmotionalState
  pub language : Language

-- The lines of `script_context`.
pub data Instruction : Type 0 where
  matched_escalation : Text → Instruction
  matched_trigger : Text → Instruction
  payment_condition : Text → Bool → Instruction
  escalation : Text → Instruction

pub record Prompt : Type 0 where
  pub persona : PersonaContext
  pub instructions : List Instruction
  pub message : Text

abbrev pub rules_of : Option ScriptContract → List EmotionalStateRule
rules_of none = []
rules_of (some script) = script.emotional_state_rules

abbrev pub prohibited_of : Option ScriptContract → List Text
prohibited_of none = []
prohibited_of (some script) = script.prohibited_responses

-- `range(_MAX_PROHIBITED_RESPONSE_RETRIES + 1)`
abbrev pub max_attempts : ℕ
max_attempts = 3

module _ (lower : Text → Text) where
  abbrev escalation_lines : Option (Text × Bool) → (Text → Instruction) → List Instruction
  escalation_lines none line = []
  escalation_lines (some (behavior, ends_call)) line =
      if not ends_call then line behavior ∷ [] else []

  abbrev trigger_lines : Option Text → List Instruction
  trigger_lines none = []
  trigger_lines (some behavior) = if is_empty behavior then [] else matched_trigger behavior ∷ []

  abbrev payment_lines : Option (Text × Bool) → List Instruction
  payment_lines none = []
  payment_lines (some (term, accepted)) = payment_condition term accepted ∷ []

  abbrev matched_lines : Option (Text × Bool) → List Instruction
  matched_lines none = []
  matched_lines (some (behavior, ends_call)) =
      if is_empty behavior
      then []
      else escalation_lines (some (behavior, ends_call)) matched_escalation

  abbrev pub script_context : Text → Option ScriptContract → List Instruction
  script_context message none = []
  script_context message (some script) =
      let escalated = evaluate_escalation_conditions lower message script.escalation_conditions in
      matched_lines escalated
      ++ trigger_lines (match_trigger_phrase lower message script.trigger_phrases)
      ++ payment_lines (match_payment_condition lower message script.payment_conditions)
      ++ escalation_lines escalated escalation

  module _ (chat : ℕ → Prompt → Option Text) where
    -- The loop over the attempts, its `else` and the `except`.
    abbrev pub attempt_from : ℕ → ℕ → Prompt → List Text → Text
    attempt_from zero attempt prompt prohibited = select_safe_debtor_response lower prohibited
    attempt_from (suc left) attempt prompt prohibited =
        let again = attempt_from left (attempt + 1) prompt prohibited in
        elim (chat attempt prompt) [
          | none ↦ select_safe_debtor_response lower prohibited
          | some content ↦
              let text = strip content in
              if is_empty text
              then select_safe_debtor_response lower prohibited
              else if not (contains_prohibited_response lower text prohibited)
              then text
              else again
        ]

    -- From the detection of the language on, in the state `new_state`.
    abbrev pub reply_in :
        EmotionalState
        → PersonaContext
        → Text
        → Option ScriptContract
        → SimulatorResponse × PersonaContext
    reply_in new_state persona message script =
        let detected = detect_language lower message in
        let heard : PersonaContext = record persona {
          emotional_state = new_state;
          language = detected;
        } in
        let prompt : Prompt = record {
          persona = heard;
          instructions = script_context message script;
          message = message;
        } in
        let text = attempt_from max_attempts 0 prompt (prohibited_of script) in
        (
          record { text = text; emotional_state = new_state; language = detected },
          record heard {
            conversation_history =
                persona.conversation_history
                ++ (record { role = agent; content = message }
                    ∷ record { role = debtor; content = text }
                    ∷ []);
          },
        )

    -- `none` is an exception before the model is called.
    unfoldable pub generate_response :
        PersonaContext → Text → Option ScriptContract → Option (SimulatorResponse × PersonaContext)
    generate_response persona message script =
        elim (transition_emotional_state lower persona.emotional_state
          (classify_agent_tone lower message) (rules_of script) none) [
            | none ↦ none
            | some new_state ↦ some (reply_in new_state persona message script)
          ]
