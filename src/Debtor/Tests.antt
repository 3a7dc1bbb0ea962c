-- ===== src/Debtor/Tests.antt =====
-- A persona and a script with one prohibited phrase: the replies of the simulated debtor.
use cat_backend.Common.{
  ℕ, ◌≡◌, refl, [], ◌∷◌, Option, none, some, if◌then◌else◌, map, leb, ◌+◌, ◌&&◌, ◌==◌,
}
use cat_backend.Common.Words.{Text, codes, contains_text, split_from, strip_of, is_space}
use cat_backend.Definition.Contract.{ScriptContract}
use cat_backend.Debtor.Mood.{
  EmotionalState, Language, classify_agent_tone, AgentTone, detect_language,
  transition_emotional_state, resolve_state_change_direction, apply_directional_step,
}
use cat_backend.Debtor.Simulator.{
  PersonaContext, SimulatorResponse, Prompt, Role, generate_response,
}
use cat_backend.Debtor.Safe.{generate_response-IsAllowed, IsAllowed}

-- `str.lower` on ASCII.
abbrev lower : Text → Text
lower = map (λ c. if leb 65 c && leb c 90 then c + 32 else c)

abbrev persona : PersonaContext
persona = record {
  name = codes "Ana";
  communication_style = codes "anxious";
  emotional_state = EmotionalState.defensive;
  conversation_history = [];
  language = Language.en;
}

abbrev script : ScriptContract
script = record {
  debtor_persona = record {
    name = codes "Ana";
    communication_style = codes "anxious";
    background = codes "x";
  };
  financial_situation = record {
    outstanding_balance = 1;
    days_past_due = 0;
    reason_for_delinquency = codes "x";
  };
  opening_response = codes "Hello?";
  expected_replies = [];
  trigger_phrases = [];
  emotional_state_rules =
      record { trigger = codes " Empathetic "; state_change = codes "decrease_anxiety" } ∷ [];
  payment_conditions = [];
  escalation_conditions = [];
  prohibited_responses = codes "lawyer" ∷ [];
  conversation_goal = record { target_outcome = codes "paid"; completion_condition = codes "bye" };
}

-- The model names the lawyer once, then behaves.
abbrev chat : ℕ → Prompt → Option Text
chat attempt prompt =
    if attempt == 0 then some (codes "My LAWYER knows. ") else some (codes " Okay po. ")

tone_runs :
    classify_agent_tone lower (codes "I UNDERSTAND this is difficult") ≡ AgentTone.empathetic_tone
unfolding classify_agent_tone contains_text
tone_runs = refl

language_runs : detect_language lower (codes "Hindi ko po alam, sorry!") ≡ Language.tl
unfolding detect_language split_from strip_of is_space
language_runs = refl

state_runs :
    transition_emotional_state lower EmotionalState.defensive AgentTone.empathetic_tone
      script.emotional_state_rules none
    ≡ some EmotionalState.neutral
unfolding transition_emotional_state resolve_state_change_direction apply_directional_step strip_of
    is_space contains_text
state_runs = refl

generate_response-IsAllowed_example :
    (reply : SimulatorResponse) × (after : PersonaContext) × (generate_response lower chat persona
        (codes "Pay now!")
        (some script)
      ≡ some (reply, after))
    × IsAllowed lower (codes "lawyer" ∷ []) reply.text
    × (after.conversation_history
        ≡ record { role = Role.agent; content = codes "Pay now!" }
          ∷ record { role = Role.debtor; content = reply.text }
          ∷ [])
generate_response-IsAllowed_example =
    generate_response-IsAllowed lower chat persona (codes "Pay now!") (some script)
