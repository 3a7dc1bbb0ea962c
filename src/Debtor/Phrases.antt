-- ===== src/Debtor/Phrases.antt =====
-- What of a script applies to a turn: the matching functions of app/services/debtor_simulator.py.
-- A missing list and an empty one behave alike.
use cat_backend.Common.{
  Bool, ◌&&◌, not, List, [], ◌∷◌, map, Option, none, some, if◌then◌else◌, any, is_empty,
}
use cat_backend.Common.Words.{Text, codes, strip, contains_text}
use cat_backend.Definition.Contract.{
  TriggerPhraseEntry, EscalationConditionEntry, PaymentConditionEntry, ConversationGoal,
  ScriptContract,
}

abbrev pub select_opening_response : Option ScriptContract → Option Text
select_opening_response none = none
select_opening_response (some script) = some script.opening_response

abbrev pub safe_responses : List Text
safe_responses = map codes (
    "I'm not sure how to respond to that right now." ∷ "I need a moment to think about that."
    ∷ "I understand. Could you tell me more about the options?" ∷ [])

abbrev pub safe_default : Text
safe_default = codes "I'm not sure how to respond to that right now."

module _ (lower : Text → Text) where
  -- `phrase and phrase.lower() in message.lower()`
  abbrev pub occurs : Text → Text → Bool
  occurs phrase message = not (is_empty phrase) && contains_text (lower phrase) (lower message)

  -- The loop of the matchers: the first entry decides.
  abbrev first_match : {A : Type 0} → (A → Text) → Text → List A → Option A
  first_match phrase message [] = none
  first_match phrase message (entry ∷ entries) =
      let later = first_match phrase message entries in
      if occurs (phrase entry) message then some entry else later

  abbrev pub match_trigger_phrase : Text → List TriggerPhraseEntry → Option Text
  match_trigger_phrase message entries =
      elim (first_match (λ (e : TriggerPhraseEntry). e.phrase) message entries) [
        | none ↦ none
        | some e ↦ some e.behavior
      ]

  abbrev pub evaluate_escalation_conditions :
      Text → List EscalationConditionEntry → Option (Text × Bool)
  evaluate_escalation_conditions message entries =
      elim (first_match (λ (e : EscalationConditionEntry). e.condition) message entries) [
        | none ↦ none
        | some e ↦ some (e.behavior, e.ends_call)
      ]

  abbrev pub match_payment_condition : Text → List PaymentConditionEntry → Option (Text × Bool)
  match_payment_condition message entries =
      elim (first_match (λ (e : PaymentConditionEntry). e.condition) message entries) [
        | none ↦ none
        | some e ↦ some (e.term, e.accepted)
      ]

  abbrev pub evaluate_conversation_goal_completion : Text → ConversationGoal → Option Text
  evaluate_conversation_goal_completion message goal =
      if occurs goal.completion_condition message then some goal.target_outcome else none

  unfoldable pub contains_prohibited_response : Text → List Text → Bool
  contains_prohibited_response response prohibited =
      any (λ entry. occurs (strip entry) response) prohibited

  -- The loop of `_select_safe_debtor_response`.
  abbrev pub first_allowed : List Text → List Text → Text
  first_allowed [] prohibited = safe_default
  first_allowed (response ∷ responses) prohibited =
      let later = first_allowed responses prohibited in
      if not (contains_prohibited_response response prohibited) then response else later

  abbrev pub select_safe_debtor_response : List Text → Text
  select_safe_debtor_response prohibited = first_allowed safe_responses prohibited
