-- ===== src/Definition/Limits.antt =====
-- app/services/script_validator.py, with the conflict check of app/schemas/script.py. Parameters:
-- `casefold` of Python's strings, `parse` (JSON and YAML to a dict) and `fields`, pydantic's checks of
-- the fields of a contract. The texts of the messages are left out.
use cat_backend.Common.{
  ℕ, String, Bool, List, [], ◌∷◌, ◌++◌, map, Option, none, some, is_some, any, if◌then◌else◌,
  length, flat_map, ltb, is_empty, sum_of,
}
use cat_backend.Common.Eq.{Text-Eq}
use cat_backend.Common.Dict.{lookup}
use cat_backend.Common.Report.{enumerated}
use cat_backend.Common.Words.{Text, strip}
use cat_backend.Definition.Contract.{
  ScriptContract, ExpectedReplyEntry, TriggerPhraseEntry, EmotionalStateRule,
  EscalationConditionEntry, PaymentConditionEntry,
}

-- A part of a `loc`.
pub data Part : Type 0 where
  key : String → Part
  index : ℕ → Part

pub data LimitViolation : Type 0 where
  prohibited_expected : Text → Text → LimitViolation
  size_exceeded : ℕ → ℕ → LimitViolation
  count_exceeded : String → ℕ → ℕ → LimitViolation
  length_exceeded : List Part → ℕ → ℕ → LimitViolation

pub record ScriptLimits : Type 0 where
  pub max_definition_size_bytes : ℕ
  pub max_trigger_phrases : ℕ
  pub max_expected_replies : ℕ
  pub max_escalation_conditions : ℕ
  pub max_field_text_length : ℕ

-- The two texts of an entry of a list.
abbrev pair_of : String → ℕ → String → Text → String → Text → List (List Part × Text)
pair_of list i first a second b =
    (key list ∷ index i ∷ key first ∷ [], a) ∷ (key list ∷ index i ∷ key second ∷ [], b) ∷ []

abbrev pub reply_fields : ℕ → ExpectedReplyEntry → List (List Part × Text)
reply_fields i e =
    pair_of "expected_replies" i "agent_statement" e.agent_statement "debtor_reply" e.debtor_reply

abbrev pub trigger_fields : ℕ → TriggerPhraseEntry → List (List Part × Text)
trigger_fields i e = pair_of "trigger_phrases" i "phrase" e.phrase "behavior" e.behavior

abbrev pub rule_fields : ℕ → EmotionalStateRule → List (List Part × Text)
rule_fields i e =
    pair_of "emotional_state_rules" i "trigger" e.trigger "state_change" e.state_change

abbrev pub escalation_fields : ℕ → EscalationConditionEntry → List (List Part × Text)
escalation_fields i e =
    pair_of "escalation_conditions" i "condition" e.condition "behavior" e.behavior

abbrev pub payment_fields : ℕ → PaymentConditionEntry → List (List Part × Text)
payment_fields i e = pair_of "payment_conditions" i "condition" e.condition "term" e.term

abbrev pub prohibited_fields : ℕ → Text → List (List Part × Text)
prohibited_fields i text = (key "prohibited_responses" ∷ index i ∷ [], text) ∷ []

abbrev in_record : String → String → Text → List Part × Text
in_record outer inner text = (key outer ∷ key inner ∷ [], text)

abbrev pub single_fields : ScriptContract → List (List Part × Text)
single_fields c =
    in_record "debtor_persona" "name" c.debtor_persona.name
    ∷ in_record "debtor_persona" "communication_style" c.debtor_persona.communication_style
    ∷ in_record "debtor_persona" "background" c.debtor_persona.background
    ∷ in_record "financial_situation" "reason_for_delinquency"
        c.financial_situation.reason_for_delinquency
    ∷ (key "opening_response" ∷ [], c.opening_response)
    ∷ in_record "conversation_goal" "target_outcome" c.conversation_goal.target_outcome
    ∷ in_record "conversation_goal" "completion_condition" c.conversation_goal.completion_condition
    ∷ []

unfoldable pub free_text_fields : ScriptContract → List (List Part × Text)
free_text_fields c =
    single_fields c
    ++ (enumerated reply_fields 0 c.expected_replies
        ++ (enumerated trigger_fields 0 c.trigger_phrases
            ++ (enumerated rule_fields 0 c.emotional_state_rules
                ++ (enumerated escalation_fields 0 c.escalation_conditions
                    ++ (enumerated payment_fields 0 c.payment_conditions
                        ++ enumerated prohibited_fields 0 c.prohibited_responses)))))

abbrev pub check_size : ℕ → ScriptLimits → List LimitViolation
check_size size limits =
    if ltb limits.max_definition_size_bytes size
    then size_exceeded limits.max_definition_size_bytes size ∷ []
    else []

abbrev pub check_count : String → ℕ → ℕ → List LimitViolation
check_count field actual max = if ltb max actual then count_exceeded field max actual ∷ [] else []

abbrev pub check_length : ℕ → List Part × Text → List LimitViolation
check_length max (path, text) =
    if ltb max (length text) then length_exceeded path max (length text) ∷ [] else []

unfoldable pub validate_limits : ScriptContract → ℕ → ScriptLimits → List LimitViolation
validate_limits c size limits =
    check_size size limits
    ++ check_count "trigger_phrases" (length c.trigger_phrases) limits.max_trigger_phrases
    ++ check_count "expected_replies" (length c.expected_replies) limits.max_expected_replies
    ++ check_count "escalation_conditions" (length c.escalation_conditions)
        limits.max_escalation_conditions
    ++ flat_map (check_length limits.max_field_text_length) (free_text_fields c)

-- `len(raw_text.encode("utf-8"))`
abbrev utf8_length : ℕ → ℕ
utf8_length c = if ltb c 128 then 1 else if ltb c 2048 then 2 else if ltb c 65536 then 3 else 4

abbrev pub encoded_size : Text → ℕ
encoded_size = sum_of utf8_length

-- `field_errors` is pydantic's own report of the fields.
pub data ValidationFailure : Type 0 where
  format_error : ValidationFailure
  field_errors : ValidationFailure
  violations : List LimitViolation → ValidationFailure

pub data Outcome : Type 0 where
  ok : ScriptContract → Outcome
  err : ValidationFailure → Outcome

-- What `validate_contract_structure` raises or returns; a conflict is found with all fields valid.
pub data Structure : Type 0 where
  built : ScriptContract → Structure
  conflict_only : ScriptContract → Structure
  invalid : Structure

module _ (casefold : Text → Text) where
  abbrev pub folded : Text → Text
  folded text = casefold (strip text)

  abbrev pub expected_replies_normalized : List ExpectedReplyEntry → List (Text × Text)
  expected_replies_normalized = map (λ e. (folded e.debtor_reply, e.debtor_reply))

  abbrev pub conflict_of : List (Text × Text) → Text → List (Text × Text)
  conflict_of replies prohibited = elim (lookup (folded prohibited) replies) [
    | none ↦ []
    | some expected ↦ (expected, prohibited) ∷ []
  ]

  unfoldable pub validate_conflicts : ScriptContract → List (Text × Text)
  validate_conflicts c =
      flat_map (conflict_of (expected_replies_normalized c.expected_replies)) c.prohibited_responses

  -- The model validator of the schema, after pydantic's fields.
  abbrev pub conflicts_in_schema : ScriptContract → Bool
  conflicts_in_schema c =
      any (λ p. is_some (lookup (folded p) (expected_replies_normalized c.expected_replies)))
        c.prohibited_responses

  -- The conflicts and the limits of a contract, reported together.
  abbrev pub checked : ScriptContract → Text → ScriptLimits → Outcome
  checked c raw limits =
      let combined =
        map (λ p. prohibited_expected p.0 p.1) (validate_conflicts c)
        ++ validate_limits c (encoded_size raw) limits in
      if is_empty combined then ok c else err (violations combined)

  module _ {Data : Type 0} (parse : String → Text → Option Data)
      (fields : Data → Option ScriptContract) where
    abbrev pub validate_contract_structure : Data → Structure
    validate_contract_structure entries = elim (fields entries) [
      | none ↦ invalid
      | some c ↦ if conflicts_in_schema c then conflict_only c else built c
    ]

    -- After a failure by conflict alone the contract is built again without the prohibited responses,
    -- which are then put back: that is the contract of `conflict_only`.
    unfoldable pub validate_script : Text → String → ScriptLimits → Outcome
    validate_script raw format limits = elim (parse format raw) [
      | none ↦ err format_error
      | some entries ↦ elim (validate_contract_structure entries) [
        | invalid ↦ err field_errors
        | conflict_only c ↦ checked c raw limits
        | built c ↦ checked c raw limits
      ]
    ]
