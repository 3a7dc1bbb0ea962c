-- ===== src/Definition/Tests.antt =====
-- A small definition within its limits, and one that repeats an expected reply.
use cat_backend.Common.{◌≡◌, refl, String, List, [], ◌∷◌, Option, some, arith, inl, inr}
use cat_backend.Common.Words.{Text, codes, strip_of, is_space}
use cat_backend.Definition.Contract.{ScriptContract}
use cat_backend.Definition.Limits.{
  ScriptLimits, validate_script, validate_conflicts, validate_limits, free_text_fields, Outcome,
  ValidationFailure, LimitViolation,
}
use cat_backend.Definition.Exact.{validate_script_iff}

abbrev definition : List Text → ScriptContract
definition prohibited = record {
  debtor_persona = record {
    name = codes "Ana";
    communication_style = codes "shy";
    background = codes "x";
  };
  financial_situation = record {
    outstanding_balance = 1;
    days_past_due = 0;
    reason_for_delinquency = codes "x";
  };
  opening_response = codes "Hi";
  expected_replies = record { agent_statement = codes "Pay"; debtor_reply = codes "no" } ∷ [];
  trigger_phrases = [];
  emotional_state_rules = [];
  payment_conditions = [];
  escalation_conditions = [];
  prohibited_responses = prohibited;
  conversation_goal = record { target_outcome = codes "ok"; completion_condition = codes "bye" };
}

abbrev limits : ScriptLimits
limits = record {
  max_definition_size_bytes = 4;
  max_trigger_phrases = 1;
  max_expected_replies = 1;
  max_escalation_conditions = 1;
  max_field_text_length = 3;
}

abbrev as_is : Text → Text
as_is text = text

abbrev parsed : List Text → String → Text → Option ScriptContract
parsed prohibited format raw = some (definition prohibited)

validate_script_iff_example :
    validate_script as_is (parsed (codes "yes" ∷ [])) some (codes "{}") "json" limits
    ≡ Outcome.ok (definition (codes "yes" ∷ []))
unfolding strip_of is_space
validate_script_iff_example =
    (validate_script_iff as_is (parsed (codes "yes" ∷ [])) some (codes "{}") "json" limits
        (definition (codes "yes" ∷ []))).1
      (
        definition (codes "yes" ∷ []),
        refl,
        refl,
        ((λ m. elim m [ inl same ↦ absurd (cc same) | inr later ↦ later ], tt), ground arith),
      )

refused :
    validate_script as_is (parsed (codes " no" ∷ [])) some (codes "{}") "json" limits
    ≡ Outcome.err (
        ValidationFailure.violations
          (LimitViolation.prohibited_expected (codes "no") (codes " no") ∷ []))
unfolding validate_script validate_conflicts validate_limits free_text_fields strip_of is_space
refused = refl
