-- ===== src/Definition/Fitting.antt =====
-- The limits of app/services/script_validator.py on the size and the texts of a definition.
use cat_backend.Common.{ℕ, ◌≤◌, String, List, ◌↔◌, length, flat_map, All, arith}
use cat_backend.Common.Eq.{Text-Eq}
use cat_backend.Common.Report.{
  Decides, Decides-append, Decides-flat_map, All-enumerated_iff, All-append_iff, enumerated,
}
use cat_backend.Common.Words.{Text}
use cat_backend.Definition.Contract.{
  ScriptContract, ExpectedReplyEntry, TriggerPhraseEntry, EmotionalStateRule,
  EscalationConditionEntry, PaymentConditionEntry,
}
use cat_backend.Definition.Limits.{
  Part, ScriptLimits, single_fields, reply_fields, trigger_fields, rule_fields, escalation_fields,
  payment_fields, prohibited_fields, free_text_fields, check_size, check_count, check_length,
  validate_limits,
}

module _ (n : ℕ) where
  abbrev pub Fits : Text → Type 0
  Fits text = length text ≤ n

  abbrev pub SinglesFit : ScriptContract → Type 0
  SinglesFit c =
      Fits c.debtor_persona.name
      × Fits c.debtor_persona.communication_style
      × Fits c.debtor_persona.background
      × Fits c.financial_situation.reason_for_delinquency
      × Fits c.opening_response
      × Fits c.conversation_goal.target_outcome
      × Fits c.conversation_goal.completion_condition

  abbrev pub ReplyFits : ExpectedReplyEntry → Type 0
  ReplyFits e = Fits e.agent_statement × Fits e.debtor_reply

  abbrev pub TriggerFits : TriggerPhraseEntry → Type 0
  TriggerFits e = Fits e.phrase × Fits e.behavior

  abbrev pub RuleFits : EmotionalStateRule → Type 0
  RuleFits e = Fits e.trigger × Fits e.state_change

  abbrev pub EscalationFits : EscalationConditionEntry → Type 0
  EscalationFits e = Fits e.condition × Fits e.behavior

  abbrev pub PaymentFits : PaymentConditionEntry → Type 0
  PaymentFits e = Fits e.condition × Fits e.term

  abbrev pub AllFit : ScriptContract → Type 0
  AllFit c =
      SinglesFit c
      × (All ReplyFits c.expected_replies
          × (All TriggerFits c.trigger_phrases
              × (All RuleFits c.emotional_state_rules
                  × (All EscalationFits c.escalation_conditions
                      × (All PaymentFits c.payment_conditions × All Fits c.prohibited_responses)))))

  FieldFits : List Part × Text → Type 0
  FieldFits f = Fits f.1

  singles_fit : (c : ScriptContract) → All FieldFits (single_fields c) ↔ SinglesFit c
  unfolding FieldFits
  singles_fit c = (
    λ (a, (b, (d, (e, (f, (g, (h, _))))))). (a, b, d, e, f, g, h),
    λ (a, b, d, e, f, g, h). (a, (b, (d, (e, (f, (g, (h, tt))))))),
  )

  free_text_fields_fit : (c : ScriptContract) → All FieldFits (free_text_fields c) ↔ AllFit c
  unfolding free_text_fields FieldFits
  free_text_fields_fit c = All-append_iff FieldFits (single_fields c) _ (singles_fit c) (
      All-append_iff FieldFits (enumerated reply_fields 0 c.expected_replies) _
        (All-enumerated_iff FieldFits ReplyFits reply_fields
          (λ i e. (λ h. (h.0, h.1.0), λ h. (h.0, (h.1, tt)))) 0 c.expected_replies)
        (All-append_iff FieldFits (enumerated trigger_fields 0 c.trigger_phrases) _
          (All-enumerated_iff FieldFits TriggerFits trigger_fields
            (λ i e. (λ h. (h.0, h.1.0), λ h. (h.0, (h.1, tt)))) 0 c.trigger_phrases)
          (All-append_iff FieldFits (enumerated rule_fields 0 c.emotional_state_rules) _
            (All-enumerated_iff FieldFits RuleFits rule_fields
              (λ i e. (λ h. (h.0, h.1.0), λ h. (h.0, (h.1, tt)))) 0 c.emotional_state_rules)
            (All-append_iff FieldFits (enumerated escalation_fields 0 c.escalation_conditions) _
              (All-enumerated_iff FieldFits EscalationFits escalation_fields
                (λ i e. (λ h. (h.0, h.1.0), λ h. (h.0, (h.1, tt)))) 0 c.escalation_conditions)
              (All-append_iff FieldFits (enumerated payment_fields 0 c.payment_conditions) _
                (All-enumerated_iff FieldFits PaymentFits payment_fields
                  (λ i e. (λ h. (h.0, h.1.0), λ h. (h.0, (h.1, tt)))) 0 c.payment_conditions)
                (All-enumerated_iff FieldFits Fits prohibited_fields
                  (λ i e. (λ h. h.0, λ h. (h, tt))) 0 c.prohibited_responses))))))

  check_length_decides : (f : List Part × Text) → Decides (check_length n f) (FieldFits f)
  unfolding FieldFits
  check_length_decides f = (λ h. ground arith, λ h. ground arith)

  lengths_decided :
      (c : ScriptContract) → Decides (flat_map (check_length n) (free_text_fields c)) (AllFit c)
  lengths_decided c =
      let found =
        Decides-flat_map FieldFits (check_length n) check_length_decides (free_text_fields c) in
      let fit = free_text_fields_fit c in (λ h. fit.0 (found.0 h), λ h. found.1 (fit.1 h))

-- The limits on the size, on the numbers of entries and on the texts.
abbrev pub IsWithin : ScriptLimits → ℕ → ScriptContract → Type 0
IsWithin limits size c =
    (((size ≤ limits.max_definition_size_bytes
          × length c.trigger_phrases ≤ limits.max_trigger_phrases)
        × length c.expected_replies ≤ limits.max_expected_replies)
      × length c.escalation_conditions ≤ limits.max_escalation_conditions)
    × AllFit limits.max_field_text_length c

count_decided :
    (field : String) (actual max : ℕ) → Decides (check_count field actual max) (actual ≤ max)
count_decided field actual max = (λ h. ground arith, λ h. ground arith)

size_decided :
    (size : ℕ) (limits : ScriptLimits)
    → Decides (check_size size limits) (size ≤ limits.max_definition_size_bytes)
size_decided size limits = (λ h. ground arith, λ h. ground arith)

pub limits_decided :
    (c : ScriptContract) (size : ℕ) (limits : ScriptLimits)
    → Decides (validate_limits c size limits) (IsWithin limits size c)
unfolding validate_limits
limits_decided c size limits =
    Decides-append _ _
      (Decides-append _ _
        (Decides-append _ _ (Decides-append _ _ (size_decided size limits) (count_decided _ _ _))
          (count_decided _ _ _))
        (count_decided _ _ _))
      (lengths_decided limits.max_field_text_length c)
