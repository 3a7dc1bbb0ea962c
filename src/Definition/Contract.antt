-- ===== src/Definition/Contract.antt =====
-- The records of a validated script definition, `ScriptContract` of app/schemas/script.py.
use cat_backend.Common.{ℕ, Bool, List}
use cat_backend.Common.Words.{Text}

pub record TriggerPhraseEntry : Type 0 where
  pub phrase : Text
  pub behavior : Text

pub record ExpectedReplyEntry : Type 0 where
  pub agent_statement : Text
  pub debtor_reply : Text

pub record EmotionalStateRule : Type 0 where
  pub trigger : Text
  pub state_change : Text

pub record EscalationConditionEntry : Type 0 where
  pub condition : Text
  pub behavior : Text
  pub ends_call : Bool

pub record PaymentConditionEntry : Type 0 where
  pub condition : Text
  pub term : Text
  pub accepted : Bool

pub record DebtorPersona : Type 0 where
  pub name : Text
  pub communication_style : Text
  pub background : Text

-- The balance is counted in the smallest unit.
pub record FinancialSituation : Type 0 where
  pub outstanding_balance : ℕ
  pub days_past_due : ℕ
  pub reason_for_delinquency : Text

pub record ConversationGoal : Type 0 where
  pub target_outcome : Text
  pub completion_condition : Text

pub record ScriptContract : Type 0 where
  pub debtor_persona : DebtorPersona
  pub financial_situation : FinancialSituation
  pub opening_response : Text
  pub expected_replies : List ExpectedReplyEntry
  pub trigger_phrases : List TriggerPhraseEntry
  pub emotional_state_rules : List EmotionalStateRule
  pub payment_conditions : List PaymentConditionEntry
  pub escalation_conditions : List EscalationConditionEntry
  pub prohibited_responses : List Text
  pub conversation_goal : ConversationGoal
