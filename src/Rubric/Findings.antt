-- ===== src/Rubric/Findings.antt =====
-- app/schemas/rubric_evaluation.py: what the language model reports of a call, and the validators
-- that run when such a report is built. `casefold` is Python's.
use cat_backend.Common.{
  ℕ, ◌≤◌, ◌≡◌, String, Bool, false, not, List, map, Option, none, some, is_some, any, All, is_empty,
  if◌then◌else◌,
}
use cat_backend.Common.Eq.{elem, distinct, String-Eq}

pub data Speaker : Type 0 where
  agent debtor : Speaker

pub data Status : Type 0 where
  evaluated not_applicable : Status

pub data ExecutionType : Type 0 where
  executed_properly weak_execution misapplied : ExecutionType

pub record Evidence : Type 0 where
  pub sequence_number : ℕ
  pub speaker : Speaker
  pub excerpt : String
  pub explanation : String

-- `RubricStrength`, with `criterion_id`, and `RubricViolation`, with `violation_id`.
pub record Finding : Type 0 where
  pub criterion_id : String
  pub explanation : String
  pub evidence_sequence_numbers : List ℕ

pub record RecommendationInput : Type 0 where
  pub criterion_id : String
  pub transcript_sequence_number : ℕ
  pub need : String

pub record CategoryObservation : Type 0 where
  pub rubric_block_id : String
  pub raw_score : Option ℕ
  pub evidence : List Evidence
  pub strengths : List Finding
  pub violations : List Finding
  pub failed_criteria : List String
  pub recommendation_inputs : List RecommendationInput

pub record AppliedTechnique : Type 0 where
  pub technique_name : String
  pub execution_type : ExecutionType
  pub execution_description : String
  pub evidence_sequence_numbers : List ℕ

pub record MissedOpportunity : Type 0 where
  pub technique_name : String
  pub reason : String

pub record AiObservation : Type 0 where
  pub status : Status
  pub summary : String
  pub categories : List CategoryObservation
  pub techniques_used : List AppliedTechnique
  pub missed_techniques : List MissedOpportunity

pub data ObservationError : Type 0 where
  score_required score_forbidden applied_not_unique missed_not_unique not_disjoint :
      ObservationError

abbrev pub has_no_score : CategoryObservation → Bool
has_no_score c = not (is_some c.raw_score)

abbrev pub has_score : CategoryObservation → Bool
has_score c = is_some c.raw_score

-- `require_not_applicable_scores`; `none` is a report that passes.
unfoldable pub require_not_applicable_scores : AiObservation → Option ObservationError
require_not_applicable_scores o = elim o.status [
  | evaluated ↦ if any has_no_score o.categories then some score_required else none
  | not_applicable ↦ if any has_score o.categories then some score_forbidden else none
]

module _ (casefold : String → String) where
  abbrev pub applied_names : AiObservation → List String
  applied_names o = map (λ t. casefold t.technique_name) o.techniques_used

  abbrev pub missed_names : AiObservation → List String
  missed_names o = map (λ t. casefold t.technique_name) o.missed_techniques

  -- `enforce_technique_disjointness`
  unfoldable pub enforce_technique_disjointness : AiObservation → Option ObservationError
  enforce_technique_disjointness o =
      if not (distinct (applied_names o))
      then some applied_not_unique
      else if not (distinct (missed_names o))
      then some missed_not_unique
      else if any (λ n. elem n (missed_names o)) (applied_names o)
      then some not_disjoint
      else none

-- The field limits that pydantic has checked: scores up to 100, and findings that cite evidence.
abbrev pub IsScore : Option ℕ → Type 0
IsScore none = Unit
IsScore (some s) = s ≤ 100

pub record IsCategory (c : CategoryObservation) : Type 0 where
  pub score_le : IsScore c.raw_score
  pub strengths_cite : All (λ f. is_empty f.evidence_sequence_numbers ≡ false) c.strengths
  pub violations_cite : All (λ f. is_empty f.evidence_sequence_numbers ≡ false) c.violations
