-- ===== src/Rubric/Content.antt =====
-- app/schemas/negotiation_standard.py: the content of a negotiation rubric. Texts keep their value;
-- the length and pattern limits on them are not modelled. A percentage is a number that
-- `IsContent` bounds by 100, as `Percentage` does.
use cat_backend.Common.{ℕ, ◌≤◌, List, String, All}

-- `RubricCriterion` and `RubricViolation` declare the same four fields.
pub record Criterion : Type 0 where
  pub id : String
  pub name : String
  pub description : String
  pub evidence_instructions : String

pub record Penalty : Type 0 where
  pub violation_id : String
  pub deduction : ℕ
  pub max_occurrences : ℕ

pub record Block : Type 0 where
  pub id : String
  pub category : String
  pub weight : ℕ
  pub passing_score : ℕ
  pub scoring_instructions : String
  pub positive_behaviors : List Criterion
  pub violations : List Criterion
  pub penalties : List Penalty
  pub recommendation_guidance : String
  pub display_order : ℕ

pub record Content : Type 0 where
  pub schema_version : ℕ
  pub overall_passing_score : ℕ
  pub blocks : List Block

-- The `Percentage` fields: what pydantic has checked of any content that the services see.
pub record IsPenalty (p : Penalty) : Type 0 where
  pub deduction_le : p.deduction ≤ 100
  pub occurrences_le : p.max_occurrences ≤ 100

pub record IsBlock (b : Block) : Type 0 where
  pub weight_le : b.weight ≤ 100
  pub passing_le : b.passing_score ≤ 100
  pub penalties_ok : All IsPenalty b.penalties

pub record IsContent (c : Content) : Type 0 where
  pub version_pos : 1 ≤ c.schema_version
  pub passing_le : c.overall_passing_score ≤ 100
  pub blocks_ok : All IsBlock c.blocks
