-- ===== src/Rubric/Tests.antt =====
-- A rubric of one block, a call of one sentence and a report of it: the properties of the rubric
-- modules at work on them. Case folding is the identity, and no issue comes before another.
use cat_backend.Common.{
  ◌+◌, ◌≤◌, ◌≡◌, ◌↔◌, refl, String, Bool, true, List, [], ◌∷◌, none, some, arith, sum_of, All, ◌*◌,
}
use cat_backend.Common.Eq.{distinct, ℕ-Eq}
use cat_backend.Common.Words.{contains_text, normalize}
use cat_backend.Rubric.Content.{Criterion, Block, Content, IsContent}
use cat_backend.Rubric.Validator.{
  validate_standard, block_ids, categories, display_orders, all_criterion_ids, all_violation_ids,
}
use cat_backend.Rubric.Validator.Spec.{IsPublishable}
use cat_backend.Rubric.Validator.Laws.{validate_standard_iff}
use cat_backend.Rubric.Findings.{
  Finding, CategoryObservation, AiObservation, agent, evaluated, IsCategory,
}
use cat_backend.Rubric.Observation.{Entry, Outcome, indexed}
use cat_backend.Rubric.Observation.Validate.{
  ValidatedObservation, validate_observation, blocks_by_id,
}
use cat_backend.Rubric.Observation.Grounded.{IsGrounded}
use cat_backend.Rubric.Observation.Exact.{stored, validate_observation_iff}
use cat_backend.Rubric.Score.{
  CanonicalResult, ok, calculate_rubric_score, one, conclude, score_category, resolve, penalized,
}
use cat_backend.Rubric.Score.Total.{accepted_report_scored}
use cat_backend.Rubric.Score.Fair.{
  earned, Reaches, weighted_total_exact, passed_iff, violation_never_helps,
}
use cat_backend.Rubric.Recommendations.{Recommendation, Recommended, build_rubric_recommendations}
use cat_backend.Rubric.Recommendations.Accepted.{accepted_report_recommended}

abbrev fold : String → String
fold s = s

abbrev any_order : {A : Type 0} → A → A → Bool
any_order a b = true

abbrev criterion : String → Criterion
criterion id = record {
  id = id;
  name = id;
  description = "what to do";
  evidence_instructions = "quote it";
}

abbrev rubric_block : Block
rubric_block = record {
  id = "opening";
  category = "Opening";
  weight = 100;
  passing_score = 60;
  scoring_instructions = "score it";
  positive_behaviors = criterion "greets" ∷ [];
  violations = criterion "threatens" ∷ [];
  penalties = record { violation_id = "threatens"; deduction = 15; max_occurrences = 2 } ∷ [];
  recommendation_guidance = "stay calm";
  display_order = 1;
}

abbrev pub rubric : Content
rubric = record { schema_version = 1; overall_passing_score = 60; blocks = rubric_block ∷ [] }

abbrev entries : List Entry
entries =
    record {
      sequence_number = some 4;
      speaker = some "agent";
      text = some "Good day,  how are you?";
      utterance_text = none;
    }
    ∷ []

abbrev finding : String → Finding
finding id = record {
  criterion_id = id;
  explanation = "said so";
  evidence_sequence_numbers = 4 ∷ [];
}

abbrev category : CategoryObservation
category = record {
  rubric_block_id = "opening";
  raw_score = some 80;
  evidence =
      record {
        sequence_number = 4;
        speaker = agent;
        excerpt = "day, how";
        explanation = "a greeting";
      }
      ∷ [];
  strengths = finding "greets" ∷ [];
  violations = finding "threatens" ∷ [];
  failed_criteria = "threatens" ∷ [];
  recommendation_inputs =
      record { criterion_id = "threatens"; transcript_sequence_number = 4; need = "calm" } ∷ [];
}

abbrev report : AiObservation
report = record {
  status = evaluated;
  summary = "fair";
  categories = category ∷ [];
  techniques_used = [];
  missed_techniques = [];
}

abbrev accepted : ValidatedObservation
accepted = record { observation = report; snapshot = rubric; transcript = entries }

rubric_accepted : (validate_standard fold any_order rubric true).valid ≡ true
unfolding validate_standard block_ids categories display_orders all_criterion_ids all_violation_ids
rubric_accepted = refl

rubric-IsPublishable : IsPublishable fold rubric
rubric-IsPublishable = (validate_standard_iff fold any_order rubric true).0 rubric_accepted

rubric-IsContent : IsContent rubric
rubric-IsContent = record {
  version_pos = omega arith;
  passing_le = omega arith;
  blocks_ok = (
    record {
      weight_le = omega arith;
      passing_le = omega arith;
      penalties_ok = (record { deduction_le = omega arith; occurrences_le = omega arith }, tt);
    },
    tt,
  );
}

category-IsCategory : All IsCategory (category ∷ [])
category-IsCategory = (
  record { score_le = omega arith; strengths_cite = (refl, tt); violations_cite = (refl, tt) },
  tt,
)

report_accepted : validate_observation fold any_order report rubric entries ≡ Outcome.ok accepted
unfolding validate_observation contains_text normalize
report_accepted = refl

abbrev result : CanonicalResult
result = conclude report rubric (score_category (category, rubric_block) ∷ [])

validate_standard_iff_example :
    ((validate_standard fold any_order rubric true).valid ≡ true) ↔ IsPublishable fold rubric
validate_standard_iff_example = validate_standard_iff fold any_order rubric true

validate_observation_iff_example :
    (validate_observation fold any_order report rubric entries ≡ Outcome.ok accepted)
    ↔ ((distinct (stored entries) ≡ true) × IsGrounded fold rubric (indexed 0 entries) report)
validate_observation_iff_example = validate_observation_iff fold any_order report rubric entries

accepted_report_scored_example :
    (r : CanonicalResult) × (calculate_rubric_score accepted ≡ ok r)
    × (r.weighted_total ≤ 100 * one)
accepted_report_scored_example =
    accepted_report_scored fold any_order report rubric entries rubric-IsContent
      rubric-IsPublishable category-IsCategory report_accepted

category_resolved :
    resolve (blocks_by_id rubric) (category ∷ []) ≡ some ((category, rubric_block) ∷ [])
unfolding resolve
category_resolved = refl

report_scored : calculate_rubric_score accepted ≡ ok result
unfolding calculate_rubric_score
report_scored = refl

weighted_total_exact_example :
    result.weighted_total ≡ sum_of earned ((category, rubric_block) ∷ []) * 100
weighted_total_exact_example = weighted_total_exact accepted category_resolved report_scored

passed_iff_example : (result.passed ≡ true) ↔ (
    (evaluated ≡ evaluated)
    × (60 * 100 ≤ sum_of earned ((category, rubric_block) ∷ []))
    × All Reaches ((category, rubric_block) ∷ []))
passed_iff_example = passed_iff accepted category_resolved report_scored

violation_never_helps_example :
    (penalized 80
        (record category { violations = finding "threatens" ∷ category.violations })
        rubric_block
      ≤ penalized 80 category rubric_block)
    × (80
        ≤ penalized 80 category rubric_block
          + sum_of (λ p. p.max_occurrences * p.deduction) rubric_block.penalties)
violation_never_helps_example = violation_never_helps 80 category rubric_block (finding "threatens")

accepted_report_recommended_example :
    (out : List Recommendation) × (build_rubric_recommendations result rubric ≡ Recommended.ok out)
accepted_report_recommended_example =
    accepted_report_recommended fold any_order report rubric entries category-IsCategory
      report_accepted report_scored
