-- ===== src/Rubric/Recommendations.antt =====
-- `build_rubric_recommendations` of app/services/evaluation_compatibility.py. The three texts of a
-- recommendation are left out: they are redacted by regular expressions and replaced when empty, so
-- they never make the function fail.
mod Cited
pub mod Complete
pub mod Accepted
use cat_backend.Common.{
  ℕ, ◌-◌, String, Bool, not, ◌&&◌, ◌||◌, List, [], ◌∷◌, ◌++◌, map, Option, none, some,
  if◌then◌else◌, ltb, is_empty,
}
use cat_backend.Common.Eq.{◌==◌, elem, String-Eq, ℕ-Eq}
use cat_backend.Common.Dict.{lookup}
use cat_backend.Common.Sort.{sorted}
use cat_backend.Rubric.Content.{Criterion, Block, Content}
use cat_backend.Rubric.Findings.{
  Evidence, Finding, RecommendationInput, CategoryObservation, Speaker, evaluated, not_applicable,
}
use cat_backend.Rubric.Observation.Category.{finding_ids, cited, evidence_sequences, valid_criteria}
use cat_backend.Rubric.Observation.Validate.{blocks_by_id}
use cat_backend.Rubric.Score.{CategoryScore, CanonicalResult, text_leb}

-- `RubricRecommendation` without its texts, and the two scores that it is sorted by.
pub record Recommendation : Type 0 where
  pub rubric_block_id : String
  pub block_name : String
  pub criterion_id : String
  pub criterion_name : String
  pub display_order : ℕ
  pub evidence_sequence_number : ℕ
  pub source_speaker : Option Speaker
  pub source_excerpt : Option String
  pub gap : ℕ
  pub penalty_total : ℕ

-- What is raised: the function's own error, a `KeyError` for an unknown block, or the `ValueError`
-- of a minimum of nothing.
pub data Recommended (A : Type 0) : Type 0 where
  ok : A → Recommended A
  validation_error key_error value_error : Recommended A

abbrev pub findings_of : CategoryObservation → List Finding
findings_of c = c.strengths ++ c.violations

-- `{item.id: item for item in block.positive_behaviors + block.violations}`
abbrev pub criteria : Block → List (String × Criterion)
criteria b = map (λ i. (i.id, i)) (b.positive_behaviors ++ b.violations)

-- `next(evidence for ... if evidence.sequence_number == n)`
abbrev pub source_of : ℕ → List Evidence → Option Evidence
source_of n [] = none
source_of n (e ∷ es) = if e.sequence_number == n then some e else source_of n es

abbrev pub least : List ℕ → Option ℕ
least [] = none
least (n ∷ ns) = elim (least ns) [ none ↦ some n | some m ↦ if ltb m n then some m else some n ]

abbrev pub input : String → ℕ → String → RecommendationInput
input id sequence need = record {
  criterion_id = id;
  transcript_sequence_number = sequence;
  need = need;
}

-- An input for each violation, at the first moment that it cites.
abbrev pub violation_inputs : List Finding → List RecommendationInput
violation_inputs [] = []
violation_inputs (f ∷ fs) =
    let rest = violation_inputs fs in
    elim f.evidence_sequence_numbers [
      | [] ↦ rest
      | ◌∷◌ first others ↦ input f.criterion_id first f.explanation ∷ rest
    ]

-- `findings[criterion_id]`: the explanation of the last finding of a criterion.
abbrev pub explanation_of : String → List Finding → String
explanation_of id findings =
    elim (lookup id (map (λ f. (f.criterion_id, f.explanation)) findings)) [
      | none ↦ ""
      | some e ↦ e
    ]

-- An input for each failed criterion with findings, at the earliest moment that they cite; `none` is
-- a minimum of nothing.
abbrev pub failed_inputs : List Finding → List String → Option (List RecommendationInput)
failed_inputs findings [] = some []
failed_inputs findings (id ∷ ids) = elim (failed_inputs findings ids) [
  | none ↦ none
  | some rest ↦
      if not (elem id (finding_ids findings)) then some rest else elim (least (cited id findings)) [
        | none ↦ none
        | some first ↦ some (input id first (explanation_of id findings) ∷ rest)
      ]
]

unfoldable pub inputs_of : CategoryObservation → Option (List RecommendationInput)
inputs_of c =
    if not (is_empty c.recommendation_inputs)
    then some c.recommendation_inputs
    else elim (failed_inputs (findings_of c) c.failed_criteria) [
      | none ↦ none
      | some failed ↦ some (violation_inputs c.violations ++ failed)
    ]

abbrev pub gap_of : Block → Option ℕ → ℕ
gap_of b none = b.passing_score
gap_of b (some score) = b.passing_score - score

-- The three checks of an input; `criterion_evidence.get` finds a criterion that has findings.
abbrev pub input_ok : Block → CategoryObservation → RecommendationInput → Bool
input_ok b c r =
    elem r.criterion_id (valid_criteria b)
    && (if elem r.criterion_id (finding_ids (findings_of c))
        then elem r.transcript_sequence_number (cited r.criterion_id (findings_of c))
        else elem r.criterion_id c.failed_criteria
          && elem r.transcript_sequence_number (evidence_sequences c))

abbrev pub name_of : String → Block → String
name_of id b = elim (lookup id (criteria b)) [ none ↦ "" | some i ↦ i.name ]

abbrev pub recommendation : Block → CategoryScore → RecommendationInput → Recommendation
recommendation b s r =
    let source = source_of r.transcript_sequence_number s.observation.evidence in
    record {
      rubric_block_id = b.id;
      block_name = b.category;
      criterion_id = r.criterion_id;
      criterion_name = name_of r.criterion_id b;
      display_order = b.display_order;
      evidence_sequence_number = r.transcript_sequence_number;
      source_speaker = elim source [ none ↦ none | some e ↦ some e.speaker ];
      source_excerpt = elim source [ none ↦ none | some e ↦ some e.excerpt ];
      gap = gap_of b s.penalized_score;
      penalty_total = s.penalty_total;
    }

abbrev pub of_inputs :
    Block → CategoryScore → List RecommendationInput → Recommended (List Recommendation)
of_inputs b s [] = ok []
of_inputs b s (r ∷ rs) =
    let rest = of_inputs b s rs in
    if not (input_ok b s.observation r)
    then validation_error
    else elim rest [ ok out ↦ ok (recommendation b s r ∷ out) | failure ↦ failure ]

-- One round of the loop over the categories.
unfoldable pub of_category :
    List (String × Block) → CategoryScore → Recommended (List Recommendation)
unfolding inputs_of
of_category blocks s = elim (lookup s.rubric_block_id blocks) [
  | none ↦ key_error
  | some b ↦ elim (inputs_of s.observation) [ none ↦ value_error | some rs ↦ of_inputs b s rs ]
]

unfoldable pub candidates :
    List (String × Block) → List CategoryScore → Recommended (List Recommendation)
unfolding of_category
candidates blocks [] = ok []
candidates blocks (s ∷ ss) =
    let rest = candidates blocks ss in
    elim (of_category blocks s) [
      | ok out ↦ elim rest [ ok more ↦ ok (out ++ more) | failure ↦ failure ]
      | failure ↦ failure
    ]

-- The sort key: larger gaps, then larger penalties, then the block, the criterion and the moment.
abbrev pub by_priority : Recommendation → Recommendation → Bool
by_priority x y =
    if not (x.gap == y.gap)
    then ltb y.gap x.gap
    else if not (x.penalty_total == y.penalty_total)
    then ltb y.penalty_total x.penalty_total
    else if not (x.display_order == y.display_order)
    then ltb x.display_order y.display_order
    else if not (x.rubric_block_id == y.rubric_block_id)
    then text_leb x.rubric_block_id y.rubric_block_id
    else if not (x.criterion_id == y.criterion_id)
    then text_leb x.criterion_id y.criterion_id
    else not (ltb y.evidence_sequence_number x.evidence_sequence_number)

unfoldable pub build_rubric_recommendations :
    CanonicalResult → Content → Recommended (List Recommendation)
unfolding candidates sorted
build_rubric_recommendations result rubric = elim result.status [
  | not_applicable ↦ ok []
  | evaluated ↦ elim (candidates (blocks_by_id rubric) result.categories) [
    | ok found ↦ ok (sorted by_priority found)
    | failure ↦ failure
  ]
]
