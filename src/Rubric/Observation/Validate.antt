-- ===== src/Rubric/Observation/Validate.antt =====
-- `validate_observation` as a whole. `casefold` is Python's; `issue_le` is the order of the
-- rendered (path, code, message).
use cat_backend.Common.{
  ℕ, String, Bool, not, List, [], ◌∷◌, ◌++◌, map, flat_map, none, some, is_empty, if◌then◌else◌,
}
use cat_backend.Common.Eq.{elem, distinct, String-Eq, ℕ-Eq}
use cat_backend.Common.Dict.{lookup}
use cat_backend.Common.Sort.{sorted}
use cat_backend.Common.Report.{enumerated}
use cat_backend.Rubric.Content.{Block, Content}
use cat_backend.Rubric.Findings.{
  CategoryObservation, AppliedTechnique, MissedOpportunity, AiObservation,
}
use cat_backend.Rubric.Observation.{
  Entry, Issue, issue_if, issue, Outcome, ok, observation_error, required, duplicate,
  unknown_reference, categories, technique_name, technique_sequence, missed_name, exactly_once,
  missing_category, unknown_block, technique_not_declared, no_such_sequence, transcript_index,
}
use cat_backend.Rubric.Observation.Category.{category_errors, sequences}

-- `blocks = {block.id: block for block in rubric.blocks}`
abbrev pub blocks_by_id : Content → List (String × Block)
blocks_by_id c = map (λ b. (b.id, b)) c.blocks

abbrev pub block_ids : Content → List String
block_ids c = map (λ b. b.id) c.blocks

abbrev pub category_ids : AiObservation → List String
category_ids o = map (λ c. c.rubric_block_id) o.categories

abbrev pub dedup : List String → List String → List String
dedup seen [] = []
dedup seen (x ∷ xs) = (if elem x seen then [] else x ∷ []) ++ dedup (x ∷ seen) xs

-- The items of a set difference `left - right`, with an issue for each.
abbrev pub difference_errors : (String → Issue) → List String → List String → List Issue
difference_errors report left right =
    flat_map (λ id. if elem id right then [] else report id ∷ []) (dedup [] left)

-- Every block is reported exactly once, and nothing else is.
unfoldable pub coverage_errors : Content → AiObservation → List Issue
coverage_errors rubric o =
    issue_if (not (distinct (category_ids o))) duplicate categories exactly_once
    ++ (difference_errors (λ id. issue required categories (missing_category id)) (block_ids rubric)
          (category_ids o)
        ++ difference_errors (λ id. issue unknown_reference categories (unknown_block id))
            (category_ids o) (block_ids rubric))

-- One round of the loop over the categories; a category with an unknown block is skipped.
unfoldable pub category_round :
    List (ℕ × Entry) → List (String × Block) → ℕ → CategoryObservation → List Issue
unfolding category_errors
category_round by_sequence blocks index c = elim (lookup c.rubric_block_id blocks) [
  | none ↦ []
  | some b ↦ category_errors by_sequence index b c
]

unfoldable pub technique_sequence_errors : List ℕ → ℕ → List ℕ → List Issue
technique_sequence_errors spoken ti =
    enumerated
      (λ index s.
        issue_if (not (elem s spoken)) unknown_reference (technique_sequence ti index)
          no_such_sequence)
      0

-- `ValidatedObservation`
pub record ValidatedObservation : Type 0 where
  pub observation : AiObservation
  pub snapshot : Content
  pub transcript : List Entry

module _ (casefold : String → String) where
  abbrev pub valid_technique_names : Content → List String
  valid_technique_names c =
      flat_map (λ b. map (λ i. casefold i.name) (b.positive_behaviors ++ b.violations)) c.blocks

  unfoldable pub technique_error : List String → List ℕ → ℕ → AppliedTechnique → List Issue
  unfolding technique_sequence_errors
  technique_error names spoken index t =
      issue_if (not (elem (casefold t.technique_name) names)) unknown_reference
        (technique_name index) technique_not_declared
      ++ technique_sequence_errors spoken index t.evidence_sequence_numbers

  unfoldable pub missed_error : List String → ℕ → MissedOpportunity → List Issue
  missed_error names index m =
      issue_if (not (elem (casefold m.technique_name) names)) unknown_reference (missed_name index)
        technique_not_declared

  unfoldable pub observation_errors : Content → List (ℕ × Entry) → AiObservation → List Issue
  unfolding coverage_errors category_round technique_error missed_error
  observation_errors rubric by_sequence o =
      coverage_errors rubric o
      ++ (enumerated (category_round by_sequence (blocks_by_id rubric)) 0 o.categories
          ++ (enumerated (technique_error (valid_technique_names rubric) (sequences by_sequence)) 0
                o.techniques_used
              ++ enumerated (missed_error (valid_technique_names rubric)) 0 o.missed_techniques))

  module _ (issue_le : Issue → Issue → Bool) where
    unfoldable pub validate_observation :
        AiObservation → Content → List Entry → Outcome ValidatedObservation
    unfolding transcript_index observation_errors sorted
    validate_observation o rubric transcript = elim (transcript_index transcript) [
      | observation_error errors ↦ observation_error errors
      | ok by_sequence ↦
          let errors = observation_errors rubric by_sequence o in
          if is_empty errors
          then ok (record { observation = o; snapshot = rubric; transcript = transcript })
          else observation_error (sorted issue_le errors)
    ]
