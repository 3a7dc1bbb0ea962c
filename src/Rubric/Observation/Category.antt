-- ===== src/Rubric/Observation/Category.antt =====
-- The checks of one category of a report against its rubric block, in the order of the loop in
-- `validate_observation`.
use cat_backend.Common.{
  ℕ, ◌+◌, String, not, ◌&&◌, List, [], ◌∷◌, ◌++◌, map, flat_map, if◌then◌else◌, filter,
}
use cat_backend.Common.Eq.{◌==◌, elem, String-Eq, ℕ-Eq}
use cat_backend.Common.Report.{enumerated}
use cat_backend.Rubric.Content.{Block}
use cat_backend.Rubric.Findings.{Finding, RecommendationInput, CategoryObservation}
use cat_backend.Rubric.Observation.{
  Entry, Issue, issue, issue_if, required, unknown_reference, validate_evidence, Site,
  strength_criterion, strength_sequence, violation_id, violation_sequence, failed_criterion,
  recommendation_criterion, recommendation_sequence, no_such_sequence, no_matching_evidence,
  criterion_not_declared, violation_not_declared, recommendation_needs_evidence,
  recommendation_needs_own_evidence, recommendation_needs_finding, failed_needs_finding,
}

abbrev pub valid_criteria : Block → List String
valid_criteria b = map (λ c. c.id) (b.positive_behaviors ++ b.violations)

abbrev pub valid_violations : Block → List String
valid_violations b = map (λ c. c.id) b.violations

abbrev pub evidence_sequences : CategoryObservation → List ℕ
evidence_sequences c = map (λ e. e.sequence_number) c.evidence

-- The keys of a transcript dict.
abbrev pub sequences : List (ℕ × Entry) → List ℕ
sequences = map (λ e. e.0)

-- `_validate_sequences`
unfoldable pub validate_sequences : (ℕ → Site) → List ℕ → List ℕ → List Issue
validate_sequences at known =
    enumerated (λ index s. issue_if (not (elem s known)) required (at index) no_matching_evidence) 0

-- One finding of the strengths (`_validate_finding`), and one of the violations.
unfoldable pub strength_error : List String → List ℕ → ℕ → ℕ → Finding → List Issue
unfolding validate_sequences
strength_error valid known ci index f =
    issue_if (not (elem f.criterion_id valid)) unknown_reference (strength_criterion ci index)
      criterion_not_declared
    ++ validate_sequences (strength_sequence ci index) known f.evidence_sequence_numbers

unfoldable pub violation_error : List String → List ℕ → ℕ → ℕ → Finding → List Issue
unfolding validate_sequences
violation_error valid known ci index f =
    issue_if (not (elem f.criterion_id valid)) unknown_reference (violation_id ci index)
      violation_not_declared
    ++ validate_sequences (violation_sequence ci index) known f.evidence_sequence_numbers

-- The findings with a declared criterion. `finding_ids` are their criteria, and
-- `criterion_evidence` is the union of what the findings of a criterion cite.
abbrev pub declared : List String → List Finding → List Finding
declared valid = filter (λ f. elem f.criterion_id valid)

abbrev pub counted_findings : Block → CategoryObservation → List Finding
counted_findings b c =
    declared (valid_criteria b) c.strengths ++ declared (valid_violations b) c.violations

abbrev pub finding_ids : List Finding → List String
finding_ids = map (λ f. f.criterion_id)

abbrev pub cited : String → List Finding → List ℕ
cited id = flat_map (λ f. if f.criterion_id == id then f.evidence_sequence_numbers else [])

unfoldable pub failed_error : List String → ℕ → ℕ → String → List Issue
failed_error valid ci index id =
    issue_if (not (elem id valid)) unknown_reference (failed_criterion ci index)
      criterion_not_declared

-- One recommendation: the chain of `if`, `elif` and `continue`.
module _ (valid : List String) (spoken known : List ℕ) (findings : List Finding)
    (failed : List String) (ci index : ℕ) where
  unfoldable pub recommendation_error : RecommendationInput → List Issue
  recommendation_error r =
      let id = r.criterion_id in
      let s = r.transcript_sequence_number in
      if not (elem id valid)
      then issue unknown_reference (recommendation_criterion ci index) criterion_not_declared ∷ []
      else if not (elem s spoken)
      then issue unknown_reference (recommendation_sequence ci index) no_such_sequence ∷ []
      else if not (elem s known)
      then issue required (recommendation_sequence ci index) recommendation_needs_evidence ∷ []
      else if elem id (finding_ids findings) && not (elem s (cited id findings))
      then issue required (recommendation_sequence ci index) recommendation_needs_own_evidence ∷ []
      else if not (elem id (finding_ids findings)) && not (elem id failed)
      then issue required (recommendation_criterion ci index) recommendation_needs_finding ∷ []
      else []

-- `recommendation_criteria`
abbrev pub recommended : List String → List RecommendationInput → List String
recommended valid rs = map (λ r. r.criterion_id) (filter (λ r. elem r.criterion_id valid) rs)

-- The last loop: a failed criterion that nothing explains, reported where it first stands.
unfoldable pub unexplained_errors : List String → List String → ℕ → ℕ → List String → List Issue
unexplained_errors explained seen ci index [] = []
unexplained_errors explained seen ci index (id ∷ ids) =
    issue_if (not (elem id explained) && not (elem id seen)) required (failed_criterion ci index)
      failed_needs_finding
    ++ unexplained_errors explained (id ∷ seen) ci (index + 1) ids

-- The body of the loop over the categories, for a category with a block.
unfoldable pub category_errors : List (ℕ × Entry) → ℕ → Block → CategoryObservation → List Issue
unfolding validate_evidence strength_error violation_error failed_error recommendation_error
    unexplained_errors
category_errors by_sequence ci b c =
    let valid = valid_criteria b in
    let known = evidence_sequences c in
    let findings = counted_findings b c in
    enumerated (validate_evidence by_sequence ci) 0 c.evidence
    ++ (enumerated (strength_error valid known ci) 0 c.strengths
        ++ (enumerated (violation_error (valid_violations b) known ci) 0 c.violations
            ++ (enumerated (failed_error valid ci) 0 c.failed_criteria
                ++ (enumerated
                      (recommendation_error valid (sequences by_sequence) known findings
                        c.failed_criteria ci)
                      0 c.recommendation_inputs
                    ++ unexplained_errors
                        (finding_ids findings ++ recommended valid c.recommendation_inputs) [] ci 0
                        c.failed_criteria))))
