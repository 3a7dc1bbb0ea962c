-- ===== src/Rubric/Score/Total.antt =====
-- A published rubric and an accepted report always have a score, of at most 100.
use native.Mathlib.Omega.{arith}
use cat_backend.Common.{
  ℕ, ◌*◌, ◌≤◌, ◌≡◌, refl, ap, ◌∙◌, String, Bool, true, List, [], ◌∷◌, map, some, sum_of, all, All,
}
use cat_backend.Common.Eq.{String-Eq, ℕ-Eq}
use cat_backend.Common.Sort.{sorted, All-sorted, sum_of-sorted}
use cat_backend.Rubric.Content.{Block, Content, IsContent}
use cat_backend.Rubric.Findings.{CategoryObservation, AiObservation, IsCategory}
use cat_backend.Rubric.Validator.Spec.{IsPublishable}
use cat_backend.Rubric.Observation.{Entry, Issue, Outcome, indexed}
use cat_backend.Rubric.Observation.Validate.{
  ValidatedObservation, blocks_by_id, validate_observation,
}
use cat_backend.Rubric.Observation.Grounded.{HasGroundedBlock, IsGrounded}
use cat_backend.Rubric.Observation.Exact.{validate_observation_iff, validate_observation-eq}
use cat_backend.Rubric.Score.{
  one, CanonicalResult, ok, money, score_category, by_display_order, resolve, fields_ok, conclude,
  result_ok, calculate_rubric_score,
}
use cat_backend.Rubric.Score.Bounds.{
  IsBounded, resolve-IsBounded, sum-weight-le, score_category_bounds,
}

resolve_total :
    (by_sequence : List (ℕ × Entry)) (blocks : List (String × Block))
    (cs : List CategoryObservation)
    → All (HasGroundedBlock by_sequence blocks) cs
    → (pairs : List (CategoryObservation × Block)) × (resolve blocks cs ≡ some pairs)
unfolding resolve
resolve_total by_sequence blocks [] h = ([], refl)
resolve_total by_sequence blocks (c ∷ cs) (h, hs) =
    let (rest, e) = resolve_total by_sequence blocks cs hs in
    ((c, h.block) ∷ rest, ground (arith, h.found))

money-le : (n : ℕ) → n ≤ 100 * one → money n ≤ 100 * one
unfolding money
money-le n h = omega arith

fields_ok-map :
    (pairs : List (CategoryObservation × Block))
    → All IsBounded pairs
    → all fields_ok (map score_category pairs) ≡ true
fields_ok-map [] h = refl
fields_ok-map (p ∷ ps) (h, hs) = rw ((score_category_bounds p h).0) (fields_ok-map ps hs)

sum-contribution-le :
    (pairs : List (CategoryObservation × Block))
    → All IsBounded pairs
    → sum_of (λ s. s.weighted_contribution) (map score_category pairs)
      ≤ sum_of (λ p. p.1.weight) pairs * one
sum-contribution-le [] h = omega arith
sum-contribution-le (p ∷ ps) (h, hs) =
    omega (arith, (score_category_bounds p h).1, sum-contribution-le ps hs)

-- The result of bounded pairs that weigh at most 100 is within its field limits.
conclude-result_ok :
    (o : AiObservation) (rubric : Content) (pairs : List (CategoryObservation × Block))
    → rubric.overall_passing_score ≤ 100
    → All IsBounded pairs
    → sum_of (λ p. p.1.weight) pairs ≤ 100
    → let r = conclude o rubric (map score_category pairs) in
      (result_ok r ≡ true) × (r.weighted_total ≤ 100 * one)
unfolding conclude result_ok
conclude-result_ok o rubric pairs hp hb hw =
    let total_le =
      money-le (sum_of (λ s. s.weighted_contribution) (map score_category pairs))
        (omega (arith, sum-contribution-le pairs hb)) in
    (ground (arith, fields_ok-map pairs hb, total_le), total_le)

calculate_of_resolve :
    (v : ValidatedObservation) (pairs : List (CategoryObservation × Block))
    → sum_of (λ b. b.weight) v.snapshot.blocks ≡ 100
    → resolve (blocks_by_id v.snapshot) v.observation.categories ≡ some pairs
    → let r =
        conclude v.observation v.snapshot (map score_category (sorted by_display_order pairs)) in
      result_ok r ≡ true → calculate_rubric_score v ≡ ok r
unfolding calculate_rubric_score
calculate_of_resolve v pairs hw hp hr = ground arith

module _ (casefold : String → String) where
  grounded_report_scored :
      (v : ValidatedObservation) (by_sequence : List (ℕ × Entry))
      → IsContent v.snapshot
      → IsPublishable casefold v.snapshot
      → All IsCategory v.observation.categories
      → IsGrounded casefold v.snapshot by_sequence v.observation
      → (r : CanonicalResult) × (calculate_rubric_score v ≡ ok r) × (r.weighted_total ≤ 100 * one)
  grounded_report_scored v by_sequence hr hp hc g =
      let cs = v.observation.categories in
      let (pairs, found) = resolve_total by_sequence (blocks_by_id v.snapshot) cs g.categories in
      let light = sum-weight-le v.snapshot.blocks cs g.once found in
      let kept =
        sum_of-sorted by_display_order (λ (p : CategoryObservation × Block). p.1.weight) pairs in
      let fine =
        conclude-result_ok v.observation v.snapshot (sorted by_display_order pairs) hr.passing_le
          (All-sorted by_display_order IsBounded pairs
            (resolve-IsBounded v.snapshot.blocks cs hr.blocks_ok hc found))
          (omega (arith, kept, light, hp.weights)) in
      (
        conclude v.observation v.snapshot (map score_category (sorted by_display_order pairs)),
        calculate_of_resolve v pairs hp.weights found fine.0,
        fine.1,
      )

  module _ (issue_le : Issue → Issue → Bool) where
    -- For a rubric that can be published, a report that `validate_observation` accepts is always
    -- scored: no `KeyError`, no invariant error and no refused field, and the weighted total is at
    -- most 100.
    pub accepted_report_scored :
        (o : AiObservation) (rubric : Content) (transcript : List Entry) {v : ValidatedObservation}
        → IsContent rubric
        → IsPublishable casefold rubric
        → All IsCategory o.categories
        → validate_observation casefold issue_le o rubric transcript ≡ Outcome.ok v
        → (r : CanonicalResult) × (calculate_rubric_score v ≡ ok r) × (r.weighted_total ≤ 100 * one)
    accepted_report_scored o rubric transcript {v} hr hp hc e =
        let same = validate_observation-eq casefold issue_le o rubric transcript e in
        let g =
          (validate_observation_iff casefold issue_le o rubric transcript).0
            (e ∙ ap Outcome.ok same) in
        rw same (
          grounded_report_scored
            (record { observation = o; snapshot = rubric; transcript = transcript })
            (indexed 0 transcript) hr hp hc g.1)
