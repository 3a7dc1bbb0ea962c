-- ===== src/Rubric/Recommendations/Accepted.antt =====
-- From an accepted and scored report to its recommendations.
use cat_backend.Common.{
  ℕ, ◌≡◌, ◌⊎◌, inl, inr, refl, sym, ap, subst, ◌∙◌, String, Bool, List, [], ◌∷◌, ◌++◌, map, some,
  arith, All, Option-cases, Bool-cases,
}
use cat_backend.Common.Eq.{◌==◌, String-Eq}
use cat_backend.Common.Dict.{lookup}
use cat_backend.Common.Sort.{sorted, All-sorted}
use text.Mathlib.TextEquality.{eq_iff}
use cat_backend.Rubric.Content.{Block, Content}
use cat_backend.Rubric.Findings.{
  RecommendationInput, CategoryObservation, AiObservation, IsCategory, Status, evaluated,
  not_applicable,
}
use cat_backend.Rubric.Observation.{Entry, Issue, Outcome, indexed}
use cat_backend.Rubric.Observation.Validate.{
  blocks_by_id, validate_observation, ValidatedObservation,
}
use cat_backend.Rubric.Observation.Grounded.{IsGroundedCategory, HasGroundedBlock}
use cat_backend.Rubric.Observation.Exact.{validate_observation_iff, validate_observation-eq}
use cat_backend.Rubric.Score.{
  CategoryScore, CanonicalResult, ok, resolve, score_category, by_display_order, conclude,
  calculate_rubric_score,
}
use cat_backend.Rubric.Recommendations.{
  Recommendation, Recommended, inputs_of, of_inputs, of_category, candidates,
  build_rubric_recommendations, recommendation, by_priority,
}
use cat_backend.Rubric.Recommendations.Complete.{IsInput, category_inputs}

-- A pair of a category and its block that the scores are made of.
record IsReady (by_sequence : List (ℕ × Entry)) (blocks : List (String × Block))
    (p : CategoryObservation × Block) : Type 0 where
  found : lookup p.1.id blocks ≡ some p.1
  category : IsCategory p.0
  grounded : IsGroundedCategory by_sequence p.1 p.0

id-lookup :
    (id : String) (bs : List Block) (b : Block)
    → lookup id (map (λ x. (x.id, x)) bs) ≡ some b
    → b.id ≡ id
id-lookup id [] b e = cc
id-lookup id (x ∷ bs) b e = elim (Option-cases (lookup id (map (λ y. (y.id, y)) bs))) [
  | inl missing ↦ elim (Bool-cases (x.id == id)) [
    | inl here ↦ let first : x ≡ b = ground arith in rw (← first) ((eq_iff x.id id).0 here)
    | inr other ↦ ground arith
  ]
  | inr (d, found) ↦ let same : d ≡ b = ground arith in rw (← same) (id-lookup id bs d found)
]

resolve-IsReady :
    (by_sequence : List (ℕ × Entry)) (rubric : Content) (cs : List CategoryObservation)
    (pairs : List (CategoryObservation × Block))
    → All IsCategory cs
    → All (HasGroundedBlock by_sequence (blocks_by_id rubric)) cs
    → resolve (blocks_by_id rubric) cs ≡ some pairs
    → All (IsReady by_sequence (blocks_by_id rubric)) pairs
unfolding resolve
resolve-IsReady by_sequence rubric [] pairs hc hg e =
    let none_left : [] ≡ pairs = ground arith in rw (← none_left) tt
resolve-IsReady by_sequence rubric (c ∷ cs) pairs (hc, hcs) (hg, hgs) e =
    elim (Option-cases (resolve (blocks_by_id rubric) cs)) [
      | inl missing ↦ ground (arith, hg.found)
      | inr (rest, found) ↦
          let same : (c, hg.block) ∷ rest ≡ pairs = ground (arith, hg.found) in
          subst (All (IsReady by_sequence (blocks_by_id rubric))) same (
            record {
              found =
                  subst (λ k. lookup k (blocks_by_id rubric) ≡ some hg.block)
                    (sym (id-lookup c.rubric_block_id rubric.blocks hg.block hg.found)) hg.found;
              category = hc;
              grounded = hg.grounded;
            },
            resolve-IsReady by_sequence rubric cs rest hcs hgs found,
          )
    ]

of_inputs-ok :
    (b : Block) (s : CategoryScore) (rs : List RecommendationInput)
    → All (IsInput b s.observation) rs
    → (out : List Recommendation) × (of_inputs b s rs ≡ Recommended.ok out)
of_inputs-ok b s [] h = ([], refl)
of_inputs-ok b s (r ∷ rs) (p, ps) =
    let (out, done) = of_inputs-ok b s rs ps in (recommendation b s r ∷ out, rw (p, done) refl)

of_category-inputs :
    (blocks : List (String × Block)) (s : CategoryScore) (b : Block) (rs : List RecommendationInput)
    → lookup s.rubric_block_id blocks ≡ some b
    → inputs_of s.observation ≡ some rs
    → of_category blocks s ≡ of_inputs b s rs
unfolding of_category
of_category-inputs blocks s b rs found given = ground (arith, found, given)

of_category-ok :
    (by_sequence : List (ℕ × Entry)) (blocks : List (String × Block))
    (p : CategoryObservation × Block)
    → IsReady by_sequence blocks p
    → (out : List Recommendation) × (of_category blocks (score_category p) ≡ Recommended.ok out)
unfolding score_category
of_category-ok by_sequence blocks (c, b) h =
    let (rs, found, good) = category_inputs by_sequence b c h.category h.grounded in
    let (out, done) = of_inputs-ok b (score_category (c, b)) rs good in
    (out, of_category-inputs blocks (score_category (c, b)) b rs h.found found ∙ done)

candidates-ok :
    (by_sequence : List (ℕ × Entry)) (blocks : List (String × Block))
    (ps : List (CategoryObservation × Block))
    → All (IsReady by_sequence blocks) ps
    → (out : List Recommendation) × (candidates blocks (map score_category ps) ≡ Recommended.ok out)
unfolding candidates
candidates-ok by_sequence blocks [] h = ([], refl)
candidates-ok by_sequence blocks (p ∷ ps) (h, hs) =
    let (first, one) = of_category-ok by_sequence blocks p h in
    let (rest, done) = candidates-ok by_sequence blocks ps hs in
    (first ++ rest, ground (arith, one, done))

Status-cases : (s : Status) → (s ≡ evaluated) ⊎ (s ≡ not_applicable)
Status-cases evaluated = inl refl
Status-cases not_applicable = inr refl

built :
    (o : AiObservation) (rubric : Content) (scores : List CategoryScore)
    (found : List Recommendation)
    → candidates (blocks_by_id rubric) scores ≡ Recommended.ok found
    → (out : List Recommendation) × (build_rubric_recommendations (conclude o rubric scores) rubric
        ≡ Recommended.ok out)
unfolding build_rubric_recommendations conclude
built o rubric scores found done = elim (Status-cases o.status) [
  | inl scored ↦ (sorted by_priority found, ground (arith, done, scored))
  | inr skipped ↦ ([], ground (arith, skipped))
]

module _ (casefold : String → String) (issue_le : Issue → Issue → Bool) where
  -- For a report that `validate_observation` accepts and whose findings cite evidence, as the schema
  -- demands, the recommendations of its score are always built: no ungrounded recommendation, no
  -- unknown block and no minimum of nothing.
  pub accepted_report_recommended :
      (o : AiObservation) (rubric : Content) (transcript : List Entry) {v : ValidatedObservation}
      {r : CanonicalResult}
      → All IsCategory o.categories
      → validate_observation casefold issue_le o rubric transcript ≡ Outcome.ok v
      → calculate_rubric_score v ≡ ok r
      → (out : List Recommendation) × (build_rubric_recommendations r rubric ≡ Recommended.ok out)
  unfolding calculate_rubric_score build_rubric_recommendations conclude
  accepted_report_recommended o rubric transcript {v} {r} hc e scored =
      let same = validate_observation-eq casefold issue_le o rubric transcript e in
      let g =
        (validate_observation_iff casefold issue_le o rubric transcript).0
          (e ∙ ap Outcome.ok same) in
      let run : calculate_rubric_score
            (record { observation = o; snapshot = rubric; transcript = transcript })
          ≡ ok r =
        subst (λ w. calculate_rubric_score w ≡ ok r) same scored in
      elim (Option-cases (resolve (blocks_by_id rubric) o.categories)) [
        | inl missing ↦ ground arith
        | inr (pairs, found) ↦
            let ordered = sorted by_display_order pairs in
            let result : conclude o rubric (map score_category ordered) ≡ r = ground arith in
            let ready =
              resolve-IsReady (indexed 0 transcript) rubric o.categories pairs hc g.1.categories
                found in
            let (out, done) = candidates-ok (indexed 0 transcript) (blocks_by_id rubric) ordered (
              All-sorted by_display_order (IsReady (indexed 0 transcript) (blocks_by_id rubric))
                pairs ready) in
            subst
              (λ x.
                (out : List Recommendation) × (build_rubric_recommendations x rubric
                  ≡ Recommended.ok out))
              result (built o rubric (map score_category ordered) out done)
      ]
