-- ===== src/Rubric/Recommendations/Complete.antt =====
-- A report that the validator accepts never makes `build_rubric_recommendations` fail.
use cat_backend.Common.{
  ℕ, ◌≡◌, inl, inr, refl, subst, String, true, false, List, [], ◌∷◌, ◌++◌, map, some, arith,
  is_empty, All, All-append, Member, Bool-cases,
}
use cat_backend.Common.Eq.{elem, ℕ-Eq, String-Eq, Member→elem, beq_self, not-Member→not-elem}
use cat_backend.Rubric.Content.{Criterion, Block}
use cat_backend.Rubric.Findings.{Finding, RecommendationInput, CategoryObservation, IsCategory}
use cat_backend.Rubric.Observation.{Entry}
use cat_backend.Rubric.Observation.Category.{
  finding_ids, cited, evidence_sequences, valid_criteria, valid_violations, counted_findings,
  sequences,
}
use cat_backend.Rubric.Observation.Grounded.{IsSupported, IsJustified, IsGroundedCategory}
use cat_backend.Rubric.Recommendations.{
  findings_of, input, violation_inputs, explanation_of, failed_inputs, inputs_of, input_ok,
}
use cat_backend.Rubric.Recommendations.Cited.{
  Cites, declared-all, All-Member-later, All-Member, elem-finding_ids, elem-cited, elem-least,
  least-some, cited_some,
}

module _ (b : Block) (c : CategoryObservation) where
  abbrev pub IsInput : RecommendationInput → Type 0
  IsInput r = input_ok b c r ≡ true

  cited-IsInput :
      (id : String) (s : ℕ) (need : String)
      → elem id (valid_criteria b) ≡ true
      → elem id (finding_ids (findings_of c)) ≡ true
      → elem s (cited id (findings_of c)) ≡ true
      → IsInput (input id s need)
  cited-IsInput id s need v f e = rw (v, f, e) refl

  justified-IsInput :
      (spoken : List ℕ) (r : RecommendationInput)
      → IsJustified
          (valid_criteria b)
          spoken
          (evidence_sequences c)
          (findings_of c)
          c.failed_criteria
          r
      → IsInput r
  justified-IsInput spoken r (valid, said, known, inl (named, moment)) =
      rw
        (
          Member→elem r.criterion_id (valid_criteria b) valid,
          Member→elem r.criterion_id (finding_ids (findings_of c)) named,
          Member→elem r.transcript_sequence_number (cited r.criterion_id (findings_of c)) moment,
        )
        refl
  justified-IsInput spoken r (valid, said, known, inr (unnamed, failed)) =
      let none_found : elem r.criterion_id (finding_ids (findings_of c)) ≡ false =
        ground (arith, not-Member→not-elem r.criterion_id (finding_ids (findings_of c)) unnamed) in
      rw
        (
          Member→elem r.criterion_id (valid_criteria b) valid,
          none_found,
          Member→elem r.criterion_id c.failed_criteria failed,
          Member→elem r.transcript_sequence_number (evidence_sequences c) known,
        )
        refl

  justified-all :
      (spoken : List ℕ) (rs : List RecommendationInput)
      → All
          (IsJustified
            (valid_criteria b)
            spoken
            (evidence_sequences c)
            (findings_of c)
            c.failed_criteria)
          rs
      → All IsInput rs
  justified-all spoken [] h = tt
  justified-all spoken (r ∷ rs) (p, ps) = (justified-IsInput spoken r p, justified-all spoken rs ps)

  first_cited :
      (f : Finding) (ns : List ℕ)
      → f.evidence_sequence_numbers ≡ ns
      → Member f (findings_of c)
      → elem f.criterion_id (valid_criteria b) ≡ true
      → (rest : List RecommendationInput) → All IsInput rest
      → All IsInput (elim ns as (λ _. List RecommendationInput) [
        | [] ↦ rest
        | ◌∷◌ first others ↦ input f.criterion_id first f.explanation ∷ rest
      ])
  first_cited f [] e m v rest good = good
  first_cited f (n ∷ ns) e m v rest good = (
    cited-IsInput f.criterion_id n f.explanation v (elem-finding_ids f (findings_of c) m)
        (elem-cited f n (findings_of c) m (rw e (rw (beq_self n) refl))),
    good,
  )

  violation_inputs-IsInput :
      (fs : List Finding)
      → All (λ f. Member f (findings_of c)) fs
      → All (λ f. elem f.criterion_id (valid_criteria b) ≡ true) fs
      → All IsInput (violation_inputs fs)
  violation_inputs-IsInput [] m v = tt
  violation_inputs-IsInput (f ∷ fs) (m, ms) (v, vs) =
      first_cited f f.evidence_sequence_numbers refl m v (violation_inputs fs)
        (violation_inputs-IsInput fs ms vs)

  failed_inputs-IsInput :
      (ids : List String)
      → All Cites (findings_of c)
      → All (λ id. elem id (valid_criteria b) ≡ true) ids
      → (rs : List RecommendationInput) × (failed_inputs (findings_of c) ids ≡ some rs)
        × All IsInput rs
  failed_inputs-IsInput [] cites v = ([], refl, tt)
  failed_inputs-IsInput (id ∷ ids) cites (v, vs) =
      let (rest, found, good) = failed_inputs-IsInput ids cites vs in
      elim (Bool-cases (elem id (finding_ids (findings_of c)))) [
        | inl named ↦
            let (m, smallest) =
              least-some (cited id (findings_of c)) (cited_some id (findings_of c) cites named) in
            (
              input id m (explanation_of id (findings_of c)) ∷ rest,
              rw (found, named, smallest) refl,
              (
                cited-IsInput id m (explanation_of id (findings_of c)) v named
                    (elem-least (cited id (findings_of c)) m smallest),
                good,
              ),
            )
        | inr unnamed ↦ (rest, rw (found, unnamed) refl, good)
      ]

Members-append :
    (fs gs hs : List Finding) → All (λ f. Member f hs) gs → All (λ f. Member f (fs ++ hs)) gs
Members-append [] gs hs h = h
Members-append (f ∷ fs) gs hs h = All-Member-later f (fs ++ hs) gs (Members-append fs gs hs h)

elem-valid :
    (valid : List String) (known : List ℕ) (fs : List Finding)
    → All (IsSupported valid known) fs
    → All (λ f. elem f.criterion_id valid ≡ true) fs
elem-valid valid known [] h = tt
elem-valid valid known (f ∷ fs) (p, ps) =
    (Member→elem f.criterion_id valid p.0, elem-valid valid known fs ps)

elem-all :
    (valid ids : List String)
    → All (λ id. Member id valid) ids
    → All (λ id. elem id valid ≡ true) ids
elem-all valid [] h = tt
elem-all valid (id ∷ ids) (p, ps) = (Member→elem id valid p, elem-all valid ids ps)

Member-ids-append :
    (id : String) (xs ys : List Criterion)
    → Member id (map (λ i. i.id) ys)
    → Member id (map (λ i. i.id) (xs ++ ys))
Member-ids-append id [] ys m = m
Member-ids-append id (x ∷ xs) ys m = inr (Member-ids-append id xs ys m)

-- Every violation of a block is one of its criteria.
Supported-criteria :
    (b : Block) (known : List ℕ) (fs : List Finding)
    → All (IsSupported (valid_violations b) known) fs
    → All (IsSupported (valid_criteria b) known) fs
Supported-criteria b known [] h = tt
Supported-criteria b known (f ∷ fs) ((p, q), ps) = (
  (Member-ids-append f.criterion_id b.positive_behaviors b.violations p, q),
  Supported-criteria b known fs ps,
)

pub category_inputs :
    (by_sequence : List (ℕ × Entry)) (b : Block) (c : CategoryObservation)
    → IsCategory c
    → IsGroundedCategory by_sequence b c
    → (rs : List RecommendationInput) × (inputs_of c ≡ some rs) × All (IsInput b c) rs
unfolding inputs_of
category_inputs by_sequence b c hc g =
    let known = evidence_sequences c in
    let counted : counted_findings b c ≡ findings_of c =
      rw
        (
          declared-all (valid_criteria b) known c.strengths g.strengths,
          declared-all (valid_violations b) known c.violations g.violations,
        )
        refl in
    elim (Bool-cases (is_empty c.recommendation_inputs)) [
      | inl derived ↦
          let (failed, found, good) =
            failed_inputs-IsInput b c c.failed_criteria
              (All-append Cites c.strengths c.violations hc.strengths_cite hc.violations_cite)
              (elem-all (valid_criteria b) c.failed_criteria g.failed) in
          let violations =
            violation_inputs-IsInput b c c.violations
              (Members-append c.strengths c.violations c.violations (All-Member c.violations))
              (elem-valid (valid_criteria b) known c.violations
                (Supported-criteria b known c.violations g.violations)) in
          (
            violation_inputs c.violations ++ failed,
            rw (derived, found) refl,
            All-append (IsInput b c) (violation_inputs c.violations) failed violations good,
          )
      | inr given ↦ (
        c.recommendation_inputs,
        rw given refl,
        justified-all b c (sequences by_sequence) c.recommendation_inputs (
            subst
              (λ fs.
                All
                  (IsJustified (valid_criteria b) (sequences by_sequence) known fs
                    c.failed_criteria)
                  c.recommendation_inputs)
              counted g.recommendations),
      )
    ]
