-- ===== src/Rubric/Observation/Sound.antt =====
-- Every check of `validate_observation` decides one clause of groundedness.
use cat_backend.Common.{
  ℕ, ◌+◌, ◌≡◌, refl, String, Bool, true, false, ◌||◌, List, [], ◌∷◌, ◌++◌, some, All, Member, inl,
  inr, arith, Bool-cases, Option-cases, is_empty, all, all→All, All→all,
}
use cat_backend.Common.Eq.{elem, String-Eq, ℕ-Eq, Comparable, elem→Member, Member→elem, beq_self}
use cat_backend.Common.Dict.{lookup}
use cat_backend.Common.Report.{Decides, Decides-append, Decides-enumerated, Decides-elem}
use cat_backend.Rubric.Content.{Block}
use cat_backend.Rubric.Findings.{
  Speaker, Evidence, Finding, RecommendationInput, CategoryObservation,
}
use cat_backend.Rubric.Observation.{Entry, Site, speaker_name, says, validate_evidence}
use cat_backend.Rubric.Observation.Category.{
  valid_criteria, valid_violations, evidence_sequences, sequences, counted_findings, finding_ids,
  cited, recommended, validate_sequences, strength_error, violation_error, failed_error,
  recommendation_error, unexplained_errors, category_errors,
}
use cat_backend.Rubric.Observation.Grounded.{
  IsGroundedEvidence, IsSupported, IsJustified, IsGroundedCategory,
}
use text.Mathlib.TextEquality.{eq_iff}

says-eq :
    (entry : Entry) (speaker : Speaker)
    → says entry speaker ≡ true
    → entry.speaker ≡ some (speaker_name speaker)
says-eq entry speaker h = elim (Option-cases entry.speaker) [
  | inl missing ↦ ground arith
  | inr (s, e) ↦ ground (arith, eq_iff s (speaker_name speaker))
]

says_self :
    (entry : Entry) (speaker : Speaker)
    → entry.speaker ≡ some (speaker_name speaker)
    → says entry speaker ≡ true
says_self entry speaker e = rw e (beq_self (speaker_name speaker))

Decides-validate_evidence :
    (by_sequence : List (ℕ × Entry)) (ci i : ℕ) (e : Evidence)
    → Decides (validate_evidence by_sequence ci i e) (IsGroundedEvidence by_sequence e)
unfolding validate_evidence
Decides-validate_evidence by_sequence ci i e =
    elim (Option-cases (lookup e.sequence_number by_sequence)) [
      | inl missing ↦ rw (missing, validate_evidence) (λ h. cc, λ g. cc (g.spoken))
      | inr (entry, found) ↦
          rw (found, validate_evidence)
            (
              λ h. record {
                entry = entry;
                spoken = found;
                speaker = says-eq entry e.speaker (ground arith);
                quoted = ground arith;
              },
              λ g.
                  let same : entry ≡ g.entry = cc (g.spoken) in
                  ground (arith, says_self g.entry e.speaker g.speaker),
            )
    ]

Decides-validate_sequences :
    (at : ℕ → Site) (known ss : List ℕ)
    → Decides (validate_sequences at known ss) (All (λ s. Member s known) ss)
unfolding validate_sequences
Decides-validate_sequences at known ss =
    Decides-enumerated (λ s. Member s known) _ (λ i s. Decides-elem s known _) 0 ss

Decides-strength_error :
    (valid : List String) (known : List ℕ) (ci i : ℕ) (f : Finding)
    → Decides (strength_error valid known ci i f) (IsSupported valid known f)
unfolding strength_error
Decides-strength_error valid known ci i f =
    Decides-append _ _ (Decides-elem f.criterion_id valid _)
      (Decides-validate_sequences _ known f.evidence_sequence_numbers)

Decides-violation_error :
    (valid : List String) (known : List ℕ) (ci i : ℕ) (f : Finding)
    → Decides (violation_error valid known ci i f) (IsSupported valid known f)
unfolding violation_error
Decides-violation_error valid known ci i f =
    Decides-append _ _ (Decides-elem f.criterion_id valid _)
      (Decides-validate_sequences _ known f.evidence_sequence_numbers)

Decides-failed_error :
    (valid : List String) (ci i : ℕ) (id : String)
    → Decides (failed_error valid ci i id) (Member id valid)
unfolding failed_error
Decides-failed_error valid ci i id = Decides-elem id valid _

not-Member :
    {A : Type 0} ⦃e : Comparable A⦄ (a : A) (xs : List A) → elem a xs ≡ false → ¬ Member a xs
not-Member a xs h m = cc (Member→elem a xs m)

not-elem : {A : Type 0} ⦃e : Comparable A⦄ (a : A) (xs : List A) → ¬ Member a xs → elem a xs ≡ false
not-elem a xs h = elim (Bool-cases (elem a xs)) [
  | inl found ↦ absurd (h (elem→Member a xs found))
  | inr missing ↦ missing
]

module _ (valid : List String) (spoken known : List ℕ) (findings : List Finding)
    (failed : List String) (ci i : ℕ) (r : RecommendationInput) where
  abbrev own : Bool
  own = elem r.criterion_id (finding_ids findings)

  justified :
      is_empty (recommendation_error valid spoken known findings failed ci i r) ≡ true
      → IsJustified valid spoken known findings failed r
  unfolding recommendation_error
  justified h =
      let id = r.criterion_id in
      let s = r.transcript_sequence_number in
      (
        elem→Member id valid (ground arith),
        elem→Member s spoken (ground arith),
        elem→Member s known (ground arith),
        elim (Bool-cases own) [
          | inl found ↦ inl (
            elem→Member id (finding_ids findings) found,
            elem→Member s (cited id findings) (ground arith),
          )
          | inr other ↦
              inr (not-Member id (finding_ids findings) other, elem→Member id failed (ground arith))
        ],
      )

  of_justified :
      IsJustified valid spoken known findings failed r
      → is_empty (recommendation_error valid spoken known findings failed ci i r) ≡ true
  unfolding recommendation_error
  of_justified (v, p, k, inl (found, c)) = ground (
    arith,
    Member→elem r.criterion_id valid v,
    Member→elem r.transcript_sequence_number spoken p,
    Member→elem r.transcript_sequence_number known k,
    Member→elem r.criterion_id (finding_ids findings) found,
    Member→elem r.transcript_sequence_number (cited r.criterion_id findings) c,
  )
  of_justified (v, p, k, inr (other, f)) = ground (
    arith,
    Member→elem r.criterion_id valid v,
    Member→elem r.transcript_sequence_number spoken p,
    Member→elem r.transcript_sequence_number known k,
    not-elem r.criterion_id (finding_ids findings) other,
    Member→elem r.criterion_id failed f,
  )

module _ (explained : List String) where
  abbrev accounted : List String → String → Bool
  accounted seen x = elem x explained || elem x seen

  -- An id that is accounted for stays so without itself among those seen.
  all-accounted :
      (id : String) (seen ids : List String)
      → accounted seen id ≡ true
      → all (accounted (id ∷ seen)) ids ≡ all (accounted seen) ids
  all-accounted id seen [] h = refl
  all-accounted id seen (x ∷ xs) h = ground (arith, eq_iff id x, all-accounted id seen xs h)

  is_empty-unexplained_errors :
      (seen : List String) (ci i : ℕ) (ids : List String)
      → is_empty (unexplained_errors explained seen ci i ids) ≡ all (accounted seen) ids
  unfolding unexplained_errors
  is_empty-unexplained_errors seen ci i [] = refl
  is_empty-unexplained_errors seen ci i (id ∷ ids) =
      ground
        (arith, is_empty-unexplained_errors (id ∷ seen) ci (i + 1) ids, all-accounted id seen ids)

  Decides-unexplained_errors :
      (ci i : ℕ) (ids : List String)
      → Decides (unexplained_errors explained [] ci i ids) (All (λ id. Member id explained) ids)
  Decides-unexplained_errors ci i ids = rw is_empty-unexplained_errors (
    all→All _ (λ id. Member id explained) (λ id h. elem→Member id explained (ground arith)) ids,
    All→all _ (λ id. Member id explained) (λ id m. ground (arith, Member→elem id explained m)) ids,
  )

-- A category passes exactly when it is grounded in its block.
pub Decides-category_errors :
    (by_sequence : List (ℕ × Entry)) (ci : ℕ) (b : Block) (c : CategoryObservation)
    → Decides (category_errors by_sequence ci b c) (IsGroundedCategory by_sequence b c)
unfolding category_errors
Decides-category_errors by_sequence ci b c =
    let valid = valid_criteria b in
    let known = evidence_sequences c in
    let findings = counted_findings b c in
    let spoken = sequences by_sequence in
    let parts =
      Decides-append _ _
        (Decides-enumerated _ _ (Decides-validate_evidence by_sequence ci) 0 c.evidence)
        (Decides-append _ _
          (Decides-enumerated _ _ (Decides-strength_error valid known ci) 0 c.strengths)
          (Decides-append _ _
            (Decides-enumerated _ _ (Decides-violation_error (valid_violations b) known ci) 0
              c.violations)
            (Decides-append _ _
              (Decides-enumerated _ _ (Decides-failed_error valid ci) 0 c.failed_criteria)
              (Decides-append _ _
                (Decides-enumerated (IsJustified valid spoken known findings c.failed_criteria) _
                  (λ i r. (
                    justified valid spoken known findings c.failed_criteria ci i r,
                    of_justified valid spoken known findings c.failed_criteria ci i r,
                  ))
                  0 c.recommendation_inputs)
                (Decides-unexplained_errors
                  (finding_ids findings ++ recommended valid c.recommendation_inputs) ci 0
                  c.failed_criteria))))) in
    (
      λ h.
          let (ev, (st, (vi, (fa, (re, ex))))) = parts.0 h in
          record {
            evidence = ev;
            strengths = st;
            violations = vi;
            failed = fa;
            recommendations = re;
            explained = ex;
          },
      λ g.
          parts.1 (
            g.evidence,
            (g.strengths, (g.violations, (g.failed, (g.recommendations, g.explained)))),
          ),
    )
