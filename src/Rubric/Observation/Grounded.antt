-- ===== src/Rubric/Observation/Grounded.antt =====
-- What it means for a report to be grounded in the rubric and in the transcript, said without
-- indices, errors and order.
use cat_backend.Common.{ℕ, ◌≡◌, String, true, List, ◌++◌, some, All, Member, ◌⊎◌}
use cat_backend.Common.Eq.{distinct, String-Eq, ℕ-Eq}
use cat_backend.Common.Dict.{lookup}
use cat_backend.Rubric.Content.{Block, Content}
use cat_backend.Rubric.Findings.{
  Evidence, Finding, RecommendationInput, CategoryObservation, AppliedTechnique, AiObservation,
}
use cat_backend.Rubric.Observation.{Entry, speaker_name, quotes}
use cat_backend.Rubric.Observation.Category.{
  valid_criteria, valid_violations, evidence_sequences, sequences, counted_findings, finding_ids,
  cited, recommended,
}
use cat_backend.Rubric.Observation.Validate.{
  blocks_by_id, block_ids, category_ids, valid_technique_names,
}

-- The excerpt was said, by the speaker that is named.
pub record IsGroundedEvidence (by_sequence : List (ℕ × Entry)) (e : Evidence) : Type 0 where
  pub entry : Entry
  pub spoken : lookup e.sequence_number by_sequence ≡ some entry
  pub speaker : entry.speaker ≡ some (speaker_name e.speaker)
  pub quoted : quotes entry e ≡ true

-- The criterion is declared, and what the finding cites is evidence of its category.
abbrev pub IsSupported : List String → List ℕ → Finding → Type 0
IsSupported valid known f =
    Member f.criterion_id valid × All (λ s. Member s known) f.evidence_sequence_numbers

-- A recommendation names a declared criterion and a moment that was spoken and is evidence; if
-- findings name the criterion, one of them cites that moment, and otherwise it is a failed one.
abbrev pub IsJustified :
    List String → List ℕ → List ℕ → List Finding → List String → RecommendationInput → Type 0
IsJustified valid spoken known findings failed r =
    Member r.criterion_id valid
    × Member r.transcript_sequence_number spoken
    × Member r.transcript_sequence_number known
    × ((Member r.criterion_id (finding_ids findings)
          × Member r.transcript_sequence_number (cited r.criterion_id findings))
        ⊎ ((¬ Member r.criterion_id (finding_ids findings)) × Member r.criterion_id failed))

pub record IsGroundedCategory (by_sequence : List (ℕ × Entry)) (b : Block) (c : CategoryObservation)
    : Type 0 where
  pub evidence : All (IsGroundedEvidence by_sequence) c.evidence
  pub strengths : All (IsSupported (valid_criteria b) (evidence_sequences c)) c.strengths
  pub violations : All (IsSupported (valid_violations b) (evidence_sequences c)) c.violations
  pub failed : All (λ id. Member id (valid_criteria b)) c.failed_criteria
  pub recommendations :
      All
        (IsJustified
          (valid_criteria b)
          (sequences by_sequence)
          (evidence_sequences c)
          (counted_findings b c)
          c.failed_criteria)
        c.recommendation_inputs
  pub explained :
      All
        (λ id. Member id (
          finding_ids (counted_findings b c)
          ++ recommended (valid_criteria b) c.recommendation_inputs))
        c.failed_criteria

-- The category has a block, by which it is grounded.
pub record HasGroundedBlock (by_sequence : List (ℕ × Entry)) (blocks : List (String × Block))
    (c : CategoryObservation) : Type 0 where
  pub block : Block
  pub found : lookup c.rubric_block_id blocks ≡ some block
  pub grounded : IsGroundedCategory by_sequence block c

module _ (casefold : String → String) where
  abbrev pub IsGroundedTechnique : Content → List (ℕ × Entry) → AppliedTechnique → Type 0
  IsGroundedTechnique rubric by_sequence t =
      Member (casefold t.technique_name) (valid_technique_names casefold rubric)
      × All (λ s. Member s (sequences by_sequence)) t.evidence_sequence_numbers

  pub record IsGrounded (rubric : Content) (by_sequence : List (ℕ × Entry)) (o : AiObservation)
      : Type 0 where
    pub once : distinct (category_ids o) ≡ true
    pub complete : All (λ id. Member id (category_ids o)) (block_ids rubric)
    pub categories : All (HasGroundedBlock by_sequence (blocks_by_id rubric)) o.categories
    pub techniques : All (IsGroundedTechnique rubric by_sequence) o.techniques_used
    pub missed :
        All
          (λ m. Member (casefold m.technique_name) (valid_technique_names casefold rubric))
          o.missed_techniques
