-- ===== src/Rubric/Observation.antt =====
-- app/services/rubric_observation_validator.py, from a parsed report on: the checks of a report
-- against the published rubric and the stored transcript. Paths and messages are kept as
-- constructors applied to what the f-strings interpolate. A Python set is the list of its items;
-- only membership in it is asked. A loop over a sorted set runs here over the list without its
-- repetitions, since the issues are sorted at the end.
pub mod Category
pub mod Validate
pub mod Grounded
pub mod Sound
pub mod Exact
use cat_backend.Common.{
  ℕ, ◌+◌, String, Bool, true, false, not, ◌&&◌, ◌||◌, List, [], ◌∷◌, ◌++◌, map, flat_map, Option,
  none, some, if◌then◌else◌, is_empty, is_some,
}
use cat_backend.Common.Eq.{◌==◌, elem, distinct, String-Eq, ℕ-Eq, Comparable}
use cat_backend.Common.Dict.{lookup}
use cat_backend.Common.Words.{contains_text, normalize}
use cat_backend.Common.Sort.{sorted}
use cat_backend.Rubric.Content.{Block, Content}
use cat_backend.Rubric.Findings.{Speaker, agent, debtor, Evidence, AiObservation}

-- A transcript entry, a dict whose keys may be missing.
pub record Entry : Type 0 where
  pub sequence_number : Option ℕ
  pub speaker : Option String
  pub text : Option String
  pub utterance_text : Option String

pub data Code : Type 0 where
  required duplicate unknown_reference invalid_evidence : Code

pub data Site : Type 0 where
  categories : Site
  transcript_sequence : ℕ → Site
  evidence_sequence evidence_speaker evidence_excerpt : ℕ → ℕ → Site
  strength_criterion violation_id failed_criterion : ℕ → ℕ → Site
  strength_sequence violation_sequence : ℕ → ℕ → ℕ → Site
  recommendation_criterion recommendation_sequence : ℕ → ℕ → Site
  technique_name missed_name : ℕ → Site
  technique_sequence : ℕ → ℕ → Site

pub data Message : Type 0 where
  sequence_duplicated exactly_once : Message
  missing_category unknown_block : String → Message
  no_such_sequence wrong_speaker not_contained no_matching_evidence : Message
  criterion_not_declared violation_not_declared technique_not_declared : Message
  recommendation_needs_evidence recommendation_needs_own_evidence : Message
  recommendation_needs_finding failed_needs_finding : Message

pub record Issue : Type 0 where
  pub code : Code
  pub path : Site
  pub message : Message

abbrev pub issue : Code → Site → Message → Issue
issue c p m = record { code = c; path = p; message = m }

abbrev pub issue_if : Bool → Code → Site → Message → List Issue
issue_if bad c p m = if bad then issue c p m ∷ [] else []

pub data Outcome (A : Type 0) : Type 0 where
  ok : A → Outcome A
  observation_error : List Issue → Outcome A

-- `entry.get("sequence_number", index)`
abbrev pub sequence_at : ℕ → Entry → ℕ
sequence_at index entry = elim entry.sequence_number [ some n ↦ n | none ↦ index ]

-- The dict that `_transcript_index` builds, and the errors that it finds on the way.
unfoldable pub indexed : ℕ → List Entry → List (ℕ × Entry)
indexed index [] = []
indexed index (entry ∷ entries) = (sequence_at index entry, entry) ∷ indexed (index + 1) entries

unfoldable pub index_errors : ℕ → List ℕ → List Entry → List Issue
index_errors index seen [] = []
index_errors index seen (entry ∷ entries) =
    issue_if (elem (sequence_at index entry) seen) duplicate (transcript_sequence index)
      sequence_duplicated
    ++ index_errors (index + 1) (sequence_at index entry ∷ seen) entries

-- `_transcript_index`
unfoldable pub transcript_index : List Entry → Outcome (List (ℕ × Entry))
unfolding indexed index_errors
transcript_index transcript =
    if is_empty (index_errors 0 [] transcript)
    then ok (indexed 0 transcript)
    else observation_error (index_errors 0 [] transcript)

abbrev pub speaker_name : Speaker → String
speaker_name agent = "agent"
speaker_name debtor = "debtor"

abbrev pub says : Entry → Speaker → Bool
says entry speaker = elim entry.speaker [ some s ↦ s == speaker_name speaker | none ↦ false ]

-- `str(entry.get("text", entry.get("utterance_text", "")))`
abbrev pub entry_text : Entry → String
entry_text entry = elim entry.text [
  | some t ↦ t
  | none ↦ elim entry.utterance_text [ some u ↦ u | none ↦ "" ]
]

-- The excerpt stands in what was said, up to white space.
abbrev pub quotes : Entry → Evidence → Bool
quotes entry evidence = contains_text (normalize evidence.excerpt) (normalize (entry_text entry))

-- `_validate_evidence`
unfoldable pub validate_evidence : List (ℕ × Entry) → ℕ → ℕ → Evidence → List Issue
validate_evidence by_sequence category index evidence =
    elim (lookup evidence.sequence_number by_sequence) [
      | none ↦ issue unknown_reference (evidence_sequence category index) no_such_sequence ∷ []
      | some entry ↦
          issue_if (not (says entry evidence.speaker)) invalid_evidence
            (evidence_speaker category index) wrong_speaker
          ++ issue_if (not (quotes entry evidence)) invalid_evidence
              (evidence_excerpt category index) not_contained
    ]
