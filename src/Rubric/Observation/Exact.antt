-- ===== src/Rubric/Observation/Exact.antt =====
-- `validate_observation` accepts exactly the grounded reports.
use cat_backend.Common.{
  ℕ, ◌+◌, ◌≡◌, refl, ◌↔◌, String, Bool, true, not, ◌&&◌, List, [], ◌∷◌, map, flat_map, some, All,
  Member, inl, inr, arith, Bool-cases, Option-cases, is_empty, if◌then◌else◌, all,
}
use cat_backend.Common.Eq.{elem, distinct, String-Eq, ℕ-Eq, elem→Member, Member→elem, beq_comm}
use text.Mathlib.TextEquality.{eq_iff}
use cat_backend.Common.Dict.{lookup}
use cat_backend.Common.Report.{Decides, Decides-append, Decides-enumerated, Decides-elem}
use cat_backend.Rubric.Content.{Block, Content}
use cat_backend.Rubric.Findings.{
  CategoryObservation, AppliedTechnique, MissedOpportunity, AiObservation,
}
use cat_backend.Rubric.Observation.{Entry, Issue, ok, indexed, index_errors, sequence_at}
use cat_backend.Rubric.Observation.Category.{sequences}
use cat_backend.Rubric.Observation.Validate.{
  blocks_by_id, block_ids, category_ids, dedup, difference_errors, coverage_errors, category_round,
  technique_sequence_errors, ValidatedObservation, valid_technique_names, technique_error,
  missed_error, observation_errors, validate_observation,
}
use cat_backend.Rubric.Observation.Grounded.{
  IsGroundedCategory, HasGroundedBlock, IsGroundedTechnique, IsGrounded,
}
use cat_backend.Rubric.Observation.Sound.{Decides-category_errors}

All-Member : (P : String → Type 0) (x : String) (xs : List String) → All P xs → Member x xs → P x
All-Member P x (y ∷ ys) (p, h) (inl e) = rw e at p
All-Member P x (y ∷ ys) (p, h) (inr m) = All-Member P x ys h m
All-Member P x [] h m = elim m [ ]

module _ (report : String → Issue) (right : List String) where
  abbrev reported : String → List Issue
  reported id = if elem id right then [] else report id ∷ []

  reported-Member : (id : String) → Decides (reported id) (Member id right)
  reported-Member id = (λ h. elem→Member id right (ground arith), λ m. rw (Member→elem id right m))

  Decides-dedup :
      (seen left : List String)
      → All (λ id. Member id right) seen
      → Decides (flat_map reported (dedup seen left)) (All (λ id. Member id right) left)
  Decides-dedup seen [] h = (λ e. tt, λ a. refl)
  Decides-dedup seen (x ∷ xs) h = elim (Bool-cases (elem x seen)) [
    | inl known ↦
        let x_in : Member x right = All-Member _ x seen h (elem→Member x seen known) in
        rw known (
          let (to, from) = Decides-dedup (x ∷ seen) xs (x_in, h) in
          (λ e. (x_in, to e), λ a. from a.1))
    | inr new ↦ rw new (
      λ e.
          let both =
            (Decides-append {P = Member x right}
                {Q = is_empty (flat_map reported (dedup (x ∷ seen) xs)) ≡ true} (reported x)
                (flat_map reported (dedup (x ∷ seen) xs)) (reported-Member x) (λ q. q, λ q. q)).0
              e in
          (both.0, (Decides-dedup (x ∷ seen) xs (both.0, h)).0 both.1),
      λ a.
          (Decides-append (reported x) (flat_map reported (dedup (x ∷ seen) xs)) (reported-Member x)
              (Decides-dedup (x ∷ seen) xs (a.0, h))).1
            a,
    )
  ]

  Decides-difference_errors :
      (left : List String)
      → Decides (difference_errors report left right) (All (λ id. Member id right) left)
  Decides-difference_errors left = Decides-dedup [] left tt

-- A dict built from the blocks has the blocks' ids for keys.
lookup_of_Member :
    (id : String) (bs : List Block)
    → Member id (map (λ b. b.id) bs)
    → (b : Block) × (lookup id (map (λ b. (b.id, b)) bs) ≡ some b)
lookup_of_Member id [] m = elim m [ ]
lookup_of_Member id (b ∷ bs) m = elim (Option-cases (lookup id (map (λ b. (b.id, b)) bs))) [
  | inr (c, e) ↦ (c, rw e)
  | inl missing ↦ elim m [
    | inl here ↦ (b, rw (missing, (eq_iff b.id id).1 here))
    | inr later ↦ let (c, e) = lookup_of_Member id bs later in absurd (cc (missing, e))
  ]
]

Member-lookup :
    (id : String) (bs : List Block) {b : Block}
    → lookup id (map (λ b. (b.id, b)) bs) ≡ some b
    → Member id (map (λ b. b.id) bs)
Member-lookup id [] h = cc
Member-lookup id (c ∷ bs) h = elim (Option-cases (lookup id (map (λ b. (b.id, b)) bs))) [
  | inr (d, e) ↦ inr (Member-lookup id bs e)
  | inl missing ↦ inl ((eq_iff c.id id).0 (ground arith))
]

-- Whatever block the category's id names grounds it.
module _ (by_sequence : List (ℕ × Entry)) (blocks : List (String × Block)) where
  abbrev IsGroundedIfKnown : CategoryObservation → Type 0
  IsGroundedIfKnown c =
      (b : Block) → lookup c.rubric_block_id blocks ≡ some b → IsGroundedCategory by_sequence b c

  Decides-category_round :
      (i : ℕ) (c : CategoryObservation)
      → Decides (category_round by_sequence blocks i c) (IsGroundedIfKnown c)
  unfolding category_round
  Decides-category_round i c = elim (Option-cases (lookup c.rubric_block_id blocks)) [
    | inl missing ↦ rw (missing, category_round) (λ h b e. cc, λ g. refl)
    | inr (b, found) ↦
        rw (found, category_round)
          (
            λ h d e.
                let same : b ≡ d = cc e in
                rw (← same) ((Decides-category_errors by_sequence i b c).0 h),
            λ g. (Decides-category_errors by_sequence i b c).1 (g b refl),
          )
  ]

Decides-not : (b : Bool) (i : Issue) → Decides (if not b then i ∷ [] else []) (b ≡ true)
Decides-not b i = (λ h. ground arith, λ e. ground arith)

module _ (casefold : String → String) where
  Decides-technique_error :
      (rubric : Content) (by_sequence : List (ℕ × Entry)) (i : ℕ) (t : AppliedTechnique)
      → Decides
          (technique_error casefold
            (valid_technique_names casefold rubric)
            (sequences by_sequence)
            i
            t)
          (IsGroundedTechnique casefold rubric by_sequence t)
  unfolding technique_error technique_sequence_errors
  Decides-technique_error rubric by_sequence i t =
      Decides-append _ _
        (Decides-elem (casefold t.technique_name) (valid_technique_names casefold rubric) _)
        (Decides-enumerated _ _ (λ j s. Decides-elem s (sequences by_sequence) _) 0
          t.evidence_sequence_numbers)

  Decides-missed_error :
      (names : List String) (i : ℕ) (m : MissedOpportunity)
      → Decides (missed_error casefold names i m) (Member (casefold m.technique_name) names)
  unfolding missed_error
  Decides-missed_error names i m = Decides-elem (casefold m.technique_name) names _

  Decides-coverage_errors :
      (rubric : Content) (o : AiObservation)
      → Decides (coverage_errors rubric o) (
          (distinct (category_ids o) ≡ true)
          × (All (λ id. Member id (category_ids o)) (block_ids rubric)
              × All (λ id. Member id (block_ids rubric)) (category_ids o)))
  unfolding coverage_errors
  Decides-coverage_errors rubric o =
      Decides-append _ _ (Decides-not (distinct (category_ids o)) _) (
        Decides-append _ _ (Decides-difference_errors _ (category_ids o) (block_ids rubric))
          (Decides-difference_errors _ (block_ids rubric) (category_ids o)))

  with_block :
      (rubric : Content) (by_sequence : List (ℕ × Entry)) (cs : List CategoryObservation)
      → All (λ id. Member id (block_ids rubric)) (map (λ c. c.rubric_block_id) cs)
      → All (IsGroundedIfKnown by_sequence (blocks_by_id rubric)) cs
      → All (HasGroundedBlock by_sequence (blocks_by_id rubric)) cs
  with_block rubric by_sequence [] k h = tt
  with_block rubric by_sequence (c ∷ cs) (k, ks) (h, hs) =
      let (b, found) = lookup_of_Member c.rubric_block_id rubric.blocks k in
      (
        record { block = b; found = found; grounded = h b found },
        with_block rubric by_sequence cs ks hs,
      )

  without_block :
      (rubric : Content) (by_sequence : List (ℕ × Entry)) (cs : List CategoryObservation)
      → All (HasGroundedBlock by_sequence (blocks_by_id rubric)) cs
      → All (λ id. Member id (block_ids rubric)) (map (λ c. c.rubric_block_id) cs)
        × All (IsGroundedIfKnown by_sequence (blocks_by_id rubric)) cs
  without_block rubric by_sequence [] h = (tt, tt)
  without_block rubric by_sequence (c ∷ cs) (h, hs) =
      let (ks, gs) = without_block rubric by_sequence cs hs in
      (
        (Member-lookup c.rubric_block_id rubric.blocks h.found, ks),
        (λ b e. let same : h.block ≡ b = cc (h.found, e) in rw (← same) (h.grounded), gs),
      )

  Decides-observation_errors :
      (rubric : Content) (by_sequence : List (ℕ × Entry)) (o : AiObservation)
      → Decides
          (observation_errors casefold rubric by_sequence o)
          (IsGrounded casefold rubric by_sequence o)
  unfolding observation_errors
  Decides-observation_errors rubric by_sequence o =
      let parts = Decides-append _ _ (Decides-coverage_errors rubric o) (
        Decides-append _ _
          (Decides-enumerated (IsGroundedIfKnown by_sequence (blocks_by_id rubric)) _
            (Decides-category_round by_sequence (blocks_by_id rubric)) 0 o.categories)
          (Decides-append _ _
            (Decides-enumerated _ _ (Decides-technique_error rubric by_sequence) 0
              o.techniques_used)
            (Decides-enumerated
              (λ m. Member (casefold m.technique_name) (valid_technique_names casefold rubric)) _
              (Decides-missed_error (valid_technique_names casefold rubric)) 0
              o.missed_techniques))) in
      (
        λ h.
            let ((once, (complete, known)), (cats, (techs, missed))) = parts.0 h in
            record {
              once = once;
              complete = complete;
              categories = with_block rubric by_sequence o.categories known cats;
              techniques = techs;
              missed = missed;
            },
        λ g.
            let (known, cats) = without_block rubric by_sequence o.categories g.categories in
            parts.1 ((g.once, (g.complete, known)), (cats, (g.techniques, g.missed))),
      )

-- The sequence numbers under which the entries are stored.
abbrev pub stored : List Entry → List ℕ
stored transcript = sequences (indexed 0 transcript)

abbrev all_unseen : List ℕ → List ℕ → Bool
all_unseen seen = all (λ s. not (elem s seen))

all_unseen-cons :
    (s : ℕ) (seen ss : List ℕ) → all_unseen (s ∷ seen) ss ≡ (not (elem s ss) && all_unseen seen ss)
all_unseen-cons s seen [] = refl
all_unseen-cons s seen (t ∷ ts) = ground (arith, beq_comm s t, all_unseen-cons s seen ts)

all_unseen-nil : (ss : List ℕ) → all_unseen [] ss ≡ true
all_unseen-nil [] = refl
all_unseen-nil (s ∷ ss) = all_unseen-nil ss

is_empty-index_errors :
    (i : ℕ) (seen : List ℕ) (es : List Entry)
    → is_empty (index_errors i seen es)
      ≡ (distinct (sequences (indexed i es)) && all_unseen seen (sequences (indexed i es)))
unfolding index_errors indexed
is_empty-index_errors i seen [] = refl
is_empty-index_errors i seen (e ∷ es) = ground (
  arith,
  is_empty-index_errors (i + 1) (sequence_at i e ∷ seen) es,
  all_unseen-cons (sequence_at i e) seen (sequences (indexed (i + 1) es)),
)

is_empty-index_errors_start :
    (es : List Entry) → is_empty (index_errors 0 [] es) ≡ distinct (stored es)
is_empty-index_errors_start es =
    ground (arith, is_empty-index_errors 0 [] es, all_unseen-nil (stored es))

module _ (casefold : String → String) (issue_le : Issue → Issue → Bool) where
  abbrev validated : AiObservation → Content → List Entry → ValidatedObservation
  validated o rubric transcript = record {
    observation = o;
    snapshot = rubric;
    transcript = transcript;
  }

  -- A report is accepted, unchanged and with its rubric and transcript, exactly when the stored
  -- sequence numbers are pairwise different and the report is grounded in the rubric and in the
  -- transcript: every block is reported once and nothing else is, each excerpt was said by its
  -- speaker, findings, failed criteria and recommendations refer to declared criteria and to
  -- evidence of their category, and techniques are those of the rubric.
  pub validate_observation_iff :
      (o : AiObservation) (rubric : Content) (transcript : List Entry)
      → (validate_observation casefold issue_le o rubric transcript
          ≡ ok (record { observation = o; snapshot = rubric; transcript = transcript }))
        ↔ ((distinct (stored transcript) ≡ true)
            × IsGrounded casefold rubric (indexed 0 transcript) o)
  unfolding validate_observation
  validate_observation_iff o rubric transcript =
      let first = is_empty-index_errors_start transcript in
      let second = Decides-observation_errors casefold rubric (indexed 0 transcript) o in
      (
        λ h. (ground (arith, first), second.0 (ground (arith, first))),
        λ g. ground (arith, first, g.0, second.1 g.1),
      )

  pub validate_observation-eq :
      (o : AiObservation) (rubric : Content) (transcript : List Entry) {v : ValidatedObservation}
      → validate_observation casefold issue_le o rubric transcript ≡ ok v
      → v ≡ record { observation = o; snapshot = rubric; transcript = transcript }
  unfolding validate_observation
  validate_observation-eq o rubric transcript h = ground arith
