-- ===== src/Rubric/Score.antt =====
-- app/services/rubric_score_calculator.py. A `Decimal` is counted in ten-thousandths, which hold
-- every product that is rounded here; a rounded value is a multiple of 100 of them. The callers
-- pass no snapshot of their own, so the comparison of two snapshots has nothing to compare.
pub mod Bounds
pub mod Total
pub mod Fair
use Prim.Native.Nat.{min, Ordering}
use Prim.Native.String.{compare as text_compare}
use cat_backend.Common.{
  ℕ, ◌+◌, ◌-◌, ◌*◌, ◌/◌, String, Bool, true, false, not, ◌&&◌, List, [], ◌∷◌, map, Option, none,
  some, if◌then◌else◌, leb, ltb, sum_of, all,
}
use cat_backend.Common.Eq.{◌==◌, String-Eq, ℕ-Eq}
use cat_backend.Common.Dict.{lookup}
use cat_backend.Common.Sort.{sorted}
use cat_backend.Rubric.Content.{Penalty, Block, Content}
use cat_backend.Rubric.Findings.{
  Status, evaluated, not_applicable, Finding, CategoryObservation, AiObservation,
}
use cat_backend.Rubric.Observation.Validate.{ValidatedObservation, blocks_by_id}

-- One, as a `Decimal`.
abbrev pub one : ℕ
one = 10000

-- `RubricCategoryScore`; the lists that it copies are those of `observation`.
pub record CategoryScore : Type 0 where
  pub rubric_block_id : String
  pub category : String
  pub raw_score : Option ℕ
  pub penalty_total : ℕ
  pub penalized_score : Option ℕ
  pub weight : ℕ
  pub weighted_contribution : ℕ
  pub passing_score : ℕ
  pub passed : Bool
  pub observation : CategoryObservation

-- `CanonicalEvaluationResult`; the technique lists are those of `observation`.
pub record CanonicalResult : Type 0 where
  pub status : Status
  pub summary : String
  pub categories : List CategoryScore
  pub weighted_total : ℕ
  pub passing_score : ℕ
  pub passed : Bool
  pub observation : AiObservation

-- What `calculate_rubric_score` raises: its own error, a `KeyError` for an unknown block, or the
-- refusal of a result by the field limits of the two schemas.
pub data ScoreOutcome : Type 0 where
  ok : CanonicalResult → ScoreOutcome
  invariant_error key_error field_error : ScoreOutcome

-- `_money`: to two decimal places, half up.
unfoldable pub money : ℕ → ℕ
money value = (value + 50) / 100 * 100

-- `Counter(...)[id]`
unfoldable pub occurrences : String → List Finding → ℕ
occurrences id [] = 0
occurrences id (f ∷ fs) = (if f.criterion_id == id then 1 else 0) + occurrences id fs

abbrev pub deduction_of : List Finding → Penalty → ℕ
deduction_of findings p = min (occurrences p.violation_id findings) p.max_occurrences * p.deduction

-- `_penalty_total`
unfoldable pub penalty_total : List Finding → List Penalty → ℕ
unfolding occurrences
penalty_total findings = sum_of (deduction_of findings)

-- `max(0, raw_score - penalty_total)`
abbrev pub penalized : ℕ → CategoryObservation → Block → ℕ
penalized raw c b = raw - penalty_total c.violations b.penalties

-- The body of the loop over the categories.
unfoldable pub score_category : CategoryObservation × Block → CategoryScore
unfolding money penalty_total
score_category (c, b) = record {
  rubric_block_id = b.id;
  category = b.category;
  raw_score = c.raw_score;
  penalty_total = elim c.raw_score [ none ↦ 0 | some raw ↦ penalty_total c.violations b.penalties ];
  penalized_score = elim c.raw_score [ none ↦ none | some raw ↦ some (penalized raw c b) ];
  weight = b.weight;
  weighted_contribution = elim c.raw_score [
    | none ↦ 0
    | some raw ↦ money (penalized raw c b * b.weight * one / 100)
  ];
  passing_score = b.passing_score;
  passed = elim c.raw_score [ none ↦ false | some raw ↦ leb b.passing_score (penalized raw c b) ];
  observation = c;
}

abbrev pub text_leb : String → String → Bool
text_leb s t = elim (text_compare s t) [ Ordering.gt ↦ false | _ ↦ true ]

-- The sort key: the block's display order, then the block id.
abbrev pub by_display_order : CategoryObservation × Block → CategoryObservation × Block → Bool
by_display_order (c, a) (d, b) =
    if a.display_order == b.display_order
    then text_leb c.rubric_block_id d.rubric_block_id
    else ltb a.display_order b.display_order

-- `blocks[item.rubric_block_id]` for every category; `none` is a `KeyError`.
unfoldable pub resolve :
    List (String × Block) → List CategoryObservation → Option (List (CategoryObservation × Block))
resolve blocks [] = some []
resolve blocks (c ∷ cs) = elim (lookup c.rubric_block_id blocks) [
  | none ↦ none
  | some b ↦ elim (resolve blocks cs) [ none ↦ none | some rest ↦ some ((c, b) ∷ rest) ]
]

abbrev at_most : ℕ → Option ℕ → Bool
at_most limit none = true
at_most limit (some n) = leb n limit

-- The upper limits of the fields of `RubricCategoryScore`.
unfoldable pub fields_ok : CategoryScore → Bool
fields_ok s =
    at_most 100 s.raw_score
    && at_most 100 s.penalized_score
    && leb s.weight 100
    && leb s.weighted_contribution (100 * one)
    && leb s.passing_score 100

abbrev pub is_evaluated : Status → Bool
is_evaluated evaluated = true
is_evaluated not_applicable = false

-- The result for the categories in their order.
unfoldable pub conclude : AiObservation → Content → List CategoryScore → CanonicalResult
unfolding money
conclude o rubric scores = record {
  status = o.status;
  summary = o.summary;
  categories = scores;
  weighted_total = money (sum_of (λ s. s.weighted_contribution) scores);
  passing_score = rubric.overall_passing_score;
  passed =
      is_evaluated o.status
      && leb (rubric.overall_passing_score * one)
          (money (sum_of (λ s. s.weighted_contribution) scores))
      && all (λ s. s.passed) scores;
  observation = o;
}

unfoldable pub result_ok : CanonicalResult → Bool
unfolding fields_ok
result_ok r =
    all fields_ok r.categories && leb r.weighted_total (100 * one) && leb r.passing_score 100

unfoldable pub calculate_rubric_score : ValidatedObservation → ScoreOutcome
unfolding resolve score_category conclude result_ok sorted
calculate_rubric_score v =
    if not (sum_of (λ b. b.weight) v.snapshot.blocks == 100)
    then invariant_error
    else elim (resolve (blocks_by_id v.snapshot) v.observation.categories) [
      | none ↦ key_error
      | some pairs ↦
          let r =
            conclude v.observation v.snapshot
              (map score_category (sorted by_display_order pairs)) in
          if result_ok r then ok r else field_error
    ]
