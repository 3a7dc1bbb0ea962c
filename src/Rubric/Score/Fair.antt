-- ===== src/Rubric/Score/Fair.antt =====
-- What a computed result says: its total is the exact weighted sum, and who passes.
use Prim.Native.Nat.{min}
use native.Mathlib.Omega.{arith}
use cat_backend.Common.{
  ℕ, ◌+◌, ◌*◌, ◌≤◌, ◌≡◌, refl, sym, ◌∙◌, ◌↔◌, String, true, ◌&&◌, List, [], ◌∷◌, map, none, some,
  sum_of, all, all→All, All→all, All, inl, inr, Option-cases, leb,
}
use cat_backend.Common.Eq.{String-Eq, ℕ-Eq}
use cat_backend.Common.Sort.{sorted, All-sorted, All-of-sorted, sum_of-sorted}
use cat_backend.Rubric.Content.{Penalty, Block}
use cat_backend.Rubric.Findings.{Status, evaluated, Finding, CategoryObservation}
use cat_backend.Rubric.Observation.Validate.{ValidatedObservation, blocks_by_id}
use cat_backend.Rubric.Score.{
  one, CanonicalResult, ok, occurrences, deduction_of, penalty_total, penalized, score_category,
  by_display_order, resolve, conclude, is_evaluated, calculate_rubric_score,
}
use cat_backend.Rubric.Score.Bounds.{money_exact, contribution_exact}

-- The hundredths of a point that a category earns: its penalized score times its weight.
abbrev pub earned : CategoryObservation × Block → ℕ
earned (c, b) = elim c.raw_score [ none ↦ 0 | some raw ↦ penalized raw c b * b.weight ]

-- The category has a score, which reaches the block's passing score after the penalties.
abbrev pub Reaches : CategoryObservation × Block → Type 0
Reaches (c, b) = (raw : ℕ) × (c.raw_score ≡ some raw) × (b.passing_score ≤ penalized raw c b)

contribution_of :
    (p : CategoryObservation × Block) → (score_category p).weighted_contribution ≡ earned p * 100
unfolding score_category
contribution_of (c, b) = elim (Option-cases c.raw_score) [
  | inl absent ↦ ground arith
  | inr (raw, given) ↦ ground (arith, contribution_exact (penalized raw c b) b.weight)
]

sum-contribution :
    (ps : List (CategoryObservation × Block))
    → sum_of (λ s. s.weighted_contribution) (map score_category ps) ≡ sum_of earned ps * 100
sum-contribution [] = refl
sum-contribution (p ∷ ps) = omega (arith, contribution_of p, sum-contribution ps)

passed→Reaches : (p : CategoryObservation × Block) → (score_category p).passed ≡ true → Reaches p
unfolding score_category
passed→Reaches (c, b) h = elim (Option-cases c.raw_score) [
  | inl absent ↦ absurd (ground arith)
  | inr (raw, given) ↦ (raw, given, ground arith)
]

Reaches→passed : (p : CategoryObservation × Block) → Reaches p → (score_category p).passed ≡ true
unfolding score_category
Reaches→passed (c, b) (raw, given, enough) = ground arith

all-passed :
    (ps : List (CategoryObservation × Block))
    → all (λ s. s.passed) (map score_category ps) ≡ all (λ p. (score_category p).passed) ps
all-passed [] = refl
all-passed (p ∷ ps) = ground (arith, all-passed ps)

is_evaluated_iff : (s : Status) → (is_evaluated s ≡ true) ↔ (s ≡ evaluated)
is_evaluated_iff s = ground arith

module _ (v : ValidatedObservation) {pairs : List (CategoryObservation × Block)}
    {r : CanonicalResult}
    (found : resolve (blocks_by_id v.snapshot) v.observation.categories ≡ some pairs)
    (done : calculate_rubric_score v ≡ ok r) where
  result-eq :
      conclude v.observation v.snapshot (map score_category (sorted by_display_order pairs)) ≡ r
  unfolding calculate_rubric_score
  result-eq = ground arith

  -- The weighted total is exactly the sum of penalized score times weight, in hundredths: the
  -- rounding to two places loses nothing, and the order of the categories does not matter.
  pub weighted_total_exact : r.weighted_total ≡ sum_of earned pairs * 100
  unfolding conclude
  weighted_total_exact =
      rw (← result-eq)
        (rw (sum-contribution, sum_of-sorted by_display_order earned pairs, money_exact) refl)

  abbrev ordered : List (CategoryObservation × Block)
  ordered = sorted by_display_order pairs

  passed-eq : r.passed ≡ (
      is_evaluated v.observation.status
      && leb (v.snapshot.overall_passing_score * one) (sum_of earned pairs * 100)
      && all (λ p. (score_category p).passed) ordered)
  unfolding conclude
  passed-eq = rw (← result-eq) (
      rw (sum-contribution, sum_of-sorted by_display_order earned pairs, money_exact, all-passed)
        refl)

  -- The call passes exactly when it was evaluated, its total reaches the rubric's passing score,
  -- and every category has a score that reaches its own passing score after the penalties.
  pub passed_iff : (r.passed ≡ true) ↔ (
      (v.observation.status ≡ evaluated)
      × (v.snapshot.overall_passing_score * 100 ≤ sum_of earned pairs)
      × All Reaches pairs)
  passed_iff = (
    λ h.
        let split = sym passed-eq ∙ h in
        (
          (is_evaluated_iff v.observation.status).0 (ground arith),
          ground arith,
          All-of-sorted by_display_order Reaches pairs
              (all→All _ Reaches passed→Reaches ordered (ground arith)),
        ),
    λ (e, t, q).
        let reach =
          All→all (λ p. (score_category p).passed) Reaches Reaches→passed ordered
            (All-sorted by_display_order Reaches pairs q) in
        passed-eq ∙ ground (arith, (is_evaluated_iff v.observation.status).1 e, reach),
  )

-- One more violation finding, whatever it names, never lowers the deductions of a block.
occurrences-cons-le :
    (id : String) (f : Finding) (fs : List Finding) → occurrences id fs ≤ occurrences id (f ∷ fs)
unfolding occurrences
occurrences-cons-le id f fs = ground arith

deduction_of-cons-le :
    (f : Finding) (fs : List Finding) (p : Penalty) → deduction_of fs p ≤ deduction_of (f ∷ fs) p
deduction_of-cons-le f fs p =
    let n : ℕ = occurrences p.violation_id fs in
    let m : ℕ = occurrences p.violation_id (f ∷ fs) in
    let more : n ≤ m = occurrences-cons-le p.violation_id f fs in
    let capped : min n p.max_occurrences ≤ min m p.max_occurrences = omega arith in
    grind (arith, capped)

penalty_total-cons-le :
    (f : Finding) (fs : List Finding) (ps : List Penalty)
    → penalty_total fs ps ≤ penalty_total (f ∷ fs) ps
unfolding penalty_total
penalty_total-cons-le f fs [] = omega arith
penalty_total-cons-le f fs (p ∷ ps) =
    omega (arith, deduction_of-cons-le f fs p, penalty_total-cons-le f fs ps)

-- A violation that no penalty of the block names costs nothing; any finding leaves the penalized
-- score between what it was and zero, and the deductions stay below the configured caps.
deduction-le :
    (fs : List Finding) (p : Penalty) → deduction_of fs p ≤ p.max_occurrences * p.deduction
deduction-le fs p =
    let n : ℕ = occurrences p.violation_id fs in
    let capped : min n p.max_occurrences ≤ p.max_occurrences = omega arith in grind (arith, capped)

penalty_total-le-caps :
    (fs : List Finding) (ps : List Penalty)
    → penalty_total fs ps ≤ sum_of (λ p. p.max_occurrences * p.deduction) ps
unfolding penalty_total
penalty_total-le-caps fs [] = omega arith
penalty_total-le-caps fs (p ∷ ps) = omega (arith, deduction-le fs p, penalty_total-le-caps fs ps)

-- A further violation finding never raises a penalized score, and all deductions of a block
-- together stay within the sum of its penalties' caps.
pub violation_never_helps :
    (raw : ℕ) (c : CategoryObservation) (b : Block) (f : Finding)
    → (penalized raw (record c { violations = f ∷ c.violations }) b ≤ penalized raw c b)
      × (raw ≤ penalized raw c b + sum_of (λ p. p.max_occurrences * p.deduction) b.penalties)
violation_never_helps raw c b f = (
  omega (arith, penalty_total-cons-le f c.violations b.penalties),
  omega (arith, penalty_total-le-caps c.violations b.penalties),
)
