-- ===== src/Rubric/Score/Bounds.antt =====
-- The bounds of one category's score, and of the weights that the categories have together.
use native.Mathlib.Omega.{arith}
use text.Mathlib.TextEquality.{eq_iff}
use cat_backend.Common.{
  ℕ, ◌+◌, ◌*◌, ◌/◌, ◌≤◌, ◌≡◌, refl, ap, String, true, false, List, [], ◌∷◌, map, none, some,
  if◌then◌else◌, sum_of, All, inl, inr, Bool-cases, Option-cases,
}
use cat_backend.Common.Eq.{◌==◌, String-Eq, elem, distinct, beq_comm}
use cat_backend.Common.Dict.{lookup}
use cat_backend.Rubric.Content.{Block, IsBlock}
use cat_backend.Rubric.Findings.{CategoryObservation, IsCategory}
use cat_backend.Rubric.Score.{one, money, penalized, score_category, resolve, fields_ok}

-- Rounding leaves a whole number of hundredths alone.
pub money_exact : (n : ℕ) → money (n * 100) ≡ n * 100
unfolding money
money_exact n = omega arith

-- A contribution is the exact product: nothing is lost by the rounding.
pub contribution_exact : (p w : ℕ) → money (p * w * one / 100) ≡ p * w * 100
unfolding money
contribution_exact p w = omega arith

abbrev weight_at : List (String × Block) → String → ℕ
weight_at d id = elim (lookup id d) [ none ↦ 0 | some b ↦ b.weight ]

share : String → ℕ → String → ℕ
share k w id = if k == id then w else 0

weight_at-cons :
    (k : String) (b : Block) (d : List (String × Block)) (id : String)
    → weight_at ((k, b) ∷ d) id ≤ share k b.weight id + weight_at d id
unfolding share
weight_at-cons k b d id = ground arith

sum-share_absent :
    (k : String) (w : ℕ) (ids : List String) → elem k ids ≡ false → sum_of (share k w) ids ≡ 0
unfolding share
sum-share_absent k w [] h = refl
sum-share_absent k w (x ∷ xs) h = ground (arith, beq_comm k x, sum-share_absent k w xs)

sum-share :
    (k : String) (w : ℕ) (ids : List String) → distinct ids ≡ true → sum_of (share k w) ids ≤ w
unfolding share
sum-share k w [] h = omega arith
sum-share k w (x ∷ xs) h = elim (Bool-cases (k == x)) [
  | inl same ↦
      let x_eq : k ≡ x = (eq_iff k x).0 same in
      let absent : elem k xs ≡ false = rw x_eq (ground arith) in
      ground (arith, sum-share_absent k w xs absent)
  | inr other ↦ ground (arith, sum-share k w xs)
]

sum_of-zero : (ids : List String) → sum_of (weight_at []) ids ≡ 0
sum_of-zero [] = refl
sum_of-zero (x ∷ xs) = omega (arith, sum_of-zero xs)

sum-weight_at-cons :
    (k : String) (b : Block) (d : List (String × Block)) (ids : List String)
    → sum_of (weight_at ((k, b) ∷ d)) ids ≤ sum_of (share k b.weight) ids + sum_of (weight_at d) ids
sum-weight_at-cons k b d [] = omega arith
sum-weight_at-cons k b d (x ∷ xs) =
    omega (arith, weight_at-cons k b d x, sum-weight_at-cons k b d xs)

-- Different ids take no more weight together than all blocks have.
sum-weight_at-le :
    (d : List (String × Block)) (ids : List String)
    → distinct ids ≡ true
    → sum_of (weight_at d) ids ≤ sum_of (λ e. e.1.weight) d
sum-weight_at-le [] ids h = rw sum_of-zero (omega arith)
sum-weight_at-le ((k, b) ∷ d) ids h =
    omega
      (arith, sum-weight_at-cons k b d ids, sum-share k b.weight ids h, sum-weight_at-le d ids h)

sum-blocks_by_id :
    (bs : List Block)
    → sum_of {A = String × Block} (λ e. e.1.weight) (map (λ b. (b.id, b)) bs)
      ≡ sum_of (λ b. b.weight) bs
sum-blocks_by_id [] = refl
sum-blocks_by_id (b ∷ bs) = ap (λ n. b.weight + n) (sum-blocks_by_id bs)

-- What a successful `resolve` has done for the first category and for the others.
pub resolve-cons :
    (blocks : List (String × Block)) (c : CategoryObservation) (cs : List CategoryObservation)
    {pairs : List (CategoryObservation × Block)}
    → resolve blocks (c ∷ cs) ≡ some pairs
    → (b : Block) × (rest : List (CategoryObservation × Block)) × (lookup c.rubric_block_id blocks
        ≡ some b)
      × (resolve blocks cs ≡ some rest)
      × ((c, b) ∷ rest ≡ pairs)
unfolding resolve
resolve-cons blocks c cs h = elim (Option-cases (lookup c.rubric_block_id blocks)) [
  | inl missing ↦ cc (rw (missing, resolve) at h)
  | inr (b, found) ↦ elim (Option-cases (resolve blocks cs)) [
    | inl failed ↦ absurd (ground arith)
    | inr (rest, done) ↦ (b, rest, found, done, ground arith)
  ]
]

pub sum-resolve :
    (blocks : List (String × Block)) (cs : List CategoryObservation)
    {pairs : List (CategoryObservation × Block)}
    → resolve blocks cs ≡ some pairs
    → sum_of (λ p. p.1.weight) pairs ≡ sum_of (weight_at blocks) (map (λ c. c.rubric_block_id) cs)
unfolding resolve
sum-resolve blocks [] {pairs} h = let same : [] ≡ pairs = cc h in rw (← same) refl
sum-resolve blocks (c ∷ cs) {pairs} h =
    let (b, rest, found, done, same) = resolve-cons blocks c cs h in
    let own : weight_at blocks c.rubric_block_id ≡ b.weight = ground arith in
    let others = sum-resolve blocks cs done in rw (← same) (omega (arith, own, others))

-- The categories of an accepted report weigh no more than the rubric's blocks.
pub sum-weight-le :
    (bs : List Block) (cs : List CategoryObservation) {pairs : List (CategoryObservation × Block)}
    → distinct (map (λ c. c.rubric_block_id) cs) ≡ true
    → resolve (map (λ b. (b.id, b)) bs) cs ≡ some pairs
    → sum_of (λ p. p.1.weight) pairs ≤ sum_of (λ b. b.weight) bs
sum-weight-le bs cs d h = omega (
  arith,
  sum-resolve _ cs h,
  sum-weight_at-le (map (λ b. (b.id, b)) bs) (map (λ c. c.rubric_block_id) cs) d,
  sum-blocks_by_id bs,
)

-- What holds of all blocks and of all categories holds of the pairs.
lookup-All :
    (P : Block → Type 0) (bs : List Block) (id : String) {b : Block}
    → All P bs
    → lookup id (map (λ b. (b.id, b)) bs) ≡ some b
    → P b
lookup-All P [] id h e = cc
lookup-All P (c ∷ bs) id {b} (p, ps) e = elim (Option-cases (lookup id (map (λ b. (b.id, b)) bs))) [
  | inr (d, found) ↦ lookup-All P bs id ps (ground arith)
  | inl missing ↦ let same : c ≡ b = ground arith in rw (← same) p
]

abbrev pub IsBounded : CategoryObservation × Block → Type 0
IsBounded (c, b) = IsCategory c × IsBlock b

pub resolve-IsBounded :
    (bs : List Block) (cs : List CategoryObservation) {pairs : List (CategoryObservation × Block)}
    → All IsBlock bs
    → All IsCategory cs
    → resolve (map (λ b. (b.id, b)) bs) cs ≡ some pairs
    → All IsBounded pairs
unfolding resolve
resolve-IsBounded bs [] {pairs} hb hc h = let same : [] ≡ pairs = cc h in rw (← same) tt
resolve-IsBounded bs (c ∷ cs) {pairs} hb (h, hs) e =
    let (b, rest, found, done, same) = resolve-cons (map (λ b. (b.id, b)) bs) c cs e in
    rw (← same)
      ((h, lookup-All IsBlock bs c.rubric_block_id hb found), resolve-IsBounded bs cs hb hs done)

pub contribution_le : (p w : ℕ) → p ≤ 100 → money (p * w * one / 100) ≤ w * one
contribution_le p w h = rw contribution_exact (grind arith)

-- One category: its fields are in range, and its contribution is at most its weight.
pub score_category_bounds :
    (p : CategoryObservation × Block)
    → IsBounded p
    → (fields_ok (score_category p) ≡ true)
      × ((score_category p).weighted_contribution ≤ p.1.weight * one)
unfolding score_category fields_ok
score_category_bounds (c, b) (hc, hb) = elim (Option-cases c.raw_score) [
  | inl absent ↦ (ground arith, ground arith)
  | inr (raw, given) ↦
      let raw_le : raw ≤ 100 = rw given at (hc.score_le) in
      let share_le = contribution_le (penalized raw c b) b.weight (omega arith) in
      (ground (arith, share_le), ground (arith, share_le))
]
