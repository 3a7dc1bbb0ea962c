-- ===== src/Rubric/Validator/Spec.antt =====
-- When a rubric can be published, said without the validator's traversals.
use cat_backend.Common.{◌≡◌, ◌≢◌, String, true, List, [], map, sum_of, flat_map, All, Member}
use cat_backend.Common.Eq.{distinct, String-Eq, ℕ-Eq}
use cat_backend.Rubric.Content.{Criterion, Penalty, Block, Content}

module _ (casefold : String → String) where
  abbrev pub ids_of : List Criterion → List String
  ids_of = map (λ c. casefold c.id)

  abbrev pub all_behaviors : List Block → List String
  all_behaviors = flat_map (λ b. ids_of b.positive_behaviors)

  abbrev pub all_violations : List Block → List String
  all_violations = flat_map (λ b. ids_of b.violations)

  -- A penalty refers to a violation of its own block.
  abbrev pub HasViolation : Block → Penalty → Type 0
  HasViolation b p = Member (casefold p.violation_id) (ids_of b.violations)

  abbrev pub IsClosed : Block → Type 0
  IsClosed b = All (HasViolation b) b.penalties

  pub record IsPublishable (c : Content) : Type 0 where
    pub has_blocks : c.blocks ≢ []
    pub weights : sum_of (λ b. b.weight) c.blocks ≡ 100
    pub closed : All IsClosed c.blocks
    pub ids : distinct (map (λ b. casefold b.id) c.blocks) ≡ true
    pub categories : distinct (map (λ b. casefold b.category) c.blocks) ≡ true
    pub orders : distinct (map (λ b. b.display_order) c.blocks) ≡ true
    pub behaviors : distinct (all_behaviors c.blocks) ≡ true
    pub violations : distinct (all_violations c.blocks) ≡ true
    pub disjoint : All (λ v. ¬ Member v (all_behaviors c.blocks)) (all_violations c.blocks)
