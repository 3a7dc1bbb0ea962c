-- ===== src/Rubric/Validator/Laws.antt =====
-- `validate_standard` accepts exactly the publishable rubrics.
use mathlib.Core.List.{map-append}
use cat_backend.Common.{
  ℕ, ◌+◌, ◌≡◌, ◌≢◌, refl, ap, ◌∙◌, sym, ◌↔◌, String, Bool, true, false, not, ◌&&◌, List, [], ◌∷◌,
  map, arith, sum_of, is_empty, is_empty-append, all, all→All, All→all, Member,
}
use cat_backend.Common.Eq.{
  ◌==◌, elem, String-Eq, ℕ-Eq, distinct, elem→Member, Member→elem, not-elem→not-Member,
  not-Member→not-elem,
}
use cat_backend.Common.Sort.{is_empty-sorted}
use cat_backend.Rubric.Content.{Criterion, Penalty, Block, Content}
use cat_backend.Rubric.Validator.{
  Location, Issue, keys, criterion_ids, block_ids, categories, all_criterion_ids, all_violation_ids,
  penalty_errors, block_penalty_errors, reuse_errors, display_orders, validate_blocks, issues_of,
  validate_standard,
}
use cat_backend.Rubric.Validator.Spec.{
  ids_of, all_behaviors, all_violations, HasViolation, IsClosed, IsPublishable,
}
use cat_backend.Rubric.Validator.Unique.{is_empty-check_unique}

keys-display_orders :
    (i : ℕ) (bs : List Block) → keys (display_orders i bs) ≡ map (λ b. b.display_order) bs
unfolding display_orders
keys-display_orders i [] = refl
keys-display_orders i (b ∷ bs) = ap (λ r. b.display_order ∷ r) (keys-display_orders (i + 1) bs)

is_empty-reuse_errors :
    (known : List String) (values : List (String × Location))
    → is_empty (reuse_errors known values) ≡ all (λ v. not (elem v known)) (keys values)
unfolding reuse_errors
is_empty-reuse_errors known [] = refl
is_empty-reuse_errors known ((key, path) ∷ values) =
    ground (arith, is_empty-reuse_errors known values)

module _ (casefold : String → String) where
  keys-criterion_ids :
      (at : ℕ → Location) (i : ℕ) (cs : List Criterion)
      → keys (criterion_ids casefold at i cs) ≡ ids_of casefold cs
  unfolding criterion_ids
  keys-criterion_ids at i [] = refl
  keys-criterion_ids at i (c ∷ cs) = ap (λ r. casefold c.id ∷ r) (keys-criterion_ids at (i + 1) cs)

  keys-block_ids :
      (i : ℕ) (bs : List Block) → keys (block_ids casefold i bs) ≡ map (λ b. casefold b.id) bs
  unfolding block_ids
  keys-block_ids i [] = refl
  keys-block_ids i (b ∷ bs) = ap (λ r. casefold b.id ∷ r) (keys-block_ids (i + 1) bs)

  keys-categories :
      (i : ℕ) (bs : List Block)
      → keys (categories casefold i bs) ≡ map (λ b. casefold b.category) bs
  unfolding categories
  keys-categories i [] = refl
  keys-categories i (b ∷ bs) = ap (λ r. casefold b.category ∷ r) (keys-categories (i + 1) bs)

  keys-all_criterion_ids :
      (i : ℕ) (bs : List Block) → keys (all_criterion_ids casefold i bs) ≡ all_behaviors casefold bs
  unfolding all_criterion_ids
  keys-all_criterion_ids i [] = refl
  keys-all_criterion_ids i (b ∷ bs) =
      simp (map-append, keys-criterion_ids, keys-all_criterion_ids (i + 1) bs)

  keys-all_violation_ids :
      (i : ℕ) (bs : List Block)
      → keys (all_violation_ids casefold i bs) ≡ all_violations casefold bs
  unfolding all_violation_ids
  keys-all_violation_ids i [] = refl
  keys-all_violation_ids i (b ∷ bs) =
      simp (map-append, keys-criterion_ids, keys-all_violation_ids (i + 1) bs)

  abbrev names_known : List String → Penalty → Bool
  names_known known p = elem (casefold p.violation_id) known

  is_empty-penalty_errors :
      (i : ℕ) (known : List String) (j : ℕ) (ps : List Penalty)
      → is_empty (penalty_errors casefold i known j ps) ≡ all (names_known known) ps
  unfolding penalty_errors
  is_empty-penalty_errors i known j [] = refl
  is_empty-penalty_errors i known j (p ∷ ps) =
      ground (arith, is_empty-penalty_errors i known (j + 1) ps)

  abbrev closed : Block → Bool
  closed b = all (names_known (ids_of casefold b.violations)) b.penalties

  is_empty-block_penalty_errors :
      (i : ℕ) (bs : List Block) → is_empty (block_penalty_errors casefold i bs) ≡ all closed bs
  unfolding block_penalty_errors
  is_empty-block_penalty_errors i [] = refl
  is_empty-block_penalty_errors i (b ∷ bs) =
      rw (is_empty-append, is_empty-penalty_errors, is_empty-block_penalty_errors (i + 1) bs)

  -- The seven structural checks as one Boolean.
  abbrev blocks_ok : List Block → Bool
  blocks_ok bs =
      all closed bs
      && distinct (map (λ b. casefold b.id) bs)
      && distinct (map (λ b. casefold b.category) bs)
      && distinct (map (λ b. b.display_order) bs)
      && distinct (all_behaviors casefold bs)
      && distinct (all_violations casefold bs)
      && all (λ v. not (elem v (all_behaviors casefold bs))) (all_violations casefold bs)

  abbrev content_ok : Content → Bool
  content_ok c =
      not (is_empty c.blocks) && blocks_ok c.blocks && (sum_of (λ b. b.weight) c.blocks == 100)

  module _ (issue_le : Issue → Issue → Bool) where
    is_empty-validate_blocks :
        (bs : List Block) → is_empty (validate_blocks casefold issue_le bs) ≡ blocks_ok bs
    unfolding validate_blocks
    is_empty-validate_blocks bs = simp (
      is_empty-append, is_empty-block_penalty_errors, is_empty-check_unique, is_empty-reuse_errors,
      keys-block_ids, keys-categories, keys-display_orders, keys-all_criterion_ids,
      keys-all_violation_ids,
    )

    valid-validate_standard :
        (c : Content) (for_publish : Bool)
        → (validate_standard casefold issue_le c for_publish).valid ≡ content_ok c
    unfolding validate_standard issues_of
    valid-validate_standard c for_publish =
        rw (is_empty-sorted, is_empty-append, is_empty-append, is_empty-validate_blocks)
          (ground arith)

  -- The Boolean checks of one block, and of the ids, as the predicates of the specification.
  closed-IsClosed : (b : Block) → closed b ≡ true → IsClosed casefold b
  closed-IsClosed b = all→All _ (HasViolation casefold b) (λ p. elem→Member _ _) b.penalties

  IsClosed-closed : (b : Block) → IsClosed casefold b → closed b ≡ true
  IsClosed-closed b = All→all _ (HasViolation casefold b) (λ p. Member→elem _ _) b.penalties

  is_empty-false : (bs : List Block) → bs ≢ [] → is_empty bs ≡ false
  is_empty-false [] h = absurd (h refl)
  is_empty-false (b ∷ bs) h = refl

  ne-nil_of_not-is_empty : (bs : List Block) → is_empty bs ≡ false → bs ≢ []
  ne-nil_of_not-is_empty [] h = cc
  ne-nil_of_not-is_empty (b ∷ bs) h = λ e. cc

  content_ok-IsPublishable : (c : Content) → content_ok c ≡ true → IsPublishable casefold c
  content_ok-IsPublishable c h = record {
    has_blocks = ne-nil_of_not-is_empty c.blocks (ground arith);
    weights = ground arith;
    closed = all→All closed (IsClosed casefold) closed-IsClosed c.blocks (ground arith);
    ids = ground arith;
    categories = ground arith;
    orders = ground arith;
    behaviors = ground arith;
    violations = ground arith;
    disjoint =
        all→All _ (λ v. ¬ Member v (all_behaviors casefold c.blocks))
          (λ v. not-elem→not-Member v (all_behaviors casefold c.blocks))
          (all_violations casefold c.blocks) (ground arith);
  }

  IsPublishable-content_ok : (c : Content) → IsPublishable casefold c → content_ok c ≡ true
  IsPublishable-content_ok c h = rw (
    is_empty-false c.blocks h.has_blocks,
    All→all closed (IsClosed casefold) IsClosed-closed c.blocks h.closed,
    h.ids,
    h.categories,
    h.orders,
    h.behaviors,
    h.violations,
    All→all _ (λ v. ¬ Member v (all_behaviors casefold c.blocks))
        (λ v. not-Member→not-elem v (all_behaviors casefold c.blocks))
        (all_violations casefold c.blocks) h.disjoint,
    h.weights,
  )

  module _ (issue_le : Issue → Issue → Bool) where
    -- The validator accepts a rubric exactly when it has a block, its weights add up to 100, every
    -- penalty names a violation of its own block, and, after case folding, block ids, categories,
    -- display orders, criterion ids and violation ids are each pairwise different and no violation
    -- has the id of a criterion. Draft and publication validation agree.
    pub validate_standard_iff :
        (c : Content) (for_publish : Bool)
        → ((validate_standard casefold issue_le c for_publish).valid ≡ true)
          ↔ IsPublishable casefold c
    validate_standard_iff c for_publish = (
      λ v. content_ok-IsPublishable c (sym (valid-validate_standard issue_le c for_publish) ∙ v),
      λ p. valid-validate_standard issue_le c for_publish ∙ IsPublishable-content_ok c p,
    )
