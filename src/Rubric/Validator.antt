-- ===== src/Rubric/Validator.antt =====
-- app/services/negotiation_standard_validator.py. An issue's path and message are f-strings; they
-- are kept as constructors applied to what the code interpolates. A message that quotes a value
-- names the kind of the message, since the path leads to the value.
pub mod Spec
pub mod Unique
pub mod Laws
use cat_backend.Common.{
  ℕ, ◌+◌, ◌≡◌, String, Bool, not, List, [], ◌∷◌, ◌++◌, map, if◌then◌else◌, sum_of, is_empty,
}
use cat_backend.Common.Eq.{◌==◌, elem, Comparable, String-Eq, ℕ-Eq}
use cat_backend.Common.Sort.{sorted}
use cat_backend.Rubric.Content.{Criterion, Penalty, Block, Content}

pub data Code : Type 0 where
  required duplicate unknown_reference weights_must_total_100 : Code

pub data Location : Type 0 where
  blocks : Location
  block_id block_category block_display_order : ℕ → Location
  behavior_id violation_id penalty_violation_id : ℕ → ℕ → Location

pub data Message : Type 0 where
  duplicate_block_id duplicate_category duplicate_display_order : Message
  duplicate_criterion_id duplicate_violation_id : Message
  unknown_violation id_reused at_least_one_block : Message
  weights_total : ℕ → Message

pub record Issue : Type 0 where
  pub code : Code
  pub path : Location
  pub message : Message

pub record ValidationResult : Type 0 where
  pub valid : Bool
  pub weight_total : ℕ
  pub errors : List Issue

abbrev pub issue : Code → Location → Message → Issue
issue c p m = record { code = c; path = p; message = m }

-- `_check_unique`: a value whose key was seen before is reported at its own path.
module _ {K : Type 0} ⦃e : Comparable K⦄ (message : Message) where
  unfoldable pub check_unique : List K → List (K × Location) → List Issue
  check_unique seen [] = []
  check_unique seen ((key, path) ∷ values) =
      let used = elem key seen in
      (if used then issue duplicate path message ∷ [] else [])
      ++ check_unique (if used then seen else key ∷ seen) values

-- The lists that the loop over the blocks collects, each value with its path.
module _ (casefold : String → String) where
  unfoldable pub criterion_ids : (ℕ → Location) → ℕ → List Criterion → List (String × Location)
  criterion_ids at i [] = []
  criterion_ids at i (c ∷ cs) = (casefold c.id, at i) ∷ criterion_ids at (i + 1) cs

  unfoldable pub block_ids : ℕ → List Block → List (String × Location)
  block_ids i [] = []
  block_ids i (b ∷ bs) = (casefold b.id, block_id i) ∷ block_ids (i + 1) bs

  unfoldable pub categories : ℕ → List Block → List (String × Location)
  categories i [] = []
  categories i (b ∷ bs) = (casefold b.category, block_category i) ∷ categories (i + 1) bs

  unfoldable pub all_criterion_ids : ℕ → List Block → List (String × Location)
  unfolding criterion_ids
  all_criterion_ids i [] = []
  all_criterion_ids i (b ∷ bs) =
      criterion_ids (behavior_id i) 0 b.positive_behaviors ++ all_criterion_ids (i + 1) bs

  unfoldable pub all_violation_ids : ℕ → List Block → List (String × Location)
  unfolding criterion_ids
  all_violation_ids i [] = []
  all_violation_ids i (b ∷ bs) =
      criterion_ids (violation_id i) 0 b.violations ++ all_violation_ids (i + 1) bs

  abbrev pub folded_ids : List Criterion → List String
  folded_ids = map (λ c. casefold c.id)

  -- The penalties of one block that name no violation of that block.
  unfoldable pub penalty_errors : ℕ → List String → ℕ → List Penalty → List Issue
  penalty_errors i known j [] = []
  penalty_errors i known j (p ∷ ps) =
      (if elem (casefold p.violation_id) known
        then []
        else issue unknown_reference (penalty_violation_id i j) unknown_violation ∷ [])
      ++ penalty_errors i known (j + 1) ps

  unfoldable pub block_penalty_errors : ℕ → List Block → List Issue
  unfolding penalty_errors
  block_penalty_errors i [] = []
  block_penalty_errors i (b ∷ bs) =
      penalty_errors i (folded_ids b.violations) 0 b.penalties ++ block_penalty_errors (i + 1) bs

-- The last loop: a violation whose id some criterion of the rubric has.
unfoldable pub reuse_errors : List String → List (String × Location) → List Issue
reuse_errors known [] = []
reuse_errors known ((key, path) ∷ values) =
    (if elem key known then issue duplicate path id_reused ∷ [] else [])
    ++ reuse_errors known values

unfoldable pub display_orders : ℕ → List Block → List (ℕ × Location)
display_orders i [] = []
display_orders i (b ∷ bs) = (b.display_order, block_display_order i) ∷ display_orders (i + 1) bs

abbrev pub keys : {K : Type 0} → List (K × Location) → List K
keys = map (λ v. v.0)

-- `casefold` is Python's; `issue_le` is the order of the rendered (path, code, message).
module _ (casefold : String → String) (issue_le : Issue → Issue → Bool) where
  -- `_validate_blocks`
  unfoldable pub validate_blocks : List Block → List Issue
  unfolding check_unique block_penalty_errors reuse_errors
  validate_blocks bs =
      block_penalty_errors casefold 0 bs
      ++ check_unique duplicate_block_id [] (block_ids casefold 0 bs)
      ++ check_unique duplicate_category [] (categories casefold 0 bs)
      ++ check_unique duplicate_display_order [] (display_orders 0 bs)
      ++ check_unique duplicate_criterion_id [] (all_criterion_ids casefold 0 bs)
      ++ check_unique duplicate_violation_id [] (all_violation_ids casefold 0 bs)
      ++ reuse_errors (keys (all_criterion_ids casefold 0 bs)) (all_violation_ids casefold 0 bs)

  unfoldable pub issues_of : Content → List Issue
  unfolding validate_blocks
  issues_of content =
      (if is_empty content.blocks then issue required blocks at_least_one_block ∷ [] else [])
      ++ validate_blocks content.blocks
      ++ (if not (sum_of (λ b. b.weight) content.blocks == 100)
          then issue weights_must_total_100 blocks
              (weights_total (sum_of (λ b. b.weight) content.blocks))
            ∷ []
          else [])

  -- `validate_standard`; the argument `for_publish` changes nothing.
  unfoldable pub validate_standard : Content → Bool → ValidationResult
  unfolding issues_of sorted
  validate_standard content for_publish =
      let errors = sorted issue_le (issues_of content) in
      record {
        valid = is_empty errors;
        weight_total = sum_of (λ b. b.weight) content.blocks;
        errors = errors;
      }
