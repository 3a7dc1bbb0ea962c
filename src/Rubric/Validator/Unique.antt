-- ===== src/Rubric/Validator/Unique.antt =====
-- `_check_unique` reports nothing exactly when the keys are pairwise different.
use cat_backend.Common.{◌≡◌, refl, Bool, true, not, ◌&&◌, List, [], ◌∷◌, all, arith, is_empty}
use cat_backend.Common.Eq.{elem, Comparable, distinct, beq_comm}
use cat_backend.Rubric.Validator.{Location, Message, check_unique, keys}

module _ {K : Type 0} ⦃e : Comparable K⦄ where
  -- None of the keys was seen before.
  abbrev all_new : List K → List K → Bool
  all_new seen = all (λ k. not (elem k seen))

  all_new-cons :
      (k : K) (seen ks : List K) → all_new (k ∷ seen) ks ≡ (not (elem k ks) && all_new seen ks)
  all_new-cons k seen [] = refl
  all_new-cons k seen (j ∷ ks) = ground (arith, beq_comm k j, all_new-cons k seen ks)

  all_new-nil : (ks : List K) → all_new [] ks ≡ true
  all_new-nil [] = refl
  all_new-nil (k ∷ ks) = all_new-nil ks

  check_unique-seen :
      (message : Message) (seen : List K) (values : List (K × Location))
      → is_empty (check_unique message seen values)
        ≡ (distinct (keys values) && all_new seen (keys values))
  unfolding check_unique
  check_unique-seen message seen [] = refl
  check_unique-seen message seen ((k, path) ∷ values) = ground (
    arith,
    check_unique-seen message seen values,
    check_unique-seen message (k ∷ seen) values,
    all_new-cons k seen (keys values),
  )

  pub is_empty-check_unique :
      (message : Message) (values : List (K × Location))
      → is_empty (check_unique message [] values) ≡ distinct (keys values)
  is_empty-check_unique message values =
      ground (arith, check_unique-seen message [] values, all_new-nil (keys values))
