-- ===== src/Common/Sort.antt =====
-- Python's `sorted`: a stable insertion sort by a Boolean order on the items.
use Prim.Native.Nat.{ℕ, suc, ◌+◌}
use mathlib.Core.Path.{◌≡◌, refl}
use mathlib.Core.Bool.{Bool, false}
use mathlib.Core.List.{List, [], ◌∷◌, Perm}
use mathlib.Core.List.Perm
use mathlib.Core.Logic.{inl, inr}
use native.Mathlib.Omega.{arith}
use cat_backend.Common.Tests.{if◌then◌else◌, Bool-cases}
use cat_backend.Common.Lists.{length, sum_of, All, is_empty}

module _ {ℓ} {A : Type ℓ} (le : A → A → Bool) where
  abbrev pub insert : A → List A → List A
  insert a [] = a ∷ []
  insert a (x ∷ xs) = if le a x then a ∷ x ∷ xs else x ∷ insert a xs

  unfoldable pub sorted : List A → List A
  sorted [] = []
  sorted (x ∷ xs) = insert x (sorted xs)

  insert-perm : (a : A) (xs : List A) → Perm (insert a xs) (a ∷ xs)
  insert-perm a [] = Perm.refl _
  insert-perm a (x ∷ xs) = elim (Bool-cases (le a x)) [
    | inl first ↦ rw first (Perm.refl _)
    | inr later ↦ rw later (Perm.trans (Perm.cons x (insert-perm a xs)) (Perm.swap a x xs))
  ]

  -- Sorting keeps every item as often as it was.
  pub sorted-perm : (xs : List A) → Perm (sorted xs) xs
  unfolding sorted
  sorted-perm [] = Perm.refl []
  sorted-perm (x ∷ xs) = Perm.trans (insert-perm x (sorted xs)) (Perm.cons x (sorted-perm xs))

  sum_of-insert : (f : A → ℕ) (a : A) (xs : List A) → sum_of f (insert a xs) ≡ f a + sum_of f xs
  sum_of-insert f a [] = refl
  sum_of-insert f a (x ∷ xs) = ground (arith, sum_of-insert f a xs)

  pub sum_of-sorted : (f : A → ℕ) (xs : List A) → sum_of f (sorted xs) ≡ sum_of f xs
  unfolding sorted
  sum_of-sorted f [] = refl
  sum_of-sorted f (x ∷ xs) = omega (arith, sum_of-insert f x (sorted xs), sum_of-sorted f xs)

  length-insert : (a : A) (xs : List A) → length (insert a xs) ≡ suc (length xs)
  length-insert a [] = refl
  length-insert a (x ∷ xs) = ground (arith, length-insert a xs)

  is_empty-insert : (a : A) (xs : List A) → is_empty (insert a xs) ≡ false
  is_empty-insert a [] = refl
  is_empty-insert a (x ∷ xs) = ground arith

  pub is_empty-sorted : (xs : List A) → is_empty (sorted xs) ≡ is_empty xs
  unfolding sorted
  is_empty-sorted [] = refl
  is_empty-sorted (x ∷ xs) = is_empty-insert x (sorted xs)

  pub length-sorted : (xs : List A) → length (sorted xs) ≡ length xs
  unfolding sorted
  length-sorted [] = refl
  length-sorted (x ∷ xs) = omega (arith, length-insert x (sorted xs), length-sorted xs)

  module _ {κ} (P : A → Type κ) where
    All-insert : (a : A) (xs : List A) → P a → All P xs → All P (insert a xs)
    All-insert a [] p h = (p, tt)
    All-insert a (x ∷ xs) p (q, h) = elim (Bool-cases (le a x)) [
      | inl first ↦ rw first (p, (q, h))
      | inr later ↦ rw later (q, All-insert a xs p h)
    ]

    pub All-sorted : (xs : List A) → All P xs → All P (sorted xs)
    unfolding sorted
    All-sorted [] h = tt
    All-sorted (x ∷ xs) (p, h) = All-insert x (sorted xs) p (All-sorted xs h)

    All-of-insert : (a : A) (xs : List A) → All P (insert a xs) → P a × All P xs
    All-of-insert a [] h = h
    All-of-insert a (x ∷ xs) h = elim (Bool-cases (le a x)) [
      | inl first ↦ rw (first, insert) at h
      | inr later ↦
          let g : P x × All P (insert a xs) = rw (later, insert) at h in
          let (p, hs) = All-of-insert a xs g.1 in (p, (g.0, hs))
    ]

    pub All-of-sorted : (xs : List A) → All P (sorted xs) → All P xs
    unfolding sorted
    All-of-sorted [] h = tt
    All-of-sorted (x ∷ xs) h =
        let (p, hs) = All-of-insert x (sorted xs) h in (p, All-of-sorted xs hs)
