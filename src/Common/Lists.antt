-- ===== src/Common/Lists.antt =====
-- Lists measured by native numbers, and predicates on their items by recursion.
use Prim.Native.Nat.{ℕ, zero, suc, ◌+◌, ◌≤◌}
use mathlib.Core.Path.{◌≡◌, refl, ap}
use mathlib.Core.Logic.{◌⊎◌, inl, inr}
use mathlib.Core.Bool.{Bool, true, false, ◌&&◌, ◌||◌, and-eq-true_iff}
use mathlib.Core.List.{List, [], ◌∷◌, ◌++◌, map}
use native.Mathlib.Omega.{arith}
use cat_backend.Common.Tests.{if◌then◌else◌, Bool-cases}

module _ {ℓ} {A : Type ℓ} where
  abbrev pub length : List A → ℕ
  length [] = 0
  length (x ∷ xs) = suc (length xs)

  abbrev pub drop : ℕ → List A → List A
  drop zero xs = xs
  drop (suc n) [] = []
  drop (suc n) (x ∷ xs) = drop n xs

  abbrev pub all : (A → Bool) → List A → Bool
  all p [] = true
  all p (x ∷ xs) = p x && all p xs

  abbrev pub any : (A → Bool) → List A → Bool
  any p [] = false
  any p (x ∷ xs) = p x || any p xs

  -- `[x for x in xs if p(x)]`
  abbrev pub filter : (A → Bool) → List A → List A
  filter p [] = []
  filter p (x ∷ xs) = if p x then x ∷ filter p xs else filter p xs

  -- `[y for x in xs for y in f(x)]`
  abbrev pub flat_map {κ} : {B : Type κ} → (A → List B) → List A → List B
  flat_map f [] = []
  flat_map f (x ∷ xs) = f x ++ flat_map f xs

  -- `sum(f(x) for x in xs)`
  abbrev pub sum_of : (A → ℕ) → List A → ℕ
  sum_of f [] = 0
  sum_of f (x ∷ xs) = f x + sum_of f xs

  pub length-append : (xs ys : List A) → length (xs ++ ys) ≡ length xs + length ys
  length-append [] ys = omega arith
  length-append (x ∷ xs) ys = omega (arith, length-append xs ys)

  pub length-filter-le : (p : A → Bool) (xs : List A) → length (filter p xs) ≤ length xs
  length-filter-le p [] = omega arith
  length-filter-le p (x ∷ xs) = ground (arith, length-filter-le p xs)

-- Every item satisfies a predicate; some item equals a value.
module _ {ℓ κ} {A : Type ℓ} (P : A → Type κ) where
  abbrev pub All : List A → Type κ
  All [] = Unit
  All (x ∷ xs) = P x × All xs

  pub All-append : (xs ys : List A) → All xs → All ys → All (xs ++ ys)
  All-append [] ys h k = k
  All-append (x ∷ xs) ys (p, h) k = (p, All-append xs ys h k)

  pub All-of-append : (xs ys : List A) → All (xs ++ ys) → All xs × All ys
  All-of-append [] ys h = (tt, h)
  All-of-append (x ∷ xs) ys (p, h) = let (hs, k) = All-of-append xs ys h in ((p, hs), k)

-- A Boolean test of every item, and the predicate that it decides.
module _ {ℓ κ} {A : Type ℓ} (p : A → Bool) (P : A → Type κ) where
  pub all→All : ((a : A) → p a ≡ true → P a) → (xs : List A) → all p xs ≡ true → All P xs
  all→All f [] h = tt
  all→All f (x ∷ xs) h =
      let (here, later) = (and-eq-true_iff _ _).0 h in (f x here, all→All f xs later)

  pub All→all : ((a : A) → P a → p a ≡ true) → (xs : List A) → All P xs → all p xs ≡ true
  All→all f [] h = refl
  All→all f (x ∷ xs) (h, hs) = rw (f x h) (All→all f xs hs)

module _ {A : Type 0} where
  abbrev pub Member : A → List A → Type 0
  Member a [] = ⊥
  Member a (x ∷ xs) = (x ≡ a) ⊎ Member a xs

  pub Member-filter :
      (p : A → Bool) (a : A) (xs : List A) → p a ≡ true → Member a xs → Member a (filter p xs)
  Member-filter p a [] h m = m
  Member-filter p a (x ∷ xs) h (inl here) = rw (here, h) (inl refl)
  Member-filter p a (x ∷ xs) h (inr later) = elim (Bool-cases (p x)) [
    | inl kept ↦ rw kept (inr (Member-filter p a xs h later))
    | inr dropped ↦ rw dropped (Member-filter p a xs h later)
  ]

pub Member-map :
    {A B : Type 0} (f : A → B) (a : A) (xs : List A) → Member a xs → Member (f a) (map f xs)
Member-map f a [] m = absurd m
Member-map f a (x ∷ xs) (inl here) = inl (ap f here)
Member-map f a (x ∷ xs) (inr later) = inr (Member-map f a xs later)

abbrev pub is_empty {ℓ} : {A : Type ℓ} → List A → Bool
is_empty [] = true
is_empty (_ ∷ _) = false

pub is_empty-append {ℓ} :
    {A : Type ℓ} (xs ys : List A) → is_empty (xs ++ ys) ≡ (is_empty xs && is_empty ys)
is_empty-append [] ys = refl
is_empty-append (x ∷ xs) ys = refl

pub is_empty→nil {ℓ} : {A : Type ℓ} (xs : List A) → is_empty xs ≡ true → xs ≡ []
is_empty→nil [] h = refl
is_empty→nil (x ∷ xs) h = cc

pub is_empty-map {ℓ κ} :
    {A : Type ℓ} {B : Type κ} (f : A → B) (xs : List A) → is_empty (map f xs) ≡ is_empty xs
is_empty-map f [] = refl
is_empty-map f (x ∷ xs) = refl

pub append-eq-nil {ℓ} : {A : Type ℓ} (xs ys : List A) → xs ++ ys ≡ [] → (xs ≡ []) × (ys ≡ [])
append-eq-nil [] ys h = (refl, h)
append-eq-nil (x ∷ xs) ys h = cc
