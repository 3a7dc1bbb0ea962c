-- ===== src/Common/Report.antt =====
-- Loops that collect issues, `for index, item in enumerate(items)`, and when they collect none.
use Prim.Native.Nat.{ℕ, ◌+◌}
use mathlib.Core.Path.{◌≡◌, refl, sym, ◌∙◌}
use mathlib.Core.Bool.{true, not, and-eq-true_iff}
use mathlib.Core.Logic.{◌↔◌}
use mathlib.Core.List.{List, [], ◌∷◌, ◌++◌}
use native.Mathlib.Omega.{arith}
use cat_backend.Common.Lists.{
  All, All-append, All-of-append, Member, is_empty, is_empty-append, flat_map,
}
use cat_backend.Common.Eq.{elem, Comparable, elem→Member, Member→elem}
use cat_backend.Common.Tests.{if◌then◌else◌}

module _ {ℓ κ} {A : Type ℓ} {B : Type κ} where
  abbrev pub enumerated : (ℕ → A → List B) → ℕ → List A → List B
  enumerated f index [] = []
  enumerated f index (x ∷ xs) = f index x ++ enumerated f (index + 1) xs

-- Nothing is reported exactly when a statement holds.
module _ {ℓ} {B : Type ℓ} where
  abbrev pub Decides {κ} : List B → Type κ → Type κ
  Decides xs P = (is_empty xs ≡ true) ↔ P

  pub Decides-append {κ μ} :
      {P : Type κ} {Q : Type μ} (xs ys : List B)
      → Decides xs P
      → Decides ys Q
      → Decides (xs ++ ys) (P × Q)
  Decides-append xs ys h k = (
    λ e.
        let both = (and-eq-true_iff _ _).0 (sym (is_empty-append xs ys) ∙ e) in
        (h.0 both.0, k.0 both.1),
    λ p. rw (is_empty-append, h.1 p.0, k.1 p.1),
  )

  -- A loop reports nothing exactly when every item passes.
  pub Decides-enumerated {κ μ} :
      {A : Type κ} (P : A → Type μ) (f : ℕ → A → List B)
      → ((i : ℕ) (x : A) → Decides (f i x) (P x))
      → (i : ℕ) (xs : List A) → Decides (enumerated f i xs) (All P xs)
  Decides-enumerated P f d i [] = (λ e. tt, λ h. refl)
  Decides-enumerated P f d i (x ∷ xs) =
      Decides-append (f i x) (enumerated f (i + 1) xs) (d i x) (Decides-enumerated P f d (i + 1) xs)

  pub Decides-flat_map {κ μ} :
      {A : Type κ} (P : A → Type μ) (f : A → List B)
      → ((x : A) → Decides (f x) (P x))
      → (xs : List A) → Decides (flat_map f xs) (All P xs)
  Decides-flat_map P f d [] = (λ e. tt, λ h. refl)
  Decides-flat_map P f d (x ∷ xs) =
      Decides-append (f x) (flat_map f xs) (d x) (Decides-flat_map P f d xs)

-- `if a not in xs: errors.append(...)`
module _ {ℓ} {B : Type ℓ} {A : Type 0} ⦃e : Comparable A⦄ where
  pub Decides-elem :
      (a : A) (xs : List A) (b : B) → Decides (if not (elem a xs) then b ∷ [] else []) (Member a xs)
  Decides-elem a xs b = (λ h. elem→Member a xs (ground arith), λ m. rw (Member→elem a xs m))

-- A list put together item by item satisfies a predicate exactly when each item is right.
module _ {ℓ κ μ ν} {A : Type ℓ} {B : Type κ} (P : B → Type μ) (Q : A → Type ν) where
  pub All-enumerated_iff :
      (f : ℕ → A → List B)
      → ((i : ℕ) (x : A) → All P (f i x) ↔ Q x)
      → (i : ℕ) (xs : List A) → All P (enumerated f i xs) ↔ All Q xs
  All-enumerated_iff f d i [] = (λ h. tt, λ h. tt)
  All-enumerated_iff f d i (x ∷ xs) =
      let rest = All-enumerated_iff f d (i + 1) xs in
      (
        λ h.
            let (here, later) = All-of-append P (f i x) (enumerated f (i + 1) xs) h in
            ((d i x).0 here, rest.0 later),
        λ h. All-append P (f i x) (enumerated f (i + 1) xs) ((d i x).1 h.0) (rest.1 h.1),
      )

module _ {ℓ κ} {B : Type ℓ} (P : B → Type κ) where
  pub All-append_iff {μ ν} :
      {R : Type μ} {S : Type ν} (xs ys : List B)
      → (All P xs ↔ R)
      → (All P ys ↔ S)
      → All P (xs ++ ys) ↔ (R × S)
  All-append_iff xs ys h k = (
    λ both. let (a, b) = All-of-append P xs ys both in (h.0 a, k.0 b),
    λ both. All-append P xs ys (h.1 both.0) (k.1 both.1),
  )
