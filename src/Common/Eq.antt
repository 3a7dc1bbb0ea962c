-- ===== src/Common/Eq.antt =====
-- Boolean equality as an interface, with membership tests over it (Python's `in`).
use Prim.Native.Nat.{ℕ}
use Prim.Native.String.{String}
use mathlib.Core.Path.{◌≡◌, refl, sym, ◌∙◌}
use mathlib.Core.Logic.{◌↔◌, inl, inr, ◌≢◌}
use mathlib.Core.Bool.{Bool, true, false, ◌||◌, ◌&&◌, not, false≢true, and-eq-true_iff}
use mathlib.Core.List.{List, [], ◌∷◌}
use native.Mathlib.Omega.{arith}
use text.Mathlib.Text.{◌==◌ as str_eq}
use text.Mathlib.TextEquality.{eq_iff}
use cat_backend.Common.Tests.{◌==◌ as nat_eq, Bool-cases}
use cat_backend.Common.Lists.{Member}

pub record Comparable {ℓ} (A : Type ℓ) : Type ℓ where
  pub agrees : A → A → Bool
  pub agrees_iff : (a b : A) → (agrees a b ≡ true) ↔ (a ≡ b)

pub nat_eq_iff : (a b : ℕ) → (nat_eq a b ≡ true) ↔ (a ≡ b)
nat_eq_iff a b = ground arith

-- Python's `==` on keys.
infix 50 ◌==◌
abbrev pub ◌==◌ {ℓ} : {A : Type ℓ} ⦃c : Comparable A⦄ → A → A → Bool
◌==◌ ⦃c⦄ a b = c.agrees a b

instance abbrev pub ℕ-Eq : Comparable ℕ
ℕ-Eq = record { agrees = nat_eq; agrees_iff = nat_eq_iff }

instance abbrev pub String-Eq : Comparable String
String-Eq = record { agrees = str_eq; agrees_iff = eq_iff }

module _ {A : Type 0} ⦃e : Comparable A⦄ where
  -- `a in xs`
  abbrev pub elem : A → List A → Bool
  elem a [] = false
  elem a (x ∷ xs) = x == a || elem a xs

  pub elem→Member : (a : A) (xs : List A) → elem a xs ≡ true → Member a xs
  elem→Member a [] h = cc
  elem→Member a (x ∷ xs) h = elim (Bool-cases (x == a)) [
    | inl here ↦ inl ((e.agrees_iff x a).0 here)
    | inr other ↦ inr (elem→Member a xs (rw other at h))
  ]

  pub Member→elem : (a : A) (xs : List A) → Member a xs → elem a xs ≡ true
  Member→elem a (x ∷ xs) (inl here) = rw ((e.agrees_iff x a).1 here)
  Member→elem a (x ∷ xs) (inr later) = elim (Bool-cases (x == a)) [
    | inl here ↦ rw here
    | inr other ↦ rw (other, Member→elem a xs later)
  ]
  Member→elem a [] m = elim m [ ]

  -- No item is listed twice: `len(xs) == len(set(xs))`.
  abbrev pub distinct : List A → Bool
  distinct [] = true
  distinct (x ∷ xs) = not (elem x xs) && distinct xs

  pub beq_self : (a : A) → (a == a) ≡ true
  beq_self a = (e.agrees_iff a a).1 refl

  pub beq_ne : (a b : A) → a ≢ b → (a == b) ≡ false
  beq_ne a b h = elim (Bool-cases (a == b)) [
    | inl same ↦ absurd (h ((e.agrees_iff a b).0 same))
    | inr other ↦ other
  ]

  pub beq_comm : (a b : A) → (a == b) ≡ (b == a)
  beq_comm a b = elim (Bool-cases (a == b)) [
    | inl same ↦ rw same (sym ((e.agrees_iff b a).1 (sym ((e.agrees_iff a b).0 same))))
    | inr other ↦
        rw other (sym (beq_ne b a (λ q. false≢true (sym other ∙ (e.agrees_iff a b).1 (sym q)))))
  ]

  pub not-elem→not-Member : (a : A) (xs : List A) → not (elem a xs) ≡ true → ¬ Member a xs
  not-elem→not-Member a xs h m = cc (Member→elem a xs m)

  pub not-Member→not-elem : (a : A) (xs : List A) → ¬ Member a xs → not (elem a xs) ≡ true
  not-Member→not-elem a xs h = elim (Bool-cases (elem a xs)) [
    | inl found ↦ absurd (h (elem→Member a xs found))
    | inr missing ↦ rw missing
  ]

-- Equality of texts, as lists of code points.
abbrev pub same_text : List ℕ → List ℕ → Bool
same_text [] [] = true
same_text (x ∷ xs) (y ∷ ys) = nat_eq x y && same_text xs ys
same_text [] (y ∷ ys) = false
same_text (x ∷ xs) [] = false

pub same_text_iff : (xs ys : List ℕ) → (same_text xs ys ≡ true) ↔ (xs ≡ ys)
same_text_iff [] [] = (λ h. refl, λ h. refl)
same_text_iff [] (y ∷ ys) = (λ h. cc, λ h. cc)
same_text_iff (x ∷ xs) [] = (λ h. cc, λ h. cc)
same_text_iff (x ∷ xs) (y ∷ ys) = (
  λ h.
      let (here, later) = (and-eq-true_iff (nat_eq x y) (same_text xs ys)).0 h in
      cc ((nat_eq_iff x y).0 here, (same_text_iff xs ys).0 later),
  λ h.
      let heads : x ≡ y = cc in
      let tails : xs ≡ ys = cc in
      (and-eq-true_iff _ _).1 ((nat_eq_iff x y).1 heads, (same_text_iff xs ys).1 tails),
)

instance abbrev pub Text-Eq : Comparable (List ℕ)
Text-Eq = record { agrees = same_text; agrees_iff = same_text_iff }
