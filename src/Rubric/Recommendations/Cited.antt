-- ===== src/Rubric/Recommendations/Cited.antt =====
-- The findings of a report: what they cite and which of them count.
use cat_backend.Common.{
  ℕ, ◌≡◌, inl, inr, refl, ◌∙◌, String, true, false, List, [], ◌∷◌, ◌++◌, some, arith, if◌then◌else◌,
  is_empty, is_empty-append, All, Member, Bool-cases, Option-cases, ltb,
}
use cat_backend.Common.Eq.{◌==◌, elem, ℕ-Eq, String-Eq, Member→elem, beq_self, nat_eq_iff}
use cat_backend.Rubric.Findings.{Finding}
use cat_backend.Rubric.Observation.Category.{finding_ids, cited, declared}
use cat_backend.Rubric.Observation.Grounded.{IsSupported}
use cat_backend.Rubric.Recommendations.{least}

abbrev pub Cites : Finding → Type 0
Cites f = is_empty f.evidence_sequence_numbers ≡ false

pub declared-all :
    (valid : List String) (known : List ℕ) (fs : List Finding)
    → All (IsSupported valid known) fs
    → declared valid fs ≡ fs
declared-all valid known [] h = refl
declared-all valid known (f ∷ fs) (p, ps) =
    rw (Member→elem f.criterion_id valid p.0, declared-all valid known fs ps) refl

pub All-Member-later :
    (f : Finding) (fs gs : List Finding)
    → All (λ g. Member g fs) gs
    → All (λ g. Member g (f ∷ fs)) gs
All-Member-later f fs [] h = tt
All-Member-later f fs (g ∷ gs) (p, ps) = (inr p, All-Member-later f fs gs ps)

pub All-Member : (fs : List Finding) → All (λ f. Member f fs) fs
All-Member [] = tt
All-Member (f ∷ fs) = (inl refl, All-Member-later f fs fs (All-Member fs))

pub elem-append-right : (s : ℕ) (xs ys : List ℕ) → elem s ys ≡ true → elem s (xs ++ ys) ≡ true
elem-append-right s [] ys h = h
elem-append-right s (x ∷ xs) ys h = ground (arith, elem-append-right s xs ys h)

pub elem-append-left : (s : ℕ) (xs ys : List ℕ) → elem s xs ≡ true → elem s (xs ++ ys) ≡ true
elem-append-left s [] ys h = cc
elem-append-left s (x ∷ xs) ys h = ground (arith, elem-append-left s xs ys)

pub elem-finding_ids :
    (f : Finding) (fs : List Finding) → Member f fs → elem f.criterion_id (finding_ids fs) ≡ true
elem-finding_ids f (g ∷ fs) (inl same) = rw same (rw (beq_self f.criterion_id) refl)
elem-finding_ids f (g ∷ fs) (inr later) = ground (arith, elem-finding_ids f fs later)
elem-finding_ids f [] m = elim m [ ]

pub elem-cited :
    (f : Finding) (s : ℕ) (fs : List Finding)
    → Member f fs
    → elem s f.evidence_sequence_numbers ≡ true
    → elem s (cited f.criterion_id fs) ≡ true
elem-cited f s (g ∷ fs) (inl same) h = rw same (
    rw (beq_self f.criterion_id)
      (elem-append-left s f.evidence_sequence_numbers (cited f.criterion_id fs) h))
elem-cited f s (g ∷ fs) (inr later) h =
    elem-append-right s
      (if g.criterion_id == f.criterion_id then g.evidence_sequence_numbers else [])
      (cited f.criterion_id fs) (elem-cited f s fs later h)
elem-cited f s [] m h = elim m [ ]

pub elem-least : (ns : List ℕ) (m : ℕ) → least ns ≡ some m → elem m ns ≡ true
elem-least [] m e = cc
elem-least (n ∷ ns) m e = elim (Option-cases (least ns)) [
  | inl alone ↦ let first : n ≡ m = ground arith in rw (← first, beq_self n) refl
  | inr (k, found) ↦ ground (arith, elem-least ns k found, nat_eq_iff n m, nat_eq_iff n n)
]

pub least-some : (ns : List ℕ) → is_empty ns ≡ false → (m : ℕ) × (least ns ≡ some m)
least-some [] e = cc
least-some (n ∷ ns) e = elim (Option-cases (least ns)) [
  | inl alone ↦ (n, rw alone refl)
  | inr (k, found) ↦ elim (Bool-cases (ltb k n)) [
    | inl less ↦ (k, rw (found, less) refl)
    | inr more ↦ (n, rw (found, more) refl)
  ]
]

pub cited_some :
    (id : String) (fs : List Finding)
    → All Cites fs
    → elem id (finding_ids fs) ≡ true
    → is_empty (cited id fs) ≡ false
cited_some id [] h e = cc
cited_some id (f ∷ fs) (p, ps) e = elim (Bool-cases (f.criterion_id == id)) [
  | inl here ↦ rw here (is_empty-append f.evidence_sequence_numbers (cited id fs) ∙ ground arith)
  | inr other ↦ rw other (cited_some id fs ps (ground arith))
]
