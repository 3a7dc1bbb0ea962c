-- ===== src/Standard/Invariant.antt =====
-- What holds of the rows of a campaign between operations.
use cat_backend.Common.{
  ℕ, ◌+◌, ◌≤◌, ◌<◌, ◌≡◌, refl, subst, false, ◌&&◌, List, [], ◌∷◌, map, Option, none, some, arith,
  is_empty, length, Option-cases, inl, inr,
}
use cat_backend.Common.Eq.{elem, ℕ-Eq}
use cat_backend.Rubric.Content.{Content}
use cat_backend.Standard.Store.{Version, Standard, Store, is_published, find_version}
use cat_backend.Standard.Publish.{newest, pointed, or_newest, current_of}

abbrev pub ids : List Version → List ℕ
ids = map (λ v. v.id)

abbrev pub numbers : List Version → List ℕ
numbers = map (λ v. v.version_number)

abbrev pub hashes : List Version → List ℕ
hashes = map (λ v. v.content_hash)

abbrev pub head? : List Version → Option Version
head? [] = none
head? (v ∷ vs) = some v

abbrev pub head_id : List Version → Option ℕ
head_id [] = none
head_id (v ∷ vs) = some v.id

-- The pointer is the newest version's id, or nothing before the first publication.
abbrev pub IsPointed : Option Standard → List Version → Type 0
IsPointed none vs = vs ≡ []
IsPointed (some row) vs =
    (row.current_version_id ≡ head_id vs) × ((is_published row.status && is_empty vs) ≡ false)

module _ (hash : Content → ℕ) where
  -- Newest first: numbered from 1 without a gap, ids and hashes used once, each hash that of the
  -- snapshot beside it.
  abbrev pub IsHistory : List Version → Type 0
  IsHistory [] = Unit
  IsHistory (v ∷ vs) =
      (v.version_number ≡ length vs + 1)
      × (v.content_hash ≡ hash v.snapshot)
      × (elem v.id (ids vs) ≡ false)
      × (elem v.content_hash (hashes vs) ≡ false)
      × IsHistory vs

  pub record IsValid (s : Store) : Type 0 where
    pub history : IsHistory s.versions
    pub pointer : IsPointed s.standard s.versions

  pub numbers_fresh :
      (n : ℕ) (vs : List Version) → IsHistory vs → length vs < n → elem n (numbers vs) ≡ false
  numbers_fresh n [] h lt = refl
  numbers_fresh n (v ∷ vs) h lt = ground (arith, numbers_fresh n vs h.4)

  newest-le :
      (vs : List Version) {w : Version}
      → IsHistory vs
      → newest vs ≡ some w
      → w.version_number ≤ length vs
  newest-le [] h e = cc
  newest-le (v ∷ vs) {w} h e = elim (Option-cases (newest vs)) [
    | inl nothing ↦ let same : v ≡ w = ground arith in rw (← same) (omega arith)
    | inr (u, found) ↦
        let older = newest-le vs h.4 found in
        let same : v ≡ w = ground arith in rw (← same) (omega arith)
  ]

  -- The newest version is the first row.
  pub newest-head : (vs : List Version) → IsHistory vs → newest vs ≡ head? vs
  newest-head [] h = refl
  newest-head (v ∷ vs) h = elim (Option-cases (newest vs)) [
    | inl nothing ↦ rw nothing
    | inr (u, found) ↦ ground (arith, newest-le vs h.4 found)
  ]

  pub find_version-head : (v : Version) (vs : List Version) → find_version v.id (v ∷ vs) ≡ some v
  find_version-head v vs = ground arith

  current_from :
      (o : Option ℕ) (vs : List Version)
      → IsHistory vs
      → o ≡ head_id vs
      → or_newest (pointed o vs) vs ≡ head? vs
  current_from o [] h e = rw e refl
  current_from o (v ∷ vs) h e = rw (e, find_version-head v vs) refl

  -- The row that the operations find: the pointer is the first row's id.
  pub pointer_of :
      (s : Store) (row : Standard)
      → IsValid s
      → s.standard ≡ some row
      → IsPointed (some row) s.versions
  pointer_of s row h e = subst (λ o. IsPointed o s.versions) e h.pointer

  pub current_of_valid :
      (s : Store) (row : Standard)
      → IsValid s
      → s.standard ≡ some row
      → current_of s row ≡ head? s.versions
  current_of_valid s row h e =
      current_from row.current_version_id s.versions h.history (pointer_of s row h e).0
