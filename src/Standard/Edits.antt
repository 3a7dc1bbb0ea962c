-- ===== src/Standard/Edits.antt =====
-- The edits of a standard, each of which keeps the rows well formed.
use cat_backend.Common.{
  ℕ, ◌≡◌, refl, subst, String, true, false, [], Option, none, some, arith, Bool-cases, Option-cases,
  inl, inr,
}
use cat_backend.Common.Eq.{ℕ-Eq}
use cat_backend.Rubric.Content.{Content}
use cat_backend.Standard.Store.{
  Standard, Store, ok, is_published, is_draft, draft, archived, is_archived, create_standard,
  update_draft, delete_draft, reopen_draft, archive_standard, set_content, set_description,
  set_name, touched, with_row,
}
use cat_backend.Standard.Invariant.{IsPointed, IsValid, pointer_of}

module _ (hash : Content → ℕ) where
  -- Another row beside the same versions, that stays unpublished or keeps its pointer.
  with_row-IsValid :
      (s : Store) (new : Standard)
      → IsValid hash s
      → IsPointed (some new) s.versions
      → IsValid hash (with_row new s)
  with_row-IsValid s new h p = record { history = h.history; pointer = p }

  set_all-keeps :
      (name description : Option String) (content : Option Content) (row : Standard)
      → ((set_content content (set_description description (set_name name row))).current_version_id
          ≡ row.current_version_id)
        × ((set_content content (set_description description (set_name name row))).status
            ≡ row.status)
  set_all-keeps name description content row = ground arith

  pub update_draft-IsValid :
      (admin expected : ℕ) (name description : Option String) (content : Option Content)
      (s t : Store) (row : Standard)
      → IsValid hash s
      → update_draft admin expected name description content s ≡ ok (row, t)
      → IsValid hash t
  unfolding update_draft
  update_draft-IsValid admin expected name description content s t row h e =
      elim (Option-cases s.standard) [
        | inl missing ↦ ground arith
        | inr (old, found) ↦
            let p = pointer_of hash s old h found in
            let drafted : is_draft old.status ≡ true = ground arith in
            let keeps = set_all-keeps name description content old in
            let same : with_row
                  (touched admin
                    (set_content content (set_description description (set_name name old))))
                  s
                ≡ t =
              ground arith in
            subst (λ u. IsValid hash u) same (with_row-IsValid s _ h (ground arith, ground arith))
      ]

  pub delete_draft-IsValid : (s t : Store) → IsValid hash s → delete_draft s ≡ ok t → IsValid hash t
  unfolding delete_draft
  delete_draft-IsValid s t h e = elim (Option-cases s.standard) [
    | inl missing ↦ ground arith
    | inr (old, found) ↦
        let same : record s { standard = none } ≡ t = ground arith in
        let unpublished : s.versions ≡ [] = ground arith in
        subst (λ u. IsValid hash u) same (record { history = h.history; pointer = unpublished })
  ]

  pub reopen_draft-IsValid :
      (admin : ℕ) (s t : Store) (row : Standard)
      → IsValid hash s
      → reopen_draft admin s ≡ ok (row, t)
      → IsValid hash t
  unfolding reopen_draft
  reopen_draft-IsValid admin s t row h e = elim (Option-cases s.standard) [
    | inl missing ↦ ground arith
    | inr (old, found) ↦
        let p = pointer_of hash s old h found in
        let same : with_row (touched admin (record old { status = draft })) s ≡ t = ground arith in
        subst (λ u. IsValid hash u) same (with_row-IsValid s _ h (p.0, refl))
  ]

  pub archive_standard-IsValid :
      (admin : ℕ) (s t : Store) (row : Standard)
      → IsValid hash s
      → archive_standard admin s ≡ ok (row, t)
      → IsValid hash t
  unfolding archive_standard
  archive_standard-IsValid admin s t row h e = elim (Option-cases s.standard) [
    | inl missing ↦ ground arith
    | inr (old, found) ↦
        let p = pointer_of hash s old h found in
        let new = with_row (touched admin (record old { status = archived })) s in
        elim (Bool-cases (is_archived old.status)) [
          | inl already ↦ let same : s ≡ t = ground arith in subst (λ u. IsValid hash u) same h
          | inr other ↦
              let same : new ≡ t = ground arith in
              subst (λ u. IsValid hash u) same (with_row-IsValid s _ h (p.0, refl))
        ]
  ]

  pub create_standard-IsValid :
      (id admin : ℕ) (name : String) (description : Option String) (content : Content) (s t : Store)
      (row : Standard)
      → IsValid hash s
      → create_standard id admin name description content s ≡ ok (row, t)
      → IsValid hash t
  unfolding create_standard
  create_standard-IsValid id admin name description content s t row h e =
      elim (Option-cases s.standard) [
        | inl missing ↦
            let empty : s.versions ≡ [] = subst (λ o. IsPointed o s.versions) missing h.pointer in
            let same : with_row row s ≡ t = ground arith in
            let fresh : (row.current_version_id ≡ none) × (is_published row.status ≡ false) =
              ground arith in
            subst (λ u. IsValid hash u) same (with_row-IsValid s _ h (ground arith, ground arith))
        | inr (old, found) ↦ ground arith
      ]
