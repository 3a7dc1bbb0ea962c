-- ===== src/Standard/Publication.antt =====
-- What a publication leaves behind.
use cat_backend.Common.{
  ℕ, ◌+◌, ◌≡◌, refl, subst, sym, ◌∙◌, String, Bool, true, false, List, [], ◌∷◌, Option, some, arith,
  length, Bool-cases, Option-cases, inl, inr, ◌⊎◌,
}
use cat_backend.Common.Eq.{◌==◌, elem, ℕ-Eq}
use cat_backend.Rubric.Content.{Content}
use cat_backend.Rubric.Validator.{Issue, validate_standard}
use cat_backend.Standard.Store.{
  Version, Standard, Store, ok, is_published, is_archived, published, with_row,
}
use cat_backend.Standard.Publish.{
  publish_standard, publish_new, republish, insert_version, published_row, new_version, next_number,
}
use cat_backend.Standard.Invariant.{
  ids, hashes, head?, head_id, IsHistory, IsValid, current_of_valid, pointer_of,
}

module _ (hash : Content → ℕ) where
  -- The row is published and names `v`, which is the newest version and holds the draft.
  pub record IsPublication (content : Content) (v : Version) (s t : Store) : Type 0 where
    pub row : Standard
    pub stored : t.standard ≡ some row
    pub status : row.status ≡ published
    pub drafted : row.draft_content ≡ some content
    pub points : row.current_version_id ≡ some v.id
    pub content_hash : v.content_hash ≡ hash content
    pub newest : head? t.versions ≡ some v
    pub added : (t.versions ≡ s.versions) ⊎ (t.versions ≡ v ∷ s.versions)

  abbrev IsOutcome : Content → Store → Version × Store → Type 0
  IsOutcome content s (v, t) = IsPublication content v s t × IsValid hash t

  pub number_of_next :
      (vs : List Version) → IsHistory hash vs → next_number (head? vs) ≡ length vs + 1
  number_of_next [] h = refl
  number_of_next (v ∷ vs) h = ground arith

  publish_new-ok :
      (id admin : ℕ) (note : Option String) (content : Content) (row : Standard) (s t : Store)
      (v : Version)
      → IsValid hash s
      → elem id (ids s.versions) ≡ false
      → row.draft_content ≡ some content
      → publish_new hash id admin note content (head? s.versions) row s ≡ ok (v, t)
      → IsOutcome content s (v, t)
  unfolding publish_new insert_version
  publish_new-ok id admin note content row s t v h fresh drafted e =
      let w = new_version hash id admin note content (head? s.versions) in
      let new = with_row (published_row admin id row) (record s { versions = w ∷ s.versions }) in
      let same : ◌≡◌ {A = Version × Store} (w, new) (v, t) = ground arith in
      let unique : elem (hash content) (hashes s.versions) ≡ false = ground arith in
      subst (λ (u : Version × Store). IsOutcome content s u) same
        (
          record {
            row = published_row admin id row;
            stored = refl;
            status = refl;
            drafted = drafted;
            points = refl;
            content_hash = refl;
            newest = refl;
            added = inr refl;
          },
          record {
            history = (number_of_next s.versions h.history, refl, fresh, unique, h.history);
            pointer = (refl, refl);
          },
        )

  republish-ok :
      (admin : ℕ) (content : Content) (row : Standard) (s t : Store) (current v : Version)
      → IsValid hash s
      → s.standard ≡ some row
      → head? s.versions ≡ some current
      → current.content_hash ≡ hash content
      → row.draft_content ≡ some content
      → republish admin current row s ≡ ok (v, t)
      → IsOutcome content s (v, t)
  unfolding republish
  republish-ok admin content row s t current v h found top same_hash drafted e =
      let p = pointer_of hash s row h found in
      let new = with_row (published_row admin current.id row) s in
      let id_of : head_id s.versions ≡ some current.id = ground arith in
      let named : row.current_version_id ≡ some current.id = p.0 ∙ id_of in
      elim (Bool-cases (is_published row.status)) [
        | inl out ↦
            let same : ◌≡◌ {A = Version × Store} (current, s) (v, t) = ground arith in
            subst (λ (u : Version × Store). IsOutcome content s u) same
              (
                record {
                  row = row;
                  stored = found;
                  status = ground arith;
                  drafted = drafted;
                  points = named;
                  content_hash = same_hash;
                  newest = top;
                  added = inl refl;
                },
                h,
              )
        | inr due ↦
            let same : ◌≡◌ {A = Version × Store} (current, new) (v, t) = ground arith in
            subst (λ (u : Version × Store). IsOutcome content s u) same
              (
                record {
                  row = published_row admin current.id row;
                  stored = refl;
                  status = refl;
                  drafted = drafted;
                  points = refl;
                  content_hash = same_hash;
                  newest = top;
                  added = inl refl;
                },
                record { history = h.history; pointer = (sym id_of, ground arith) },
              )
      ]

  -- What the operation demanded of the row it found.
  pub record IsPublishable (casefold : String → String) (issue_le : Issue → Issue → Bool)
      (content : Content) (s : Store) : Type 0 where
    pub row : Standard
    pub found : s.standard ≡ some row
    pub active : is_archived row.status ≡ false
    pub drafted : row.draft_content ≡ some content
    pub accepted : (validate_standard casefold issue_le content true).valid ≡ true

  -- A publication under a fresh id that succeeds on well-formed rows found a row that is not archived
  -- and whose draft has no errors; it leaves the row published and naming the newest version,
  -- which has the hash of the draft, adds at most that version, and keeps the rows well formed.
  pub publish_standard-ok :
      (casefold : String → String) (issue_le : Issue → Issue → Bool) (id admin : ℕ)
      (note : Option String) (s t : Store) (v : Version)
      → IsValid hash s
      → elem id (ids s.versions) ≡ false
      → publish_standard casefold issue_le hash id admin note s ≡ ok (v, t)
      → (content : Content) × IsPublishable casefold issue_le content s
        × (IsPublication content v s t × IsValid hash t)
  unfolding publish_standard
  publish_standard-ok casefold issue_le id admin note s t v h fresh e =
      elim (Option-cases s.standard) [
        | inl missing ↦ ground arith
        | inr (row, found) ↦ elim (Option-cases row.draft_content) [
          | inl undrafted ↦ ground arith
          | inr (content, drafted) ↦
              let active : is_archived row.status ≡ false = ground arith in
              let accepted : (validate_standard casefold issue_le content true).valid ≡ true =
                ground arith in
              let current = current_of_valid hash s row h found in
              let reason : IsPublishable casefold issue_le content s = record {
                row = row;
                found = found;
                active = active;
                drafted = drafted;
                accepted = accepted;
              } in
              elim (Option-cases (head? s.versions)) [
                | inl first ↦ (
                  content,
                  reason,
                  publish_new-ok id admin note content row s t v h fresh drafted
                      (ground (arith, current)),
                )
                | inr (w, top) ↦ elim (Bool-cases (w.content_hash == hash content)) [
                  | inl same ↦ (
                    content,
                    reason,
                    republish-ok admin content row s t w v h found top (ground (arith)) drafted
                        (ground (arith, current)),
                  )
                  | inr other ↦ (
                    content,
                    reason,
                    publish_new-ok id admin note content row s t v h fresh drafted
                        (ground (arith, current)),
                  )
                ]
              ]
        ]
      ]
