-- ===== src/Standard/Revert.antt =====
-- When a publication is accepted, and what repeating it does.
use cat_backend.Common.{
  ℕ, ◌+◌, ◌≡◌, String, Bool, true, false, not, ◌||◌, List, [], ◌∷◌, Option, arith, length,
  Bool-cases, Option-cases, inl, inr,
}
use cat_backend.Common.Eq.{◌==◌, elem, ℕ-Eq}
use cat_backend.Rubric.Content.{Content}
use cat_backend.Rubric.Validator.{Issue}
use cat_backend.Standard.Store.{Version, Standard, Store, Result, ok, err}
use cat_backend.Standard.Publish.{
  publish_standard, publish_new, republish, insert_version, next_number,
}
use cat_backend.Standard.Invariant.{
  ids, hashes, numbers, head?, IsValid, current_of_valid, numbers_fresh,
}
use cat_backend.Standard.Publication.{IsPublishable, publish_standard-ok, number_of_next}

abbrev pub is_ok : {A : Type 0} → Result A → Bool
is_ok (ok a) = true
is_ok (err e) = false

-- The hash of the version that a draft is compared with.
abbrev pub is_current : ℕ → List Version → Bool
is_current digest [] = false
is_current digest (v ∷ vs) = v.content_hash == digest

module _ (casefold : String → String) (issue_le : Issue → Issue → Bool) (hash : Content → ℕ) where
  publish_new-accepts :
      (id admin : ℕ) (remark : Option String) (content : Content) (row : Standard) (s : Store)
      → IsValid hash s
      → is_ok (publish_new hash id admin remark content (head? s.versions) row s)
        ≡ not (elem (hash content) (hashes s.versions))
  unfolding publish_new insert_version
  publish_new-accepts id admin remark content row s h =
      let fresh = numbers_fresh hash (length s.versions + 1) s.versions h.history (omega arith) in
      let next = number_of_next hash s.versions h.history in
      let unused : elem (next_number (head? s.versions)) (numbers s.versions) ≡ false =
        rw (next) fresh in
      ground (arith)

  -- On well-formed rows, the publication of an accepted draft succeeds exactly when its hash is that
  -- of the current version or of no version: an older version with that hash makes it fail.
  pub publish_standard-accepts :
      (id admin : ℕ) (remark : Option String) (content : Content) (s : Store)
      → IsValid hash s
      → IsPublishable hash casefold issue_le content s
      → is_ok (publish_standard casefold issue_le hash id admin remark s)
        ≡ (is_current (hash content) s.versions || not (elem (hash content) (hashes s.versions)))
  unfolding publish_standard publish_new republish insert_version
  publish_standard-accepts id admin remark content s h p =
      let current = current_of_valid hash s p.row h p.found in
      let rule = publish_new-accepts id admin remark content p.row s h in
      elim (Option-cases (head? s.versions)) [
        | inl first ↦
            let run : publish_standard casefold issue_le hash id admin remark s
                ≡ publish_new hash id admin remark content (head? s.versions) p.row s =
              rw (p.found, first) ground
                (arith, current, p.found, p.active, p.drafted, p.accepted) in
            rw (run) ground (arith, rule)
        | inr (w, top) ↦ elim (Bool-cases (w.content_hash == hash content)) [
          | inl same ↦ rw (p.found) ground (arith, current, p.active, p.drafted, p.accepted)
          | inr other ↦
              let run : publish_standard casefold issue_le hash id admin remark s
                  ≡ publish_new hash id admin remark content (head? s.versions) p.row s =
                rw (p.found, top) ground
                  (arith, current, p.found, p.active, p.drafted, p.accepted) in
              rw (run) ground (arith, rule)
        ]
      ]

  -- On well-formed rows, once a draft is published under a fresh id, publishing again, by whomever,
  -- returns the same version and changes nothing.
  pub publish_standard-again :
      (id id' admin admin' : ℕ) (remark remark' : Option String) (s t : Store) (v : Version)
      → IsValid hash s
      → elem id (ids s.versions) ≡ false
      → publish_standard casefold issue_le hash id admin remark s ≡ ok (v, t)
      → publish_standard casefold issue_le hash id' admin' remark' t ≡ ok (v, t)
  unfolding publish_standard republish
  publish_standard-again id id' admin admin' remark remark' s t v h fresh e =
      let (content, why, (p, after)) =
        publish_standard-ok hash casefold issue_le id admin remark s t v h fresh e in
      let current = current_of_valid hash t p.row after p.stored in
      rw (p.stored) ground (arith, current)
