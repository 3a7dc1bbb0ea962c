-- ===== src/Standard/Steps.antt =====
-- Sequences of operations on a campaign's rows.
use cat_backend.Common.{
  ℕ, ◌≡◌, refl, subst, sym, String, Bool, true, false, List, [], ◌∷◌, Option, some, is_some,
  is_empty, ap, ◌↔◌, arith, inl, inr,
}
use cat_backend.Common.Eq.{elem, ℕ-Eq, nat_eq_iff}
use cat_backend.Rubric.Content.{Content}
use cat_backend.Rubric.Validator.{Issue}
use cat_backend.Standard.Store.{
  Version, Standard, Store, ok, create_standard, update_draft, delete_draft, reopen_draft,
  archive_standard, find_version, get_version,
}
use cat_backend.Standard.Publish.{publish_standard}
use cat_backend.Standard.Invariant.{ids, IsValid, IsHistory}
use cat_backend.Standard.Edits.{
  create_standard-IsValid, update_draft-IsValid, delete_draft-IsValid, reopen_draft-IsValid,
  archive_standard-IsValid,
}
use cat_backend.Standard.Publication.{publish_standard-ok}

module _ (casefold : String → String) (issue_le : Issue → Issue → Bool) (hash : Content → ℕ) where
  -- One successful operation; `pinning` is a session that starts under one of the versions.
  pub data Step : Store → Store → Type 0 where
    creating :
        {s t : Store} {row : Standard} (id admin : ℕ) (name : String) (description : Option String)
        (content : Content)
        → create_standard id admin name description content s ≡ ok (row, t)
        → Step s t
    updating :
        {s t : Store} {row : Standard} (admin expected : ℕ) (name description : Option String)
        (content : Option Content)
        → update_draft admin expected name description content s ≡ ok (row, t)
        → Step s t
    deleting : {s t : Store} → delete_draft s ≡ ok t → Step s t
    reopening :
        {s t : Store} {row : Standard} (admin : ℕ) → reopen_draft admin s ≡ ok (row, t) → Step s t
    archiving :
        {s t : Store} {row : Standard} (admin : ℕ)
        → archive_standard admin s ≡ ok (row, t)
        → Step s t
    publishing :
        {s t : Store} {v : Version} (id admin : ℕ) (note : Option String)
        → elem id (ids s.versions) ≡ false
        → publish_standard casefold issue_le hash id admin note s ≡ ok (v, t)
        → Step s t
    pinning :
        {s : Store} (id : ℕ)
        → elem id (ids s.versions) ≡ true
        → Step s (record s { pinned = id ∷ s.pinned })

  pub data Reach : Store → Store → Type 0 where
    stay : {s : Store} → Reach s s
    then_step : {s t u : Store} → Reach s t → Step t u → Reach s u

  Step-IsValid : {s t : Store} → Step s t → IsValid hash s → IsValid hash t
  Step-IsValid (creating {s} {t} {row} id admin name description content e) h =
      create_standard-IsValid hash id admin name description content s t row h e
  Step-IsValid (updating {s} {t} {row} admin expected name description content e) h =
      update_draft-IsValid hash admin expected name description content s t row h e
  Step-IsValid (deleting {s} {t} e) h = delete_draft-IsValid hash s t h e
  Step-IsValid (reopening {s} {t} {row} admin e) h = reopen_draft-IsValid hash admin s t row h e
  Step-IsValid (archiving {s} {t} {row} admin e) h = archive_standard-IsValid hash admin s t row h e
  Step-IsValid (publishing {s} {t} {v} id admin note fresh e) h =
      (publish_standard-ok hash casefold issue_le id admin note s t v h fresh e).2.1
  Step-IsValid (pinning {s} id e) h = record { history = h.history; pointer = h.pointer }

  -- From well-formed rows, every sequence of operations leads to well-formed rows.
  pub Reach-IsValid : {s t : Store} → Reach s t → IsValid hash s → IsValid hash t
  Reach-IsValid stay h = h
  Reach-IsValid (then_step r x) h = Step-IsValid x (Reach-IsValid r h)

  found-member :
      (id : ℕ) (vs : List Version) (v : Version)
      → find_version id vs ≡ some v
      → elem id (ids vs) ≡ true
  found-member id [] w e = cc
  found-member id (v ∷ vs) w e = ground (arith, found-member id vs w, nat_eq_iff v.id id)

  -- A version that one more publication leaves where it was.
  found-again :
      (id : ℕ) (w v : Version) (vs : List Version)
      → elem w.id (ids vs) ≡ false
      → find_version id vs ≡ some v
      → find_version id (w ∷ vs) ≡ some v
  found-again id w v vs fresh e = ground (arith, found-member id vs v e, nat_eq_iff w.id id)

  Step-keeps :
      {s t : Store} (id : ℕ) (v : Version)
      → Step s t
      → IsValid hash s
      → find_version id s.versions ≡ some v
      → find_version id t.versions ≡ some v
  unfolding create_standard update_draft delete_draft reopen_draft archive_standard
  Step-keeps id v (creating i admin name description content e) h found = ground arith
  Step-keeps id v (updating admin expected name description content e) h found = ground arith
  Step-keeps id v (deleting e) h found = ground arith
  Step-keeps id v (reopening admin e) h found = ground arith
  Step-keeps id v (archiving admin e) h found = ground arith
  Step-keeps id v (publishing {s} {t} {v = w} i admin note fresh e) h found =
      let (content, why, (p, after)) =
        publish_standard-ok hash casefold issue_le i admin note s t w h fresh e in
      elim p.added [
        | inl same ↦ subst (λ vs. find_version id vs ≡ some v) (sym same) found
        | inr more ↦
            let past : IsHistory hash (w ∷ s.versions) =
              subst (λ vs. IsHistory hash vs) more after.history in
            subst (λ vs. find_version id vs ≡ some v) (sym more)
              (found-again id w v s.versions past.2 found)
      ]
  Step-keeps id v (pinning i e) h found = found

  found-nonempty :
      (id : ℕ) (vs : List Version) (v : Version) → find_version id vs ≡ some v → is_empty vs ≡ false
  found-nonempty id [] v e = cc
  found-nonempty id (w ∷ vs) v e = refl

  -- While there are versions, the row of the standard stays.
  Step-row :
      {s t : Store} (id : ℕ) (v : Version)
      → Step s t
      → IsValid hash s
      → find_version id s.versions ≡ some v
      → is_some s.standard ≡ true
      → is_some t.standard ≡ true
  unfolding create_standard update_draft delete_draft reopen_draft archive_standard
  Step-row id v (creating i admin name description content e) h found row = ground arith
  Step-row id v (updating admin expected name description content e) h found row = ground arith
  Step-row id v (deleting {s} e) h found row =
      let some_version = found-nonempty id s.versions v found in ground (arith, some_version)
  Step-row id v (reopening admin e) h found row = ground arith
  Step-row id v (archiving admin e) h found row = ground arith
  Step-row id v (publishing {s} {t} {v = w} i admin _ fresh e) h found row =
      let (content, why, (p, after)) =
        publish_standard-ok hash casefold issue_le i admin _ s t w h fresh e in
      ap is_some p.stored
  Step-row id v (pinning i e) h found row = row

  Reach-row :
      {s t : Store} (id : ℕ) (v : Version)
      → IsValid hash s
      → Reach s t
      → is_some s.standard ≡ true
      → find_version id s.versions ≡ some v
      → (is_some t.standard ≡ true) × (find_version id t.versions ≡ some v)
  Reach-row id v h stay row found = (row, found)
  Reach-row id v h (then_step r x) row found =
      let (there, kept) = Reach-row id v h r row found in
      let valid = Reach-IsValid r h in
      (Step-row id v x valid kept there, Step-keeps id v x valid kept)

  -- `get_version` returns what is stored, while there is a standard.
  get_version_iff :
      (id : ℕ) (v : Version) (s : Store)
      → (get_version id s ≡ ok v)
        ↔ ((is_some s.standard ≡ true) × (find_version id s.versions ≡ some v))
  unfolding get_version
  get_version_iff id v s = (λ h. ground arith, λ (row, found). ground (arith, row, found))

  -- From well-formed rows on, a version that `get_version` returns is returned by it, unchanged, after
  -- any further operations.
  pub Reach-keeps :
      {s t : Store} (id : ℕ) (v : Version)
      → IsValid hash s
      → Reach s t
      → get_version id s ≡ ok v
      → get_version id t ≡ ok v
  Reach-keeps {s} {t} id v h reached got =
      let (row, found) = (get_version_iff id v s).0 got in
      (get_version_iff id v t).1 (Reach-row id v h reached row found)
