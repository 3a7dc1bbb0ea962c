-- ===== src/Review/Gates.antt =====
-- What a publication through the review demands, and that a rejection is final.
use cat_backend.Common.{
  ℕ, ◌≡◌, ◌≢◌, refl, ap, subst, sym, ◌∙◌, ◌⊎◌, String, true, false, List, [], ◌∷◌, Option, none,
  some, arith, Bool-cases, Option-cases, inl, inr,
}
use cat_backend.Common.Eq.{◌==◌, elem, distinct, ℕ-Eq, String-Eq, nat_eq_iff}
use text.Mathlib.TextEquality.{eq_iff}
use cat_backend.Script.Registry.{
  Script, ScriptVersion, Registry, Contract, draft, publish, get_script, find_by, ok,
}
use cat_backend.Script.Active.{found-live, missing_id}
use cat_backend.Script.Rows.{script_ids}
use cat_backend.Review.Status.{
  review_rejected, ScriptUpload, ReviewStatus, derive_review_status, derive_actions, linked_script,
  rejected, of_script, ready_for_review,
}
use cat_backend.Review.Requests.{
  mark_rejected, done, is_ready, find_row, linked_row, reject_review, publish_review,
  is_turned_down,
}

offers :
    (status : ReviewStatus)
    → status ≡ ready_for_review
    → (derive_actions status false).can_publish ≡ true
unfolding derive_actions
offers status e = rw e refl

-- A status that counts as rejected offers no publication.
offers_none :
    (status : ReviewStatus)
    → is_turned_down status ≡ true
    → (derive_actions status false).can_publish ≡ false
unfolding derive_actions
offers_none status e = ground arith

module _ {Data : Type 0} where
  -- The upload is clean and extracted, and its script a draft that is not deleted.
  pub record IsCleared (u : ScriptUpload) (r : Registry Data) (s : Script Data) : Type 0 where
    pub scanned : u.scan_status ≡ "clean"
    pub extracted : u.extraction_status ≡ "completed"
    pub linked : linked_script u.script_id r ≡ some s
    pub drafted : s.status ≡ draft
    pub kept : s.is_deleted ≡ false
    pub offered :
        (derive_actions (derive_review_status u (linked_script u.script_id r)) false).can_publish
        ≡ true

  -- A script is published through the review only if its upload is clean and extracted, the script
  -- is a draft that is not deleted, and the review offers the publication; what is stored is then
  -- what the registry's publication stores.
  pub publish_review-IsCleared :
      (c : Contract Data) (version admin : ℕ) (u : ScriptUpload) (r t : Registry Data)
      (v : ScriptVersion Data)
      → publish_review c version admin u r ≡ done (v, t)
      → (s : Script Data) × IsCleared u r s × (publish c version s.id admin r ≡ ok (v, t))
  unfolding publish_review derive_review_status derive_actions
  publish_review-IsCleared c version admin u r t v e = elim (Option-cases u.script_id) [
    | inl unlinked ↦ ground arith
    | inr (id, linked) ↦ elim (Option-cases (get_script id r)) [
      | inl missing ↦ ground arith
      | inr (s, found) ↦
          let clean : (u.scan_status == "clean") ≡ true = ground arith in
          let out : (u.extraction_status == "completed") ≡ true = ground arith in
          let ready : is_ready (derive_review_status u (some s)) ≡ true = ground arith in
          let state : derive_review_status u (some s) ≡ of_script (some s) = ground arith in
          let link : linked_script u.script_id r ≡ some s = rw linked found in
          let drafted : s.status ≡ draft = ground arith in
          let run : publish c version s.id admin r ≡ ok (v, t) = ground arith in
          let offered : derive_review_status u (some s) ≡ ready_for_review = ground arith in
          (
            s,
            record {
              scanned = (eq_iff u.scan_status "clean").0 clean;
              extracted = (eq_iff u.extraction_status "completed").0 out;
              linked = link;
              drafted = drafted;
              kept = found-live id r.scripts s found;
              offered = offers _ (ap (derive_review_status u) link ∙ offered);
            },
            run,
          )
    ]
  ]

  find_row-script :
      (id : ℕ) (ss : List (Script Data)) (s : Script Data)
      → distinct (script_ids ss) ≡ true
      → find_by (λ x. x.id) id ss ≡ some s
      → find_row id ss ≡ some s
  find_row-script id [] s d e = cc
  find_row-script id (x ∷ ss) s d e = elim (Bool-cases (x.id == id)) [
    | inl here ↦ elim (Bool-cases x.is_deleted) [
      | inl gone ↦
          let alone : elem id (script_ids ss) ≡ false =
            rw (← (nat_eq_iff x.id id).0 here) ground arith in
          let later : find_by (λ y. y.id) id ss ≡ some s = ground arith in
          cc (missing_id id ss alone, later)
      | inr live ↦ ground arith
    ]
    | inr other ↦ rw other (find_row-script id ss s (ground arith) (ground arith))
  ]

  linked_row-script :
      (o : Option ℕ) (r : Registry Data) (s : Script Data)
      → distinct (script_ids r.scripts) ≡ true
      → linked_script o r ≡ some s
      → linked_row o r ≡ some s
  linked_row-script none r s d e = cc
  linked_row-script (some id) r s d e = find_row-script id r.scripts s d e

  -- What a successful rejection stored.
  reject_review-done :
      (admin now : ℕ) (reason : String) (u w : ScriptUpload) (r : Registry Data)
      → reject_review admin now reason u r ≡ done w
      → ((u ≡ w) × (is_turned_down (derive_review_status u (linked_row u.script_id r)) ≡ true))
        ⊎ (w.status ≡ rejected)
  unfolding reject_review
  reject_review-done admin now reason u w r e =
      elim (Bool-cases (is_turned_down (derive_review_status u (linked_row u.script_id r)))) [
        | inl down ↦ inl (ground arith, down)
        | inr up ↦
            let marked : mark_rejected admin now reason u ≡ w = ground arith in
            inr (ap (λ x. x.status) (sym marked))
      ]

  derive-rejected :
      (u : ScriptUpload) (o : Option (Script Data))
      → u.status ≡ rejected
      → derive_review_status u o ≡ review_rejected
  unfolding derive_review_status
  derive-rejected u o e = rw e refl

  -- Where script ids are used once: after a rejection that succeeded, whatever it stored, the upload
  -- is not published through the review as long as the scripts stay as they are.
  pub reject_review-final :
      (c : Contract Data) (version admin publisher now : ℕ) (reason : String) (u w : ScriptUpload)
      (r : Registry Data) (x : ScriptVersion Data × Registry Data)
      → distinct (script_ids r.scripts) ≡ true
      → reject_review admin now reason u r ≡ done w
      → publish_review c version publisher w r ≢ done x
  reject_review-final c version admin publisher now reason u w r (v, t) d e run =
      let (s, cleared, stored) = publish_review-IsCleared c version publisher w r t v run in
      let status = derive_review_status w (linked_script w.script_id r) in
      let down : is_turned_down status ≡ true = elim (reject_review-done admin now reason u w r e) [
        | inl (same, down) ↦
            let down_w : is_turned_down (derive_review_status w (linked_row w.script_id r)) ≡ true =
              subst (λ x. is_turned_down (derive_review_status x (linked_row x.script_id r)) ≡ true)
                same down in
            ap (λ o. is_turned_down (derive_review_status w o))
              (cleared.linked ∙ sym (linked_row-script w.script_id r s d cleared.linked))
            ∙ down_w
        | inr marked ↦ ap is_turned_down (derive-rejected w (linked_script w.script_id r) marked)
      ] in
      cc (cleared.offered, offers_none status down)
