-- ===== src/Review/Table.antt =====
-- The table at the head of app/services/review_service.py, as a list of conditions of which the
-- first that holds decides.
use cat_backend.Common.{
  ℕ, ◌≡◌, refl, String, Bool, true, false, not, ◌||◌, ◌&&◌, List, [], ◌∷◌, Option, none, some,
  if◌then◌else◌, is_some, arith, Bool-cases, Option-cases, inl, inr,
}
use cat_backend.Common.Eq.{◌==◌, elem, distinct, ℕ-Eq, String-Eq, nat_eq_iff}
use cat_backend.Script.Registry.{
  Script, Registry, ScriptStatus, draft, published, unpublished, find_by,
}
use cat_backend.Script.Rows.{script_ids}
use cat_backend.Script.Active.{missing_id}
use cat_backend.Review.Status.{
  ScriptUpload, UploadStatus, completed, ReviewStatus, review_rejected, infected, scan_failed,
  extraction_failed, processing, ready_for_conversion, ready_for_review, review_published,
  is_rejected, is_failed, is_underway, is_deleted_upload, derive_review_status, derive_actions,
  linked_script,
}
use cat_backend.Review.Requests.{find_row, reject_review, done}

abbrev pub first_match : List (Bool × ReviewStatus) → ReviewStatus
first_match [] = processing
first_match ((holds, status) ∷ rows) = let rest = first_match rows in if holds then status else rest

abbrev pub is_completed : UploadStatus → Bool
is_completed completed = true
is_completed _ = false

abbrev pub in_status : ScriptStatus → ScriptStatus → Bool
in_status draft draft = true
in_status published published = true
in_status unpublished unpublished = true
in_status _ _ = false

module _ {Data : Type 0} where
  abbrev pub holds_of : (Script Data → Bool) → Option (Script Data) → Bool
  holds_of test none = false
  holds_of test (some s) = test s

  unfoldable pub documented : ScriptUpload → Option (Script Data) → ReviewStatus
  documented u script = first_match (
      (is_rejected u.status, review_rejected)
      ∷ (u.scan_status == "infected", infected)
      ∷ (u.scan_status == "error", scan_failed)
      ∷ (u.extraction_status == "failed", extraction_failed)
      ∷ (is_failed u.status, processing)
      ∷ ((u.scan_status == "pending") || (u.scan_status == "scanning"), processing)
      ∷ (u.extraction_status == "pending", processing)
      ∷ (is_underway u.status, processing)
      ∷ (is_deleted_upload u.status, review_rejected)
      ∷ (is_completed u.status && not (is_some u.script_id), ready_for_conversion)
      ∷ (holds_of (λ s. s.is_deleted) script, review_rejected)
      ∷ (holds_of (λ s. in_status s.status draft) script, ready_for_review)
      ∷ (holds_of (λ s. in_status s.status published) script, review_published)
      ∷ (holds_of (λ s. in_status s.status unpublished) script, review_rejected)
      ∷ [])

  -- With the linked row at hand, deleted or not, the derived status is the documented one.
  pub derive_review_status-documented :
      (u : ScriptUpload) (row : Option (Script Data))
      → is_some row ≡ is_some u.script_id
      → derive_review_status u row ≡ documented u row
  unfolding derive_review_status documented
  derive_review_status-documented u row linked = elim (Option-cases u.script_id) [
    | inl unlinked ↦ ground (arith, linked)
    | inr (id, link) ↦ ground (arith, linked)
  ]

  get_script-row :
      (id : ℕ) (ss : List (Script Data)) (s : Script Data)
      → distinct (script_ids ss) ≡ true
      → find_row id ss ≡ some s
      → s.is_deleted ≡ true
      → find_by (λ x. x.id) id ss ≡ none
  get_script-row id [] s d e gone = refl
  get_script-row id (x ∷ ss) s d e gone = elim (Bool-cases (x.id == id)) [
    | inl here ↦
        let first : x ≡ s = ground arith in
        let alone : elem id (script_ids ss) ≡ false =
          rw (← (nat_eq_iff x.id id).0 here) ground arith in
        let rest : find_by (λ y. y.id) id ss ≡ none = missing_id id ss alone in
        let dead : x.is_deleted ≡ true = rw first gone in rw (here, dead) rest
    | inr other ↦ rw other (get_script-row id ss s (ground arith) (ground arith) gone)
  ]

  -- For a clean and completed upload whose script was deleted, the loader hides the script: the
  -- table says that the upload is rejected, the review shows it as ready for conversion with
  -- rejection allowed, and a rejection succeeds without storing anything.
  pub deleted_script-hidden :
      (u : ScriptUpload) (id admin now : ℕ) (reason : String) (source_exists : Bool)
      (r : Registry Data) (s : Script Data)
      → distinct (script_ids r.scripts) ≡ true
      → u.script_id ≡ some id
      → find_row id r.scripts ≡ some s
      → s.is_deleted ≡ true
      → u.scan_status ≡ "clean"
      → u.extraction_status ≡ "completed"
      → u.status ≡ completed
      → (documented u (some s) ≡ review_rejected)
        × (derive_review_status u (linked_script u.script_id r) ≡ ready_for_conversion)
        × ((derive_actions ready_for_conversion source_exists).can_reject ≡ true)
        × (reject_review admin now reason u r ≡ done u)
  unfolding derive_review_status documented reject_review derive_actions
  deleted_script-hidden u id admin now reason source_exists r s d linked found gone clean extracted
        complete =
      let hidden = get_script-row id r.scripts s d found gone in
      rw (clean, extracted, complete, linked, found, hidden, gone) (refl, refl, refl, refl)
