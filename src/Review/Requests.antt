-- ===== src/Review/Requests.antt =====
-- `reject_review` and `publish_review` of app/api/review.py, for an upload that exists. The
-- registry's `publish` is that of app/services/script_registry.py.
use cat_backend.Common.{
  ℕ, String, Bool, true, false, not, List, [], ◌∷◌, Option, none, some, if◌then◌else◌,
}
use cat_backend.Common.Eq.{◌==◌, ℕ-Eq, String-Eq}
use cat_backend.Script.Registry.{
  Script, ScriptVersion, Registry, Contract, Error, ok, err, publish, get_script,
}
use cat_backend.Review.Status.{
  ScriptUpload, ReviewStatus, rejected, is_rejected, derive_review_status, ready_for_review,
  review_published, review_rejected,
}

pub data Refusal : Type 0 where
  no_linked_script script_unavailable already_published reject_not_allowed : Refusal
  publish_not_allowed : Refusal
  registry_refused : Error → Refusal

pub data Response (A : Type 0) : Type 0 where
  done : A → Response A
  refused : Refusal → Response A

abbrev pub is_ready : ReviewStatus → Bool
is_ready ready_for_review = true
is_ready _ = false

abbrev pub is_out : ReviewStatus → Bool
is_out review_published = true
is_out _ = false

abbrev pub is_turned_down : ReviewStatus → Bool
is_turned_down review_rejected = true
is_turned_down _ = false

abbrev pub mark_rejected : ℕ → ℕ → String → ScriptUpload → ScriptUpload
mark_rejected admin now reason u = record u {
  status = rejected;
  rejected_at = some now;
  rejected_by = some admin;
  rejection_reason = some reason;
}

module _ {Data : Type 0} where
  -- `select(Script)` by id alone, deleted rows included.
  abbrev pub find_row : ℕ → List (Script Data) → Option (Script Data)
  find_row id [] = none
  find_row id (s ∷ ss) = if s.id == id then some s else find_row id ss

  abbrev pub linked_row : Option ℕ → Registry Data → Option (Script Data)
  linked_row none r = none
  linked_row (some id) r = find_row id r.scripts

  -- The upload as it is stored afterwards; a repeated rejection stores nothing.
  unfoldable pub reject_review :
      ℕ → ℕ → String → ScriptUpload → Registry Data → Response ScriptUpload
  unfolding derive_review_status
  reject_review admin now reason u r =
      let status = derive_review_status u (linked_row u.script_id r) in
      if is_out status
      then refused reject_not_allowed
      else if is_turned_down status
      then done u
      else done (mark_rejected admin now reason u)

  unfoldable pub publish_review :
      Contract Data
      → ℕ
      → ℕ
      → ScriptUpload
      → Registry Data
      → Response (ScriptVersion Data × Registry Data)
  unfolding derive_review_status publish
  publish_review c version admin u r = elim u.script_id [
    | none ↦ refused no_linked_script
    | some id ↦
        if not (u.scan_status == "clean")
        then refused publish_not_allowed
        else if not (u.extraction_status == "completed")
        then refused publish_not_allowed
        else if is_rejected u.status
        then refused publish_not_allowed
        else elim (get_script id r) [
          | none ↦ refused script_unavailable
          | some script ↦
              let status = derive_review_status u (some script) in
              if not (is_ready status)
              then (if is_out status
                  then refused already_published
                  else refused publish_not_allowed)
              else elim (publish c version script.id admin r) [
                | err e ↦ refused (registry_refused e)
                | ok t ↦ done t
              ]
        ]
  ]
