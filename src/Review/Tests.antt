-- ===== src/Review/Tests.antt =====
-- A clean upload with a draft script, and one whose script was deleted: the properties of the review
-- at work on them.
use cat_backend.Common.{ℕ, ◌≡◌, ◌≢◌, refl, Bool, true, false, [], ◌∷◌, none, some}
use cat_backend.Script.Registry.{
  Script, ScriptVersion, Registry, Contract, ok, draft, assign, set_published, publish,
}
use cat_backend.Review.Status.{
  ScriptUpload, completed, derive_review_status, derive_actions, linked_script,
  ready_for_conversion, review_rejected,
}
use cat_backend.Review.Requests.{done, mark_rejected, reject_review, publish_review}
use cat_backend.Review.Table.{documented, derive_review_status-documented, deleted_script-hidden}
use cat_backend.Review.Gates.{IsCleared, publish_review-IsCleared, reject_review-final}

abbrev contract : Contract ℕ
contract = record {
  parse = λ format raw. some 0;
  structured = λ content. true;
  validated = λ format content. some content;
}

abbrev script : Bool → Script ℕ
script is_deleted = record {
  id = 1;
  scenario_id = 5;
  name = "Greeting";
  status = draft;
  format = "json";
  draft_content = 2;
  current_version_id = none;
  is_deleted = is_deleted;
  created_by = 9;
}

abbrev registry : Bool → Registry ℕ
registry is_deleted = record { scripts = script is_deleted ∷ []; versions = [] }

abbrev upload : ScriptUpload
upload = record {
  id = 70;
  scan_status = "clean";
  extraction_status = "completed";
  status = completed;
  script_id = some 1;
  rejected_at = none;
  rejected_by = none;
  rejection_reason = none;
}

abbrev version : ScriptVersion ℕ
version = record { id = 30; script_id = 1; version_number = 1; content = 2; published_by = 9 }

abbrev live : Registry ℕ
live = record (assign 1 (set_published 30) (registry false)) { versions = version ∷ [] }

published_now : publish_review contract 30 9 upload (registry false) ≡ done (version, live)
unfolding publish_review
published_now = refl

rejected_now :
    reject_review 9 100 "off topic" upload (registry false)
    ≡ done (mark_rejected 9 100 "off topic" upload)
unfolding reject_review
rejected_now = refl

derive_review_status-documented_example :
    derive_review_status upload (some (script true)) ≡ documented upload (some (script true))
derive_review_status-documented_example =
    derive_review_status-documented upload (some (script true)) refl

deleted_script-hidden_example :
    (documented upload (some (script true)) ≡ review_rejected)
    × (derive_review_status upload (linked_script upload.script_id (registry true))
        ≡ ready_for_conversion)
    × ((derive_actions ready_for_conversion true).can_reject ≡ true)
    × (reject_review 9 100 "off topic" upload (registry true) ≡ done upload)
deleted_script-hidden_example =
    deleted_script-hidden upload 1 9 100 "off topic" true (registry true) (script true) refl refl
      refl refl refl refl refl

publish_review-IsCleared_example :
    (s : Script ℕ) × IsCleared upload (registry false) s
    × (publish contract 30 s.id 9 (registry false) ≡ ok (version, live))
publish_review-IsCleared_example =
    publish_review-IsCleared contract 30 9 upload (registry false) live version published_now

reject_review-final_example :
    publish_review contract 30 9 (mark_rejected 9 100 "off topic" upload) (registry false)
    ≢ done (version, live)
reject_review-final_example =
    reject_review-final contract 30 9 9 100 "off topic" upload
      (mark_rejected 9 100 "off topic" upload) (registry false) (version, live) refl rejected_now
