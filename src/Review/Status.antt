-- ===== src/Review/Status.antt =====
-- `derive_review_status`, `derive_actions` and `load_upload_with_script` of
-- app/services/review_service.py, on the rows of app/models/script_upload.py.
use cat_backend.Common.{
  ℕ, String, Bool, true, false, not, ◌||◌, Option, none, some, if◌then◌else◌, is_some,
}
use cat_backend.Common.Eq.{◌==◌, ℕ-Eq, String-Eq}
use cat_backend.Script.Registry.{
  Script, Registry, ScriptStatus, draft, published, unpublished, get_script,
}

pub data UploadStatus : Type 0 where
  pending scanning extracting completed failed rejected deleted : UploadStatus

-- The columns that the review reads and writes.
pub record ScriptUpload : Type 0 where
  pub id : ℕ
  pub scan_status : String
  pub extraction_status : String
  pub status : UploadStatus
  pub script_id : Option ℕ
  pub rejected_at : Option ℕ
  pub rejected_by : Option ℕ
  pub rejection_reason : Option String

pub data ReviewStatus : Type 0 where
  review_rejected infected scan_failed extraction_failed processing : ReviewStatus
  ready_for_conversion ready_for_review review_published : ReviewStatus

abbrev pub is_rejected : UploadStatus → Bool
is_rejected rejected = true
is_rejected _ = false

abbrev pub is_deleted_upload : UploadStatus → Bool
is_deleted_upload deleted = true
is_deleted_upload _ = false

abbrev pub is_failed : UploadStatus → Bool
is_failed failed = true
is_failed _ = false

-- `upload.status in (PENDING, SCANNING, EXTRACTING)`
abbrev pub is_underway : UploadStatus → Bool
is_underway pending = true
is_underway scanning = true
is_underway extracting = true
is_underway _ = false

abbrev pub of_lifecycle : ScriptStatus → ReviewStatus
of_lifecycle draft = ready_for_review
of_lifecycle published = review_published
of_lifecycle unpublished = review_rejected

module _ {Data : Type 0} where
  abbrev pub of_script : Option (Script Data) → ReviewStatus
  of_script none = ready_for_conversion
  of_script (some s) = if s.is_deleted then review_rejected else of_lifecycle s.status

  unfoldable pub derive_review_status : ScriptUpload → Option (Script Data) → ReviewStatus
  derive_review_status u script =
      if is_rejected u.status
      then review_rejected
      else if u.scan_status == "infected"
      then infected
      else if u.scan_status == "error"
      then scan_failed
      else if u.extraction_status == "failed"
      then extraction_failed
      else if is_underway u.status
      then processing
      else if (u.scan_status == "pending") || (u.scan_status == "scanning")
      then processing
      else if u.extraction_status == "pending"
      then processing
      else if is_failed u.status
      then processing
      else if is_deleted_upload u.status
      then review_rejected
      else if not (is_some u.script_id)
      then ready_for_conversion
      else of_script script

  -- The script that `load_upload_with_script` passes on: not a deleted one.
  abbrev pub linked_script : Option ℕ → Registry Data → Option (Script Data)
  linked_script none r = none
  linked_script (some id) r = get_script id r

pub record Actions : Type 0 where
  pub can_edit : Bool
  pub can_retry : Bool
  pub can_reject : Bool
  pub can_publish : Bool

abbrev actions : Bool → Bool → Bool → Bool → Actions
actions edit retry reject publish = record {
  can_edit = edit;
  can_retry = retry;
  can_reject = reject;
  can_publish = publish;
}

-- `source_exists` is `_quarantine_source_exists(upload)`.
unfoldable pub derive_actions : ReviewStatus → Bool → Actions
derive_actions ready_for_review source_exists = actions true true true true
derive_actions ready_for_conversion source_exists = actions false true true false
derive_actions extraction_failed source_exists = actions false source_exists true false
derive_actions scan_failed source_exists = actions false source_exists true false
derive_actions infected source_exists = actions false false true false
derive_actions processing source_exists = actions false false false false
derive_actions review_published source_exists = actions false false false false
derive_actions review_rejected source_exists = actions false false false false
