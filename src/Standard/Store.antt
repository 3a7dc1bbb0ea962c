-- ===== src/Standard/Store.antt =====
-- The rows, and every operation but publication. Ids, admins and sessions are numbers.
use cat_backend.Common.{
  ℕ, ◌+◌, String, Bool, true, false, not, ◌||◌, List, [], ◌∷◌, map, Option, none, some,
  if◌then◌else◌, is_some, is_empty, any,
}
use cat_backend.Common.Eq.{◌==◌, elem, ℕ-Eq}
use cat_backend.Rubric.Content.{Content}
use cat_backend.Rubric.Validator.{Issue, ValidationResult, validate_standard}

pub data Status : Type 0 where
  draft published archived : Status

pub record Version : Type 0 where
  pub id : ℕ
  pub version_number : ℕ
  pub schema_version : ℕ
  pub snapshot : Content
  pub content_hash : ℕ
  pub created_by : ℕ
  pub published_by : ℕ
  pub publication_note : Option String

pub record Standard : Type 0 where
  pub id : ℕ
  pub name : String
  pub description : Option String
  pub status : Status
  pub overall_passing_score : ℕ
  pub draft_content : Option Content
  pub current_version_id : Option ℕ
  pub revision : ℕ
  pub created_by : ℕ
  pub updated_by : ℕ

pub record Store : Type 0 where
  pub campaign_exists : Bool
  pub standard : Option Standard
  pub versions : List Version
  pub pinned : List ℕ

pub data Conflict : Type 0 where
  already_has_standard not_a_draft stale_revision has_versions archived_standard already_draft :
      Conflict

pub data Error : Type 0 where
  not_found : Error
  conflict : Conflict → Error
  validation_failed : ValidationResult → Error
  schema_error integrity_error : Error

pub data Result (A : Type 0) : Type 0 where
  ok : A → Result A
  err : Error → Result A

infixl 5 ◌>>=◌ ◌>>◌
abbrev pub ◌>>=◌ : {A B : Type 0} → Result A → (A → Result B) → Result B
ok a >>= f = f a
err e >>= f = err e

abbrev pub ◌>>◌ : {B : Type 0} → Result (Unit {0}) → Result B → Result B
m >> k = m >>= λ _. k

-- `if condition: raise error`
abbrev pub refuse_if : Bool → Error → Result (Unit {0})
refuse_if bad e = if bad then err e else ok tt

abbrev pub or_err : {A : Type 0} → Option A → Error → Result A
or_err none e = err e
or_err (some a) e = ok a

abbrev pub is_draft : Status → Bool
is_draft draft = true
is_draft _ = false

abbrev pub is_published : Status → Bool
is_published published = true
is_published _ = false

abbrev pub is_archived : Status → Bool
is_archived archived = true
is_archived _ = false

-- `_get_standard`; the row lock makes each operation one step.
abbrev pub get_row : Store → Result Standard
get_row s = or_err s.standard not_found

-- `standard.updated_by = admin_id; standard.revision += 1`, with the commit.
abbrev pub touched : ℕ → Standard → Standard
touched admin row = record row { updated_by = admin; revision = row.revision + 1 }

abbrev pub with_row : Standard → Store → Store
with_row row s = record s { standard = some row }

-- `id` is the fresh UUID of the row.
unfoldable pub create_standard :
    ℕ → ℕ → String → Option String → Content → Store → Result (Standard × Store)
create_standard id admin name description content s = do
  refuse_if (not s.campaign_exists) not_found
  refuse_if (is_some s.standard) (conflict already_has_standard)
  let row : Standard = record {
    id = id;
    name = name;
    description = description;
    status = draft;
    overall_passing_score = content.overall_passing_score;
    draft_content = some content;
    current_version_id = none;
    revision = 1;
    created_by = admin;
    updated_by = admin;
  }
  ok (row, with_row row s)

-- The three optional changes of a draft.
abbrev pub set_name : Option String → Standard → Standard
set_name none row = row
set_name (some name) row = record row { name = name }

abbrev pub set_description : Option String → Standard → Standard
set_description none row = row
set_description (some d) row = record row { description = some d }

abbrev pub set_content : Option Content → Standard → Standard
set_content none row = row
set_content (some c) row = record row {
  overall_passing_score = c.overall_passing_score;
  draft_content = some c;
}

unfoldable pub update_draft :
    ℕ → ℕ → Option String → Option String → Option Content → Store → Result (Standard × Store)
update_draft admin expected_revision name description content s = do
  row ← get_row s
  refuse_if (not (is_draft row.status)) (conflict not_a_draft)
  refuse_if (not (row.revision == expected_revision)) (conflict stale_revision)
  let new = touched admin (set_content content (set_description description (set_name name row)))
  ok (new, with_row new s)

-- A session is pinned to one of the standard's versions.
abbrev pub pinned_exists : Store → Bool
pinned_exists s = any (λ p. elem p (map (λ v. v.id) s.versions)) s.pinned

unfoldable pub delete_draft : Store → Result Store
delete_draft s = do
  row ← get_row s
  refuse_if (not (is_draft row.status)) (conflict not_a_draft)
  refuse_if (not (is_empty s.versions) || pinned_exists s) (conflict has_versions)
  ok (record s { standard = none })

unfoldable pub reopen_draft : ℕ → Store → Result (Standard × Store)
reopen_draft admin s = do
  row ← get_row s
  refuse_if (is_draft row.status) (conflict already_draft)
  let new = touched admin (record row { status = draft })
  ok (new, with_row new s)

-- A repeated request changes nothing.
unfoldable pub archive_standard : ℕ → Store → Result (Standard × Store)
archive_standard admin s = do
  row ← get_row s
  let new = touched admin (record row { status = archived })
  if is_archived row.status then ok (row, s) else ok (new, with_row new s)

abbrev pub find_version : ℕ → List Version → Option Version
find_version id [] = none
find_version id (v ∷ vs) = if v.id == id then some v else find_version id vs

unfoldable pub get_version : ℕ → Store → Result Version
get_version id s = do row ← get_row s; or_err (find_version id s.versions) not_found

-- `NegotiationStandardContent.model_validate(standard.draft_content or {})`
abbrev pub draft_of : Standard → Result Content
draft_of row = or_err row.draft_content schema_error

module _ (casefold : String → String) (issue_le : Issue → Issue → Bool) where
  unfoldable pub validate_draft : Store → Result ValidationResult
  unfolding validate_standard
  validate_draft s = do
    row ← get_row s
    content ← draft_of row
    ok (validate_standard casefold issue_le content false)
