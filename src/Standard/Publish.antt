-- ===== src/Standard/Publish.antt =====
-- `publish_standard`. The hash of a snapshot is an argument: it is SHA-256 of canonical JSON.
use cat_backend.Common.{
  ℕ, ◌+◌, String, Bool, true, false, not, ◌||◌, List, [], ◌∷◌, map, Option, none, some,
  if◌then◌else◌, ltb,
}
use cat_backend.Common.Eq.{◌==◌, elem, ℕ-Eq}
use cat_backend.Rubric.Content.{Content}
use cat_backend.Rubric.Validator.{Issue, validate_standard}
use cat_backend.Standard.Store.{
  Version, Standard, Store, Result, ok, err, ◌>>=◌, ◌>>◌, refuse_if, get_row, draft_of,
  find_version, touched, with_row, is_archived, is_published, published, conflict,
  archived_standard, validation_failed, integrity_error,
}

-- `ORDER BY version_number DESC LIMIT 1`
abbrev pub newest : List Version → Option Version
newest [] = none
newest (v ∷ vs) = elim (newest vs) [
  | none ↦ some v
  | some w ↦ if ltb v.version_number w.version_number then some w else some v
]

-- `standard.current_version`, the row that the pointer names.
abbrev pub pointed : Option ℕ → List Version → Option Version
pointed none vs = none
pointed (some id) vs = find_version id vs

abbrev pub or_newest : Option Version → List Version → Option Version
or_newest (some v) vs = some v
or_newest none vs = newest vs

abbrev pub current_of : Store → Standard → Option Version
current_of s row = or_newest (pointed row.current_version_id s.versions) s.versions

-- The insertion, under the two unique constraints of the versions table.
unfoldable pub insert_version : Version → Store → Result Store
insert_version v s =
    if elem v.version_number (map (λ w. w.version_number) s.versions)
      || elem v.content_hash (map (λ w. w.content_hash) s.versions)
    then err integrity_error
    else ok (record s { versions = v ∷ s.versions })

abbrev pub names_version : Option ℕ → ℕ → Bool
names_version none id = false
names_version (some c) id = c == id

-- The row as it is after a publication of the version `id`.
abbrev pub published_row : ℕ → ℕ → Standard → Standard
published_row admin id row =
    touched admin (record row { status = published; current_version_id = some id })

-- An unchanged draft: the current version again, with the lifecycle step if one is due.
unfoldable pub republish : ℕ → Version → Standard → Store → Result (Version × Store)
republish admin current row s =
    if not (is_published row.status) || not (names_version row.current_version_id current.id)
    then ok (current, with_row (published_row admin current.id row) s)
    else ok (current, s)

abbrev pub next_number : Option Version → ℕ
next_number none = 1
next_number (some v) = v.version_number + 1

module _ (hash : Content → ℕ) where
  abbrev pub new_version : ℕ → ℕ → Option String → Content → Option Version → Version
  new_version id admin note content current = record {
    id = id;
    version_number = next_number current;
    schema_version = content.schema_version;
    snapshot = content;
    content_hash = hash content;
    created_by = admin;
    published_by = admin;
    publication_note = note;
  }

  -- A changed draft: a new version, and the pointer to it.
  unfoldable pub publish_new :
      ℕ → ℕ → Option String → Content → Option Version → Standard → Store → Result (Version × Store)
  unfolding insert_version
  publish_new id admin note content current row s = do
    let v = new_version id admin note content current
    s' ← insert_version v s
    ok (v, with_row (published_row admin id row) s')

module _ (casefold : String → String) (issue_le : Issue → Issue → Bool) (hash : Content → ℕ) where
  unfoldable pub publish_standard : ℕ → ℕ → Option String → Store → Result (Version × Store)
  unfolding republish publish_new validate_standard
  publish_standard id admin note s = do
    row ← get_row s
    refuse_if (is_archived row.status) (conflict archived_standard)
    content ← draft_of row
    let validation = validate_standard casefold issue_le content true
    refuse_if (not validation.valid) (validation_failed validation)
    elim (current_of s row) [
      | none ↦ publish_new hash id admin note content none row s
      | some current ↦
          if current.content_hash == hash content
          then republish admin current row s
          else publish_new hash id admin note content (some current) row s
    ]
