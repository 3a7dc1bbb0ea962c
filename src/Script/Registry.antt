-- ===== src/Script/Registry.antt =====
-- The rows of app/models/script.py and the operations of app/services/script_registry.py. What a
-- definition parses to is a type `Data`; parsing and validation (app/services/script_validator.py,
-- on JSON, YAML and pydantic) are the interface `Contract`. An operation that raises has committed
-- nothing, so its result carries no store.
use cat_backend.Common.{
  ℕ, ◌+◌, String, Bool, true, false, not, ◌&&◌, List, [], ◌∷◌, map, Option, none, some,
  if◌then◌else◌, any, ltb,
}
use cat_backend.Common.Eq.{◌==◌, ℕ-Eq, String-Eq}

pub data ScriptStatus : Type 0 where
  draft published unpublished : ScriptStatus

pub record Script (Data : Type 0) : Type 0 where
  pub id : ℕ
  pub scenario_id : ℕ
  pub name : String
  pub status : ScriptStatus
  pub format : String
  pub draft_content : Data
  pub current_version_id : Option ℕ
  pub is_deleted : Bool
  pub created_by : ℕ

pub record ScriptVersion (Data : Type 0) : Type 0 where
  pub id : ℕ
  pub script_id : ℕ
  pub version_number : ℕ
  pub content : Data
  pub published_by : ℕ

pub record Registry (Data : Type 0) : Type 0 where
  pub scripts : List (Script Data)
  pub versions : List (ScriptVersion Data)

-- `parse` is `parse_script_definition` of a format and a text, `structured` is
-- `validate_contract_structure`, and `validated` is `validate_script` of a draft in its format, with
-- the contract that it returns; `none` and `false` are exceptions.
pub record Contract (Data : Type 0) : Type 0 where
  pub parse : String → String → Option Data
  pub structured : Data → Bool
  pub validated : String → Data → Option Data

pub data Error : Type 0 where
  not_found format_error validation_error integrity_error : Error

pub data Result (A : Type 0) : Type 0 where
  ok : A → Result A
  err : Error → Result A

abbrev pub is_published : ScriptStatus → Bool
is_published published = true
is_published _ = false

module _ {Data : Type 0} where
  -- `select(Script)` of a key, without the deleted rows.
  abbrev pub find_by : (Script Data → ℕ) → ℕ → List (Script Data) → Option (Script Data)
  find_by key k [] = none
  find_by key k (s ∷ ss) = if (key s == k) && not s.is_deleted then some s else find_by key k ss

  abbrev pub get_script : ℕ → Registry Data → Option (Script Data)
  get_script id r = find_by (λ s. s.id) id r.scripts

  -- The row `id` after the assignments `f`.
  abbrev pub assign : ℕ → (Script Data → Script Data) → Registry Data → Registry Data
  assign id f r = record r { scripts = map (λ s. if s.id == id then f s else s) r.scripts }

  abbrev pub set_draft : String → Data → Script Data → Script Data
  set_draft format content s = record s { draft_content = content; format = format }

  abbrev pub set_published : ℕ → Script Data → Script Data
  set_published version s = record s { status = published; current_version_id = some version }

  abbrev pub set_unpublished : Script Data → Script Data
  set_unpublished s = record s { status = unpublished }

  abbrev pub set_deleted : Script Data → Script Data
  set_deleted s = record s { is_deleted = true }

  -- `func.max(version_number)` of a script, with 0 for none.
  abbrev pub max_version : ℕ → List (ScriptVersion Data) → ℕ
  max_version id [] = 0
  max_version id (v ∷ vs) =
      let rest = max_version id vs in
      if (v.script_id == id) && ltb rest v.version_number then v.version_number else rest

  abbrev pub find_version : ℕ → List (ScriptVersion Data) → Option (ScriptVersion Data)
  find_version id [] = none
  find_version id (v ∷ vs) = if v.id == id then some v else find_version id vs

  unfoldable pub unpublish : ℕ → Registry Data → Result (Registry Data)
  unpublish id r = elim (get_script id r) [
    | none ↦ err not_found
    | some s ↦ ok (assign id set_unpublished r)
  ]

  unfoldable pub delete_script : ℕ → Registry Data → Result (Registry Data)
  delete_script id r = elim (get_script id r) [
    | none ↦ err not_found
    | some s ↦ ok (assign id set_deleted r)
  ]

  -- The version that training calls for a scenario use.
  abbrev pub current_version : Option ℕ → List (ScriptVersion Data) → Option (ScriptVersion Data)
  current_version none vs = none
  current_version (some id) vs = find_version id vs

  abbrev pub active_of :
      Option (Script Data) → List (ScriptVersion Data) → Option (ScriptVersion Data)
  active_of none vs = none
  active_of (some s) vs =
      if not (is_published s.status) then none else current_version s.current_version_id vs

  unfoldable pub get_active_published_version : ℕ → Registry Data → Option (ScriptVersion Data)
  get_active_published_version scenario r =
      active_of (find_by (λ s. s.scenario_id) scenario r.scripts) r.versions

  module _ (c : Contract Data) where
    -- `parse_script_definition`, then `validate_contract_structure`.
    abbrev pub definition_of : String → String → Result Data
    definition_of format raw = elim (c.parse format raw) [
      | none ↦ err format_error
      | some content ↦ if c.structured content then ok content else err validation_error
    ]

    -- `create_draft`, and with a flush for the commit `create_draft_in_transaction`. A scenario has
    -- one script row, deleted ones included.
    unfoldable pub create_draft :
        ℕ → ℕ → String → ℕ → String → String → Registry Data → Result (Script Data × Registry Data)
    create_draft id admin name scenario format raw r = elim (definition_of format raw) [
      | err e ↦ err e
      | ok content ↦
          let s : Script Data = record {
            id = id;
            scenario_id = scenario;
            name = name;
            status = draft;
            format = format;
            draft_content = content;
            current_version_id = none;
            is_deleted = false;
            created_by = admin;
          } in
          if any (λ (o : Script Data). o.scenario_id == scenario) r.scripts
          then err integrity_error
          else ok (s, record r { scripts = s ∷ r.scripts })
    ]

    unfoldable pub update_draft : ℕ → String → String → Registry Data → Result (Registry Data)
    update_draft id raw format r = elim (get_script id r) [
      | none ↦ err not_found
      | some s ↦ elim (definition_of format raw) [
        | err e ↦ err e
        | ok content ↦ ok (assign id (set_draft format content) r)
      ]
    ]

    abbrev pub new_version : ℕ → ℕ → ℕ → Data → Registry Data → ScriptVersion Data
    new_version version admin id content r = record {
      id = version;
      script_id = id;
      version_number = max_version id r.versions + 1;
      content = content;
      published_by = admin;
    }

    -- `version` is the fresh id of the new row.
    unfoldable pub publish : ℕ → ℕ → ℕ → Registry Data → Result (ScriptVersion Data × Registry Data)
    publish version id admin r = elim (get_script id r) [
      | none ↦ err not_found
      | some s ↦ elim (c.validated s.format s.draft_content) [
        | none ↦ err validation_error
        | some content ↦
            let v = new_version version admin id content r in
            ok (v, record (assign id (set_published version) r) { versions = v ∷ r.versions })
      ]
    ]
