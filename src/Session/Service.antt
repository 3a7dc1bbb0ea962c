-- ===== src/Session/Service.antt =====
-- app/services/session_service.py. The scenario's persona comes from the language model or from its
-- profile; it is an argument. Events are sent after the commit and cannot undo it.
use cat_backend.Common.{
  ℕ, Bool, true, false, not, ◌&&◌, List, [], ◌∷◌, Option, none, some, if◌then◌else◌, is_some,
  filter, length, ltb,
}
use cat_backend.Common.Eq.{◌==◌, ℕ-Eq}
use cat_backend.Standard.Store
use cat_backend.Standard.Store.{Store, Version}
use cat_backend.Standard.Publish.{pointed}
use cat_backend.Script.Registry.{ScriptVersion, get_active_published_version}
use cat_backend.Session.Campaigns.{Campaign, scenario_exists, has_scenario, trains_in}
use cat_backend.Session.Rows.{
  Session, SessionStatus, Database, Result, find_session, assign, ok, err, scenario_missing,
  not_found, wrong_status, standard_required, pending, active, completed,
}

-- The published version of a campaign's rubric.
abbrev pub published_version : Store → Option Version
published_version s = elim s.standard [
  | none ↦ none
  | some row ↦
      if Store.is_published row.status then pointed row.current_version_id s.versions else none
]

abbrev pub version_of : ℕ → Option Version → Result (Option Version)
version_of campaign none = err (standard_required campaign)
version_of campaign (some v) = ok (some v)

abbrev pub id_of_script : {D : Type 0} → Option (ScriptVersion D) → Option ℕ
id_of_script none = none
id_of_script (some v) = some v.id

abbrev pub id_of_standard : Option Version → Option ℕ
id_of_standard none = none
id_of_standard (some v) = some v.id

abbrev pub is_pending : SessionStatus → Bool
is_pending pending = true
is_pending _ = false

-- `session.status not in ("pending", "active")`
abbrev pub is_over : SessionStatus → Bool
is_over pending = false
is_over active = false
is_over _ = true

abbrev pub set_ended : {P : Type 0} → ℕ → Session P → Session P
set_ended now s = record s { status = completed; ended_at = some now }

abbrev pub set_active : {P : Type 0} → Session P → Session P
set_active s = record s { status = active }

module _ {D P : Type 0} where
  abbrev pub campaigns_of : ℕ → ℕ → Option ℕ → Database D P → List Campaign
  campaigns_of scenario agent none db =
      filter
        (λ c.
          has_scenario c.id scenario db.campaign_scenarios
          && trains_in c.id agent db.campaign_agents)
        db.campaigns
  campaigns_of scenario agent (some campaign) db =
      filter (λ c. has_scenario c.id scenario db.campaign_scenarios && (c.id == campaign))
        db.campaigns

  -- Of several campaigns none is chosen; an explicit campaign is a single row.
  abbrev pub selected : Option ℕ → List Campaign → Database D P → Result (Option Version)
  selected explicit [] db = ok none
  selected explicit (c ∷ cs) db =
      if not (is_some explicit) && ltb 1 (length (c ∷ cs))
      then err (standard_required c.id)
      else version_of c.id (published_version (db.standards c.id))

  unfoldable pub resolve_published_version :
      ℕ → ℕ → Option ℕ → Database D P → Result (Option Version)
  resolve_published_version scenario agent campaign db =
      selected campaign (campaigns_of scenario agent campaign db) db

  abbrev pub new_session : ℕ → ℕ → ℕ → Option ℕ → P → Option Version → Database D P → Session P
  new_session id scenario agent campaign persona version db = record {
    id = id;
    scenario_id = scenario;
    agent_id = agent;
    campaign_id = campaign;
    status = pending;
    persona_context = persona;
    script_version_id = id_of_script (get_active_published_version scenario db.scripts);
    negotiation_standard_version_id = id_of_standard version;
    ended_at = none;
  }

  -- `id` is the fresh id of the row.
  unfoldable pub create_session :
      ℕ → ℕ → ℕ → Option ℕ → P → Database D P → Result (Session P × Database D P)
  create_session id scenario agent campaign persona db =
      if not (scenario_exists scenario db.scenarios)
      then err scenario_missing
      else (elim (resolve_published_version scenario agent campaign db) [
        | err e ↦ err e
        | ok version ↦
            let s = new_session id scenario agent campaign persona version db in
            ok (s, record db { sessions = s ∷ db.sessions })
      ])

  abbrev pub get_session : ℕ → Database D P → Option (Session P)
  get_session id db = find_session id db.sessions

  unfoldable pub end_session : ℕ → ℕ → Database D P → Result (Database D P)
  end_session now id db = elim (get_session id db) [
    | none ↦ err not_found
    | some s ↦
        if is_over s.status
        then err wrong_status
        else ok (record db { sessions = assign id (set_ended now) db.sessions })
  ]

  unfoldable pub activate_session : ℕ → Database D P → Result (Database D P)
  activate_session id db = elim (get_session id db) [
    | none ↦ err not_found
    | some s ↦
        if not (is_pending s.status)
        then err wrong_status
        else ok (record db { sessions = assign id set_active db.sessions })
  ]
