-- ===== src/Session/Access.antt =====
-- Who may start and see a session: app/services/campaign_validation_service.py,
-- app/services/session_access.py and the route `create_session` of app/api/sessions.py.
use cat_backend.Common.{ℕ, String, Bool, true, false, not, ◌&&◌, Option, none, some, if◌then◌else◌}
use cat_backend.Common.Eq.{◌==◌, ℕ-Eq, String-Eq, elem}
use cat_backend.Session.Campaigns.{
  Campaign, is_active_status, is_assigned, has_scenario, find_campaign, get_trainer_campaign,
  get_trainer_campaign_agent_ids,
}
use cat_backend.Session.Rows
use cat_backend.Session.Rows.{Session, Database, Error, Result}
use cat_backend.Session.Service.{create_session, get_session}

-- The user's role and type are texts.
pub record User : Type 0 where
  pub id : ℕ
  pub role : String
  pub user_type : Option String

pub data HttpError : Type 0 where
  campaign_not_found not_assigned campaign_inactive scenario_outside : HttpError
  session_not_found access_denied : HttpError
  scenario_missing : HttpError
  published_standard_required : ℕ → HttpError

pub data Response (A : Type 0) : Type 0 where
  ok : A → Response A
  error : HttpError → Response A

-- `none` is the end of `validate_campaign_context` without an exception.
abbrev pub membership : Bool → Option HttpError
membership has = if not has then some scenario_outside else none

abbrev pub requirements : Bool → Bool → Bool → Bool → Option HttpError
requirements is_admin assigned active has =
    if not is_admin && not assigned
    then some not_assigned
    else if not is_admin && not active
    then some campaign_inactive
    else membership has

abbrev pub is_admin_role : String → Bool
is_admin_role role = role == "admin"

abbrev pub is_trainer_user : User → Bool
is_trainer_user user =
    (user.role == "user") && (elim user.user_type [ none ↦ false | some type ↦ type == "trainer" ])

module _ {D P : Type 0} where
  unfoldable pub validate_campaign_context : ℕ → ℕ → ℕ → Bool → Database D P → Option HttpError
  validate_campaign_context campaign agent scenario is_admin db =
      elim (find_campaign campaign db.campaigns) [
        | none ↦ some campaign_not_found
        | some c ↦
            requirements is_admin (is_assigned campaign agent db.campaign_agents)
              (is_active_status c.status) (has_scenario campaign scenario db.campaign_scenarios)
      ]

  abbrev pub in_trainer_campaign : Option Campaign → ℕ → Database D P → Bool
  in_trainer_campaign none agent db = false
  in_trainer_campaign (some c) agent db =
      elem agent (get_trainer_campaign_agent_ids c.id db.campaign_agents)

  abbrev pub may_view : User → ℕ → Database D P → Bool
  may_view user owner db =
      if is_admin_role user.role
      then true
      else if is_trainer_user user
      then in_trainer_campaign (get_trainer_campaign user.id db.campaigns db.campaign_agents) owner
          db
      else owner == user.id

  unfoldable pub get_authorized_session : ℕ → User → Database D P → Response (Session P)
  get_authorized_session id user db = elim (get_session id db) [
    | none ↦ error session_not_found
    | some s ↦ if may_view user s.agent_id db then ok s else error access_denied
  ]

  abbrev pub to_response : Result (Session P × Database D P) → Response (Session P × Database D P)
  to_response (Rows.ok result) = ok result
  to_response (Rows.err (Rows.standard_required campaign)) =
      error (published_standard_required campaign)
  to_response (Rows.err Rows.scenario_missing) = error scenario_missing
  to_response (Rows.err Rows.not_found) = error scenario_missing
  to_response (Rows.err Rows.wrong_status) = error scenario_missing

  -- The route of an authenticated user.
  unfoldable pub create_session_route :
      ℕ → ℕ → User → Option ℕ → P → Database D P → Response (Session P × Database D P)
  create_session_route id scenario user none persona db =
      to_response (create_session id scenario user.id none persona db)
  create_session_route id scenario user (some campaign) persona db =
      elim (validate_campaign_context campaign user.id scenario (is_admin_role user.role) db) [
        | some e ↦ error e
        | none ↦ to_response (create_session id scenario user.id (some campaign) persona db)
      ]
