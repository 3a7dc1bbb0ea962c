-- ===== src/Training/Rows.antt =====
-- The rows and the requests of app/services/campaign_service.py: app/models/campaign.py,
-- app/models/user.py and app/schemas/campaign.py. The rows of a table are a list; a new row stands
-- first.
use cat_backend.Common.{
  ℕ, String, Bool, true, false, not, ◌&&◌, List, ◌++◌, Option, none, some, map, filter, length,
}
use cat_backend.Common.Eq.{◌==◌, elem, ℕ-Eq, String-Eq}
use cat_backend.Session.Campaigns.{
  CampaignStatus, CampaignRole, Campaign, CampaignAgent, CampaignScenario, Scenario,
}

pub record User : Type 0 where
  pub id : ℕ
  pub is_active : Bool
  pub role : String
  pub user_type : Option String

pub record Tables : Type 0 where
  pub campaigns : List Campaign
  pub campaign_scenarios : List CampaignScenario
  pub campaign_agents : List CampaignAgent
  pub scenarios : List Scenario
  pub users : List User

pub record AgentAssignment : Type 0 where
  pub agent_id : ℕ
  pub role : CampaignRole

pub record CampaignCreate : Type 0 where
  pub name : String
  pub description : Option String
  pub start_date : Option ℕ
  pub end_date : Option ℕ
  pub scenario_ids : Option (List ℕ)
  pub agents : List AgentAssignment

pub record CampaignUpdate : Type 0 where
  pub name : Option String
  pub description : Option String
  pub status : Option CampaignStatus
  pub start_date : Option ℕ
  pub end_date : Option ℕ
  pub scenario_ids : Option (List ℕ)
  pub agents : Option (List AgentAssignment)

-- The messages of `ValueError`; `database_error` is a statement that the database refuses.
pub data Error : Type 0 where
  name_taken scenarios_invalid agents_invalid not_found dates_invalid database_error : Error

pub data Result (A : Type 0) : Type 0 where
  ok : A → Result A
  err : Error → Result A

unfoldable pub and_then : {A B : Type 0} → Result A → (A → Result B) → Result B
and_then (ok a) f = f a
and_then (err e) f = err e

abbrev pub agent_ids_of : List AgentAssignment → List ℕ
agent_ids_of = map (λ a. a.agent_id)

abbrev pub is_archived : CampaignStatus → Bool
is_archived CampaignStatus.archived = true
is_archived _ = false

abbrev pub user_ids : List User → List ℕ
user_ids = map (λ u. u.id)

abbrev pub is_agent : User → Bool
is_agent u =
    u.is_active && (u.role == "user") && (elim u.user_type [ none ↦ false | some t ↦ t == "agent" ])

-- `select(func.count()).where(id.in_(ids), ...)` over a table.
module _ {A : Type 0} (id_of : A → ℕ) (accepts : A → Bool) where
  abbrev pub count : List ℕ → List A → ℕ
  count ids rows = length (filter (λ r. elem (id_of r) ids && accepts r) rows)

-- The assignments of a request are new rows of the campaign; an edit deletes its old ones first.
abbrev pub insert_agent_associations :
    ℕ → List AgentAssignment → List CampaignAgent → List CampaignAgent
insert_agent_associations campaign agents rows =
    map (λ a. record { campaign_id = campaign; agent_id = a.agent_id; role = a.role }) agents
    ++ rows

abbrev pub replace_agent_associations :
    ℕ → List AgentAssignment → List CampaignAgent → List CampaignAgent
replace_agent_associations campaign agents rows =
    insert_agent_associations campaign agents (filter (λ r. not (r.campaign_id == campaign)) rows)

abbrev pub campaign_ids_of : ℕ → List CampaignAgent → List ℕ
campaign_ids_of agent rows = map (λ r. r.campaign_id) (filter (λ r. r.agent_id == agent) rows)
