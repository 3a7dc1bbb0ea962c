-- ===== src/Session/Campaigns.antt =====
-- The rows of app/models/campaign.py, with what app/services/trainer_service.py and
-- app/services/scenario_repository.py ask of them.
use cat_backend.Common.{
  ℕ, String, Bool, true, false, not, List, [], ◌∷◌, Option, none, some, ◌&&◌, if◌then◌else◌, any,
  map, filter,
}
use cat_backend.Common.Eq.{◌==◌, ℕ-Eq}

pub data CampaignStatus : Type 0 where
  draft active completed archived : CampaignStatus

pub data CampaignRole : Type 0 where
  team_lead participant observer trainer : CampaignRole

-- A date is its ordinal.
pub record Campaign : Type 0 where
  pub id : ℕ
  pub name : String
  pub description : Option String
  pub status : CampaignStatus
  pub start_date : Option ℕ
  pub end_date : Option ℕ

pub record CampaignAgent : Type 0 where
  pub campaign_id : ℕ
  pub agent_id : ℕ
  pub role : CampaignRole

pub record CampaignScenario : Type 0 where
  pub campaign_id : ℕ
  pub scenario_id : ℕ

pub record Scenario : Type 0 where
  pub id : ℕ
  pub is_active : Bool

abbrev pub is_trainer : CampaignRole → Bool
is_trainer trainer = true
is_trainer _ = false

abbrev pub is_active_status : CampaignStatus → Bool
is_active_status active = true
is_active_status _ = false

-- `get_scenario_by_id` of an active scenario.
abbrev pub scenario_exists : ℕ → List Scenario → Bool
scenario_exists id = any (λ s. (s.id == id) && s.is_active)

abbrev pub has_scenario : ℕ → ℕ → List CampaignScenario → Bool
has_scenario campaign scenario =
    any (λ l. (l.campaign_id == campaign) && (l.scenario_id == scenario))

-- The assignments that count for training: the trainers' do not.
abbrev pub trains_in : ℕ → ℕ → List CampaignAgent → Bool
trains_in campaign agent =
    any (λ a. (a.campaign_id == campaign) && (a.agent_id == agent) && not (is_trainer a.role))

abbrev pub is_assigned : ℕ → ℕ → List CampaignAgent → Bool
is_assigned campaign agent = any (λ a. (a.campaign_id == campaign) && (a.agent_id == agent))

abbrev pub has_trainer : ℕ → ℕ → List CampaignAgent → Bool
has_trainer campaign user =
    any (λ a. (a.campaign_id == campaign) && (a.agent_id == user) && is_trainer a.role)

abbrev pub find_campaign : ℕ → List Campaign → Option Campaign
find_campaign id [] = none
find_campaign id (c ∷ cs) = if c.id == id then some c else find_campaign id cs

-- `get_trainer_campaign`: an active campaign of the trainer, in the order of the rows.
abbrev pub get_trainer_campaign : ℕ → List Campaign → List CampaignAgent → Option Campaign
get_trainer_campaign user [] assignments = none
get_trainer_campaign user (c ∷ cs) assignments =
    if has_trainer c.id user assignments && is_active_status c.status
    then some c
    else get_trainer_campaign user cs assignments

abbrev pub is_agent_role : CampaignRole → Bool
is_agent_role participant = true
is_agent_role team_lead = true
is_agent_role _ = false

abbrev pub get_trainer_campaign_agent_ids : ℕ → List CampaignAgent → List ℕ
get_trainer_campaign_agent_ids campaign assignments =
    map (λ a. a.agent_id)
      (filter (λ a. (a.campaign_id == campaign) && is_agent_role a.role) assignments)
