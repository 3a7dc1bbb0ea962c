-- ===== src/Training/Tests.antt =====
-- A campaign of two trainees, one of them removed by an edit.
use cat_backend.Common.{
  ℕ, ◌≡◌, refl, Bool, true, false, List, [], ◌∷◌, Member, none, some, inl, All, filter,
}
use cat_backend.Common.Eq.{distinct, elem, ℕ-Eq}
use cat_backend.Session.Campaigns.{Campaign, CampaignScenario, active, draft, participant}
use cat_backend.Event.Store.{EventStore}
use cat_backend.Event.Clients.{ConnectedClient}
use cat_backend.Training.Rows.{
  User, Tables, AgentAssignment, CampaignCreate, CampaignUpdate, Error, Result, ok, err, and_then,
  agent_ids_of, campaign_ids_of, is_agent,
}
use cat_backend.Training.Service.{
  create_campaign, update_campaign, archive_campaign, notify_update, inserted, set_archived,
}
use cat_backend.Training.Counts.{valid}
use cat_backend.Training.Assigned.{update_campaign-agents, of_campaign, elsewhere, assignments}
use cat_backend.Training.Scopes.{removed_agent-hears}
use cat_backend.Training.Steps
use cat_backend.Training.Steps.{IsOrdered, archived_of, Reach, done, then_step, Reach-IsOrdered}

abbrev trainee : ℕ → User
trainee id = record { id = id; is_active = true; role = "user"; user_type = some "agent" }

abbrev spring : Campaign
spring = record {
  id = 4;
  name = "Spring";
  description = none;
  status = active;
  start_date = none;
  end_date = none;
}

abbrev tables : Tables
tables = record {
  campaigns = spring ∷ [];
  campaign_scenarios = [];
  campaign_agents =
      record { campaign_id = 4; agent_id = 8; role = participant }
      ∷ record { campaign_id = 4; agent_id = 9; role = participant }
      ∷ record { campaign_id = 5; agent_id = 9; role = participant }
      ∷ [];
  scenarios = [];
  users = trainee 8 ∷ trainee 9 ∷ [];
}

abbrev only_eight : List AgentAssignment
only_eight = record { agent_id = 8; role = participant } ∷ []

abbrev request : CampaignUpdate
request = record {
  name = none;
  description = none;
  status = none;
  start_date = none;
  end_date = none;
  scenario_ids = none;
  agents = some only_eight;
}

abbrev after : Tables
after = record tables {
  campaign_agents =
      record { campaign_id = 4; agent_id = 8; role = participant }
      ∷ record { campaign_id = 5; agent_id = 9; role = participant }
      ∷ [];
}

abbrev refuse : List CampaignScenario → Result (List CampaignScenario)
refuse rows = err Error.database_error

edited : update_campaign refuse 4 request tables ≡ ok after
unfolding update_campaign and_then
edited = refl

abbrev nine : ConnectedClient
nine = record {
  websocket = 1;
  user_id = 9;
  role = "user";
  user_type = some "agent";
  campaign_ids = 4 ∷ 5 ∷ [];
}

update_campaign-agents_example :
    (distinct (agent_ids_of only_eight) ≡ true)
    × All (λ i. valid (λ x. x.id) is_agent tables.users i ≡ true) (agent_ids_of only_eight)
    × (filter (of_campaign 4) after.campaign_agents ≡ assignments 4 only_eight)
    × (filter (elsewhere 4) after.campaign_agents ≡ filter (elsewhere 4) tables.campaign_agents)
update_campaign-agents_example =
    update_campaign-agents refuse 4 request only_eight tables after refl refl edited

abbrev store : EventStore
store = record { ttl = 300; buffer = []; seq = 0 }

abbrev working : ℕ → Bool
working socket = false

removed_agent-hears_example :
    (elem 4 (campaign_ids_of 9 after.campaign_agents) ≡ false)
    × Member 1 (notify_update working 1000 4 request after (store, nine ∷ [])).0
    × Member nine (notify_update working 1000 4 request after (store, nine ∷ [])).1.1
removed_agent-hears_example =
    removed_agent-hears working 1000 refuse 4 request only_eight tables after store (nine ∷ []) nine
      refl refl refl edited (inl refl) refl refl refl refl refl

-- Spring is archived; another campaign is created, renamed with a later end, and archived too.
abbrev closed : Tables
closed = record tables { campaigns = set_archived spring ∷ [] }

abbrev autumn : CampaignCreate
autumn = record {
  name = "Autumn";
  description = none;
  start_date = some 100;
  end_date = some 200;
  scenario_ids = none;
  agents = only_eight;
}

abbrev with_autumn : Tables
with_autumn = inserted 6 autumn closed

abbrev later : CampaignUpdate
later = record request { name = some "Winter"; end_date = some 300; agents = none }

abbrev winter : Campaign
winter = record {
  id = 6;
  name = "Winter";
  description = none;
  status = draft;
  start_date = some 100;
  end_date = some 300;
}

abbrev with_winter : Tables
with_winter = record with_autumn { campaigns = winter ∷ set_archived spring ∷ [] }

abbrev over : Tables
over = record with_winter { campaigns = set_archived winter ∷ set_archived spring ∷ [] }

reached : Reach refuse closed over
unfolding create_campaign update_campaign archive_campaign and_then
reached =
    then_step
      (then_step (then_step done (Steps.created 6 autumn refl refl refl))
        (Steps.updated 6 later refl))
      (Steps.archived 6 refl)

Reach-IsOrdered_example :
    IsOrdered over × All (λ x. Member x over.campaigns) (archived_of closed.campaigns)
Reach-IsOrdered_example =
    Reach-IsOrdered refuse (record { one_per_id = refl; one_per_name = refl; dated = refl }) reached

-- A name that is taken, dates out of order, and agents listed twice are refused.
taken : create_campaign 6 (record autumn { name = "Spring" }) closed ≡ err Error.name_taken
unfolding create_campaign and_then
taken = refl

early :
    update_campaign refuse 6 (record later { end_date = some 100 }) with_autumn
    ≡ err Error.dates_invalid
unfolding update_campaign and_then
early = refl
