-- ===== src/Training/Service.antt =====
-- The operations of app/services/campaign_service.py on the tables, and the events of those that
-- change them. A refused operation leaves the tables to the rollback. What SQLAlchemy does with an
-- insertion of no rows is the parameter `insert_nothing`.
use cat_backend.Common.{
  ℕ, String, Bool, false, not, ◌&&◌, List, [], ◌∷◌, ◌++◌, Option, none, some, map, filter, any,
  if◌then◌else◌, length, leb,
}
use cat_backend.Common.Eq.{◌==◌, ℕ-Eq, String-Eq}
use cat_backend.Session.Campaigns.{CampaignStatus, Campaign, CampaignScenario}
use cat_backend.Event.Store.{EventStore}
use cat_backend.Event.Clients.{ConnectedClient, EventMetadata, update_client_scope, emit}
use cat_backend.Training.Rows.{
  Tables, AgentAssignment, CampaignCreate, CampaignUpdate, Error, Result, ok, err, and_then,
  agent_ids_of, is_archived, is_agent, count, insert_agent_associations, replace_agent_associations,
  campaign_ids_of,
}

abbrev pub find : ℕ → List Campaign → Option Campaign
find id [] = none
find id (c ∷ cs) = if (c.id == id) && not (is_archived c.status) then some c else find id cs

abbrev pub get_campaign_by_id : ℕ → Tables → Option Campaign
get_campaign_by_id id t = find id t.campaigns

abbrev pub get_campaign_or_raise : ℕ → Tables → Result Campaign
get_campaign_or_raise id t = elim (get_campaign_by_id id t) [
  | none ↦ err Error.not_found
  | some c ↦ ok c
]

-- `exclude_id`
abbrev pub is_excluded : Option ℕ → Campaign → Bool
is_excluded none c = false
is_excluded (some id) c = c.id == id

abbrev pub check_name_uniqueness : String → Option ℕ → List Campaign → Result Unit
check_name_uniqueness name exclude cs =
    if any (λ c. (c.name == name) && not (is_excluded exclude c)) cs
    then err Error.name_taken
    else ok tt

abbrev pub validate_scenario_ids : List ℕ → Tables → Result Unit
validate_scenario_ids ids t =
    if not (count (λ s. s.id) (λ s. s.is_active) ids t.scenarios == length ids)
    then err Error.scenarios_invalid
    else ok tt

abbrev pub validate_agent_ids : List AgentAssignment → Tables → Result Unit
validate_agent_ids agents t =
    if not
      (count (λ u. u.id) is_agent (agent_ids_of agents) t.users == length (agent_ids_of agents))
    then err Error.agents_invalid
    else ok tt

abbrev pub or_else : {A : Type 0} → Option A → Option A → Option A
or_else none old = old
or_else (some new) old = some new

-- `start is not None and finish is not None and finish <= start`
abbrev pub ends_early : Option ℕ → Option ℕ → Bool
ends_early (some start) (some finish) = leb finish start
ends_early none _ = false
ends_early (some start) none = false

abbrev pub apply_date_updates : CampaignUpdate → Campaign → Result Campaign
apply_date_updates body c =
    let start = or_else body.start_date c.start_date in
    let finish = or_else body.end_date c.end_date in
    if ends_early start finish
    then err Error.dates_invalid
    else ok (record c { start_date = start; end_date = finish })

abbrev pub renamed : Option String → Campaign → List Campaign → Result Campaign
renamed none c cs = ok c
renamed (some name) c cs =
    if name == c.name
    then ok c
    else and_then (check_name_uniqueness name (some c.id) cs) (λ u. ok (record c { name = name }))

abbrev pub with_status : Option CampaignStatus → Campaign → Campaign
with_status none c = c
with_status (some status) c = record c { status = status }

abbrev pub apply_field_updates : CampaignUpdate → Campaign → List Campaign → Result Campaign
apply_field_updates body c cs = and_then (renamed body.name c cs) (λ n.
    apply_date_updates body
      (with_status body.status (record n { description = or_else body.description n.description })))

abbrev pub assign : ℕ → (Campaign → Campaign) → List Campaign → List Campaign
assign id f = map (λ c. if c.id == id then f c else c)

abbrev pub link_scenarios : ℕ → List ℕ → List CampaignScenario
link_scenarios campaign = map (λ s. record { campaign_id = campaign; scenario_id = s })

-- `data.scenario_ids or []`
abbrev pub ids_or_empty : Option (List ℕ) → List ℕ
ids_or_empty none = []
ids_or_empty (some ids) = ids

abbrev pub new_campaign : ℕ → CampaignCreate → Campaign
new_campaign id body = record {
  id = id;
  name = body.name;
  description = body.description;
  status = CampaignStatus.draft;
  start_date = body.start_date;
  end_date = body.end_date;
}

-- `if scenario_ids: await _validate_scenario_ids(db, scenario_ids)`
abbrev pub validate_any : List ℕ → Tables → Result Unit
validate_any [] t = ok tt
validate_any (s ∷ ss) t = validate_scenario_ids (s ∷ ss) t

abbrev pub inserted : ℕ → CampaignCreate → Tables → Tables
inserted id body t = record t {
  campaigns = new_campaign id body ∷ t.campaigns;
  campaign_scenarios = link_scenarios id (ids_or_empty body.scenario_ids) ++ t.campaign_scenarios;
  campaign_agents = insert_agent_associations id body.agents t.campaign_agents;
}

-- The tables after the commit of `create_campaign`; `id` is the fresh id of the row.
unfoldable pub create_campaign : ℕ → CampaignCreate → Tables → Result Tables
create_campaign id body t = and_then (check_name_uniqueness body.name none t.campaigns) (λ unique.
    and_then (validate_any (ids_or_empty body.scenario_ids) t) (λ scenarios.
      and_then (validate_agent_ids body.agents t) (λ agents. ok (inserted id body t))))

abbrev pub set_archived : Campaign → Campaign
set_archived c = record c { status = CampaignStatus.archived }

unfoldable pub archive_campaign : ℕ → Tables → Result Tables
archive_campaign id t =
    and_then (get_campaign_or_raise id t)
      (λ c. ok (record t { campaigns = assign id set_archived t.campaigns }))

module _ (insert_nothing : List CampaignScenario → Result (List CampaignScenario)) where
  abbrev pub insert_scenario_associations :
      ℕ → List ℕ → List CampaignScenario → Result (List CampaignScenario)
  insert_scenario_associations campaign [] rows = insert_nothing rows
  insert_scenario_associations campaign (s ∷ ss) rows =
      ok (link_scenarios campaign (s ∷ ss) ++ rows)

  abbrev pub replace_scenario_associations :
      ℕ → List ℕ → List CampaignScenario → Result (List CampaignScenario)
  replace_scenario_associations campaign ids rows =
      insert_scenario_associations campaign ids (filter (λ r. not (r.campaign_id == campaign)) rows)

  abbrev pub with_scenarios : ℕ → Option (List ℕ) → Tables → Result Tables
  with_scenarios id none t = ok t
  with_scenarios id (some ids) t = and_then (validate_scenario_ids ids t) (λ valid.
      and_then (replace_scenario_associations id ids t.campaign_scenarios)
        (λ rows. ok (record t { campaign_scenarios = rows })))

  abbrev pub with_agents : ℕ → Option (List AgentAssignment) → Tables → Result Tables
  with_agents id none t = ok t
  with_agents id (some agents) t = and_then (validate_agent_ids agents t) (λ valid.
      ok (record t { campaign_agents = replace_agent_associations id agents t.campaign_agents }))

  -- The tables after the commit of `update_campaign`.
  unfoldable pub update_campaign : ℕ → CampaignUpdate → Tables → Result Tables
  update_campaign id body t = and_then (get_campaign_or_raise id t) (λ c.
      and_then (apply_field_updates body c t.campaigns) (λ new.
        and_then
          (with_scenarios id body.scenario_ids
            (record t { campaigns = assign id (λ old. new) t.campaigns }))
          (λ linked. with_agents id body.agents linked)))

-- After the commit: the connections of the agents in the request, and the event.
abbrev pub rescope : List AgentAssignment → Tables → List ConnectedClient → List ConnectedClient
rescope [] t clients = clients
rescope (a ∷ agents) t clients =
    rescope agents t
      (update_client_scope a.agent_id (campaign_ids_of a.agent_id t.campaign_agents) clients)

abbrev pub rescope_for :
    Option (List AgentAssignment) → Tables → List ConnectedClient → List ConnectedClient
rescope_for none t clients = clients
rescope_for (some agents) t clients = rescope agents t clients

abbrev pub metadata_of : ℕ → EventMetadata
metadata_of id = record { campaign_id = some id; agent_id = none }

-- The rest of `update_campaign`.
unfoldable pub notify_update :
    (ℕ → Bool)
    → ℕ
    → ℕ
    → CampaignUpdate
    → Tables
    → EventStore × List ConnectedClient
    → List ℕ × (EventStore × List ConnectedClient)
notify_update fails now id body t (s, clients) =
    emit fails now "campaign.updated" "campaign" id (metadata_of id)
      (s, rescope_for body.agents t clients)
