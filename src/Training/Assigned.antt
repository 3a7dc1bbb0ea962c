-- ===== src/Training/Assigned.antt =====
-- The agents of a campaign after an edit, `update_campaign` of app/services/campaign_service.py.
use cat_backend.Common.{
  ℕ, ◌≡◌, refl, ◌∙◌, ap, sym, subst, Bool, true, false, not, List, [], ◌∷◌, map, Option, none, some,
  filter, All, length, inl, inr, Bool-cases, arith,
}
use cat_backend.Common.Eq.{◌==◌, elem, distinct, ℕ-Eq, nat_eq_iff, beq_self}
use cat_backend.Session.Campaigns.{CampaignAgent, CampaignScenario}
use cat_backend.Training.Rows.{
  User, Tables, AgentAssignment, CampaignUpdate, Result, ok, err, and_then, agent_ids_of, is_agent,
  user_ids, count, replace_agent_associations, campaign_ids_of,
}
use cat_backend.Training.Service.{update_campaign, validate_agent_ids, with_agents, with_scenarios}
use cat_backend.Training.Counts.{valid, count_iff}

-- What a result that succeeded was made of.
pub and_then-ok :
    {A B : Type 0} (r : Result A) (f : A → Result B) (b : B)
    → and_then r f ≡ ok b
    → (a : A) × (r ≡ ok a) × (f a ≡ ok b)
unfolding and_then
and_then-ok (ok a) f b h = (a, refl, h)
and_then-ok (err e) f b h = cc

-- The rows of the associations of a request.
abbrev pub assignments : ℕ → List AgentAssignment → List CampaignAgent
assignments campaign =
    map (λ a. record { campaign_id = campaign; agent_id = a.agent_id; role = a.role })

abbrev pub of_campaign : ℕ → CampaignAgent → Bool
of_campaign campaign r = r.campaign_id == campaign

abbrev pub elsewhere : ℕ → CampaignAgent → Bool
elsewhere campaign r = not (r.campaign_id == campaign)

filter-elsewhere :
    (id : ℕ) (rows : List CampaignAgent)
    → (filter (of_campaign id) (filter (elsewhere id) rows) ≡ [])
      × (filter (elsewhere id) (filter (elsewhere id) rows) ≡ filter (elsewhere id) rows)
filter-elsewhere id [] = (refl, refl)
filter-elsewhere id (r ∷ rows) =
    let rest = filter-elsewhere id rows in
    elim (Bool-cases (r.campaign_id == id)) [
      | inl here ↦ (rw here rest.0, rw here rest.1)
      | inr other ↦ (rw (other, other) rest.0, rw (other, other) (ap (λ l. r ∷ l) rest.1))
    ]

filter-replaced :
    (id : ℕ) (agents : List AgentAssignment) (rows : List CampaignAgent)
    → (filter (of_campaign id) (replace_agent_associations id agents rows) ≡ assignments id agents)
      × (filter (elsewhere id) (replace_agent_associations id agents rows)
          ≡ filter (elsewhere id) rows)
filter-replaced id [] rows = filter-elsewhere id rows
filter-replaced id (a ∷ agents) rows =
    let (mine, others) = filter-replaced id agents rows in
    (
      rw (beq_self id)
          (ap (λ l. record { campaign_id = id; agent_id = a.agent_id; role = a.role } ∷ l) mine),
      rw (beq_self id) others,
    )

pub replaced-unassigned :
    (id user : ℕ) (agents : List AgentAssignment) (rows : List CampaignAgent)
    → elem user (agent_ids_of agents) ≡ false
    → elem id (campaign_ids_of user (replace_agent_associations id agents rows)) ≡ false
replaced-unassigned id user [] [] h = refl
replaced-unassigned id user [] (r ∷ rows) h =
    let rest = replaced-unassigned id user [] rows refl in ground (arith, rest)
replaced-unassigned id user (a ∷ agents) rows h =
    let rest = replaced-unassigned id user agents rows (ground arith) in ground (arith, rest)

validate_agent_ids-ok :
    (agents : List AgentAssignment) (t : Tables) (u : Unit)
    → distinct (user_ids t.users) ≡ true
    → validate_agent_ids agents t ≡ ok u
    → (distinct (agent_ids_of agents) ≡ true)
      × All (λ i. valid (λ x. x.id) is_agent t.users i ≡ true) (agent_ids_of agents)
validate_agent_ids-ok agents t u d h =
    elim (Bool-cases (
      count (λ (x : User). x.id) is_agent (agent_ids_of agents) t.users
      == length (agent_ids_of agents))) [
        | inl equal ↦
            (count_iff (λ x. x.id) is_agent (agent_ids_of agents) t.users d).0
              ((nat_eq_iff _ _).0 equal)
        | inr short ↦ absurd (cc (rw short at h))
      ]

module _ (insert_nothing : List CampaignScenario → Result (List CampaignScenario)) where
  with_scenarios-same :
      (id : ℕ) (ids : Option (List ℕ)) (t t' : Tables)
      → with_scenarios insert_nothing id ids t ≡ ok t'
      → (t'.users ≡ t.users) × (t'.campaign_agents ≡ t.campaign_agents)
  with_scenarios-same id none t t' h =
      let same : t ≡ t' = cc h in
      (ap (λ x. x.users) (sym same), ap (λ x. x.campaign_agents) (sym same))
  with_scenarios-same id (some ids) t t' h =
      let (u, valid_ids, then_replaced) = and_then-ok _ _ t' h in
      let (rows, replaced, done) = and_then-ok _ _ t' then_replaced in
      let same : record t { campaign_scenarios = rows } ≡ t' = cc done in
      (ap (λ x. x.users) (sym same), ap (λ x. x.campaign_agents) (sym same))

  with_agents-ok :
      (id : ℕ) (agents : List AgentAssignment) (t t' : Tables)
      → distinct (user_ids t.users) ≡ true
      → with_agents insert_nothing id (some agents) t ≡ ok t'
      → (distinct (agent_ids_of agents) ≡ true)
        × All (λ i. valid (λ x. x.id) is_agent t.users i ≡ true) (agent_ids_of agents)
        × (t'.campaign_agents ≡ replace_agent_associations id agents t.campaign_agents)
  with_agents-ok id agents t t' d h =
      let (u, accepted, done) = and_then-ok _ _ t' h in
      let (once, known) = validate_agent_ids-ok agents t u d accepted in
      let same : record t {
        campaign_agents = replace_agent_associations id agents t.campaign_agents;
      }
          ≡ t' =
        cc done in
      (once, known, ap (λ x. x.campaign_agents) (sym same))

  -- What a successful edit with agents was made of.
  pub update_campaign-ok :
      (id : ℕ) (request : CampaignUpdate) (agents : List AgentAssignment) (t t' : Tables)
      → distinct (user_ids t.users) ≡ true
      → request.agents ≡ some agents
      → update_campaign insert_nothing id request t ≡ ok t'
      → (distinct (agent_ids_of agents) ≡ true)
        × All (λ i. valid (λ x. x.id) is_agent t.users i ≡ true) (agent_ids_of agents)
        × (t'.campaign_agents ≡ replace_agent_associations id agents t.campaign_agents)
  unfolding update_campaign
  update_campaign-ok id request agents t t' d listed h =
      let (c, found, then_new) = and_then-ok _ _ t' h in
      let (new, edited, then_linked) = and_then-ok _ _ t' then_new in
      let (linked, scenarios, then_assigned) = and_then-ok _ _ t' then_linked in
      let (same_users, same_agents) =
        with_scenarios-same id request.scenario_ids _ linked scenarios in
      let (once, known, rows) =
        with_agents-ok id agents linked t' (rw same_users d)
          (subst (λ o. with_agents insert_nothing id o linked ≡ ok t') listed then_assigned) in
      (
        once,
        subst (λ us. All (λ i. valid (λ x. x.id) is_agent us i ≡ true) (agent_ids_of agents))
            same_users known,
        rows ∙ ap (replace_agent_associations id agents) same_agents,
      )

  -- An edit that lists agents succeeds only when they are distinct active agents, and then they are
  -- the agents of the campaign with the roles listed; no assignment of another campaign changes.
  -- User ids are unique.
  pub update_campaign-agents :
      (id : ℕ) (request : CampaignUpdate) (agents : List AgentAssignment) (t t' : Tables)
      → distinct (user_ids t.users) ≡ true
      → request.agents ≡ some agents
      → update_campaign insert_nothing id request t ≡ ok t'
      → (distinct (agent_ids_of agents) ≡ true)
        × All (λ i. valid (λ x. x.id) is_agent t.users i ≡ true) (agent_ids_of agents)
        × (filter (of_campaign id) t'.campaign_agents ≡ assignments id agents)
        × (filter (elsewhere id) t'.campaign_agents ≡ filter (elsewhere id) t.campaign_agents)
  update_campaign-agents id request agents t t' d listed h =
      let (once, known, rows) = update_campaign-ok id request agents t t' d listed h in
      let (mine, others) = filter-replaced id agents t.campaign_agents in
      (
        once,
        known,
        ap (filter (of_campaign id)) rows ∙ mine,
        ap (filter (elsewhere id)) rows ∙ others,
      )
