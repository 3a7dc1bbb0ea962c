-- ===== src/Training/Scopes.antt =====
-- What `update_campaign` of app/services/campaign_service.py tells the connections of
-- app/services/event_connection_manager.py.
use cat_backend.Common.{
  ℕ, ◌≡◌, refl, ◌∙◌, ap, sym, subst, Bool, true, false, not, List, [], ◌∷◌, map, some, filter,
  Member, Member-map, Member-filter, if◌then◌else◌, inl, inr, Bool-cases,
}
use cat_backend.Common.Eq.{◌==◌, elem, distinct, ℕ-Eq, String-Eq, nat_eq_iff, beq_comm}
use cat_backend.Session.Campaigns.{CampaignScenario, CampaignAgent}
use cat_backend.Event.Store.{EventStore, EventPayload, next_seq}
use cat_backend.Event.Clients.{
  ConnectedClient, update_client_scope, emit, should_deliver, broadcast,
}
use cat_backend.Event.Delivery.{broadcast-delivers, sockets, gets, drops}
use cat_backend.Training.Rows.{
  Tables, AgentAssignment, CampaignUpdate, Result, ok, agent_ids_of, user_ids, campaign_ids_of,
}
use cat_backend.Training.Service.{update_campaign, notify_update, rescope, rescope_for, metadata_of}
use cat_backend.Training.Assigned.{update_campaign-ok, replaced-unassigned}

-- The scope of a connection after the edit: that of the rows, if the request lists its user.
abbrev pub rescoped : List ℕ → List CampaignAgent → ConnectedClient → ConnectedClient
rescoped listed rows c =
    if elem c.user_id listed then record c { campaign_ids = campaign_ids_of c.user_id rows } else c

rescoped-updated :
    (user : ℕ) (listed : List ℕ) (rows : List CampaignAgent) (c : ConnectedClient)
    → rescoped listed rows
        (if c.user_id == user then record c { campaign_ids = campaign_ids_of user rows } else c)
      ≡ rescoped (user ∷ listed) rows c
rescoped-updated user listed rows c =
    let flip = beq_comm user c.user_id in
    elim (Bool-cases (c.user_id == user)) [
      | inl same ↦
          let named = (nat_eq_iff c.user_id user).0 same in
          elim (Bool-cases (elem c.user_id listed)) [
            | inl again ↦ rw (flip, same, again) refl
            | inr once ↦
                rw (flip, same, once)
                  (ap (λ u. record c { campaign_ids = campaign_ids_of u rows }) (sym named))
          ]
      | inr other ↦ rw (flip, other) refl
    ]

cons-eq : {A : Type 0} {x y : A} {xs ys : List A} → x ≡ y → xs ≡ ys → x ∷ xs ≡ y ∷ ys
cons-eq {y} {xs} p q = ap (λ r. r ∷ xs) p ∙ ap (λ r. y ∷ r) q

update-rescoped :
    (user : ℕ) (listed : List ℕ) (rows : List CampaignAgent) (cs : List ConnectedClient)
    → map (rescoped listed rows) (update_client_scope user (campaign_ids_of user rows) cs)
      ≡ map (rescoped (user ∷ listed) rows) cs
unfolding update_client_scope
update-rescoped user listed rows [] = refl
update-rescoped user listed rows (c ∷ cs) =
    cons-eq (rescoped-updated user listed rows c) (update-rescoped user listed rows cs)

map-id : (cs : List ConnectedClient) (rows : List CampaignAgent) → map (rescoped [] rows) cs ≡ cs
map-id [] rows = refl
map-id (c ∷ cs) rows = ap (λ r. c ∷ r) (map-id cs rows)

rescope-map :
    (agents : List AgentAssignment) (t : Tables) (cs : List ConnectedClient)
    → rescope agents t cs ≡ map (rescoped (agent_ids_of agents) t.campaign_agents) cs
rescope-map [] t cs = sym (map-id cs t.campaign_agents)
rescope-map (a ∷ agents) t cs =
    rescope-map agents t _ ∙ update-rescoped a.agent_id (agent_ids_of agents) t.campaign_agents cs

sockets-rescoped :
    (listed : List ℕ) (rows : List CampaignAgent) (cs : List ConnectedClient)
    → sockets (map (rescoped listed rows) cs) ≡ sockets cs
sockets-rescoped listed rows [] = refl
sockets-rescoped listed rows (c ∷ cs) =
    let rest = sockets-rescoped listed rows cs in
    elim (Bool-cases (elem c.user_id listed)) [
      | inl l ↦ rw l (ap (λ r. c.websocket ∷ r) rest)
      | inr o ↦ rw o (ap (λ r. c.websocket ∷ r) rest)
    ]

rescope_for-map :
    (agents : List AgentAssignment) (request : CampaignUpdate) (t : Tables)
    (cs : List ConnectedClient)
    → request.agents ≡ some agents
    → rescope_for request.agents t cs ≡ map (rescoped (agent_ids_of agents) t.campaign_agents) cs
rescope_for-map agents request t cs listed =
    ap (λ o. rescope_for o t cs) listed ∙ rescope-map agents t cs

abbrev pub updated_event : ℕ → ℕ → ℕ → EventPayload
updated_event now seq id = record {
  event = "campaign.updated";
  category = "campaign";
  id = id;
  timestamp = now;
  seq = seq;
}

module _ (fails : ℕ → Bool) (now : ℕ) where
  -- The event of an edit goes out in the new scopes, which the connections that are left have.
  notify_update-rescoped :
      (id : ℕ) (agents : List AgentAssignment) (request : CampaignUpdate) (t : Tables)
      (s : EventStore) (clients : List ConnectedClient)
      → request.agents ≡ some agents
      → distinct (sockets clients) ≡ true
      → ((notify_update fails now id request t (s, clients)).0
          ≡ sockets (
              filter
                (gets fails (updated_event now (next_seq s).0 id) (metadata_of id))
                (map (rescoped (agent_ids_of agents) t.campaign_agents) clients)))
        × ((notify_update fails now id request t (s, clients)).1.1
            ≡ filter
                (λ c. not (drops fails (updated_event now (next_seq s).0 id) (metadata_of id) c))
                (map (rescoped (agent_ids_of agents) t.campaign_agents) clients))
  unfolding notify_update emit
  notify_update-rescoped id agents request t s clients listed d =
      let event = updated_event now (next_seq s).0 id in
      let rescoped_clients = rescope_for-map agents request t clients listed in
      let delivered =
        broadcast-delivers fails event (metadata_of id)
          (map (rescoped (agent_ids_of agents) t.campaign_agents) clients)
          (ap distinct (sockets-rescoped _ _ clients) ∙ d) in
      (
        ap (λ cs. (broadcast fails event (metadata_of id) cs).0) rescoped_clients ∙ delivered.0,
        ap (λ cs. (broadcast fails event (metadata_of id) cs).1) rescoped_clients ∙ delivered.1,
      )

  hears :
      (seq id : ℕ) (c : ConnectedClient)
      → c.role ≡ "user"
      → c.user_type ≡ some "agent"
      → elem id c.campaign_ids ≡ true
      → fails c.websocket ≡ false
      → (gets fails (updated_event now seq id) (metadata_of id) c ≡ true)
        × (not (drops fails (updated_event now seq id) (metadata_of id) c) ≡ true)
  unfolding should_deliver
  hears seq id c user agent scope sends =
      (rw (user, agent, scope, sends) refl, rw (user, agent, scope, sends) refl)

  -- An edit whose agents do not include a connected trainee, with the campaign of the edit in the
  -- scope of the connection, leaves the connection and its scope as they were: the trainee is not
  -- assigned afterwards, still gets the event of the edit when the send succeeds, and stays connected
  -- with that scope. User ids are unique, and sockets are used once, as dict keys.
  pub removed_agent-hears :
      (insert_nothing : List CampaignScenario → Result (List CampaignScenario)) (id : ℕ)
      (request : CampaignUpdate) (agents : List AgentAssignment) (t t' : Tables) (s : EventStore)
      (clients : List ConnectedClient) (c : ConnectedClient)
      → distinct (user_ids t.users) ≡ true
      → distinct (sockets clients) ≡ true
      → request.agents ≡ some agents
      → update_campaign insert_nothing id request t ≡ ok t'
      → Member c clients
      → c.role ≡ "user"
      → c.user_type ≡ some "agent"
      → elem id c.campaign_ids ≡ true
      → elem c.user_id (agent_ids_of agents) ≡ false
      → fails c.websocket ≡ false
      → (elem id (campaign_ids_of c.user_id t'.campaign_agents) ≡ false)
        × Member c.websocket (notify_update fails now id request t' (s, clients)).0
        × Member c (notify_update fails now id request t' (s, clients)).1.1
  removed_agent-hears insert_nothing id request agents t t' s clients c du ds listed edited
        connected user agent scope removed sends =
      let (once, known, rows) =
        update_campaign-ok insert_nothing id request agents t t' du listed edited in
      let event = updated_event now (next_seq s).0 id in
      let kept : rescoped (agent_ids_of agents) t'.campaign_agents c ≡ c = rw removed refl in
      let there =
        subst (λ x. Member x (map (rescoped (agent_ids_of agents) t'.campaign_agents) clients)) kept
          (Member-map (rescoped (agent_ids_of agents) t'.campaign_agents) c clients connected) in
      let told = notify_update-rescoped id agents request t' s clients listed ds in
      let reached = hears (next_seq s).0 id c user agent scope sends in
      (
        ap (λ r. elem id (campaign_ids_of c.user_id r)) rows
            ∙ replaced-unassigned id c.user_id agents t.campaign_agents removed,
        subst (Member c.websocket) (sym told.0) (
            Member-map (λ x. x.websocket) c _
              (Member-filter (gets fails event (metadata_of id)) c _ reached.0 there)),
        subst (Member c) (sym told.1)
            (Member-filter (λ x. not (drops fails event (metadata_of id) x)) c _ reached.1 there),
      )
