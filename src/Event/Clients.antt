-- ===== src/Event/Clients.antt =====
-- app/services/event_connection_manager.py and app/services/event_broadcaster.py. The registry is
-- the dict of clients by WebSocket, in its order; a campaign set is the list of its items. `fails`
-- tells which sockets raise on a send. While a broadcast waits for its sends, no other task changes
-- the registry here.
use cat_backend.Common.{
  ℕ, String, Bool, true, false, not, ◌||◌, List, [], ◌∷◌, map, Option, none, some, if◌then◌else◌,
  filter,
}
use cat_backend.Common.Eq.{◌==◌, elem, ℕ-Eq, String-Eq}
use cat_backend.Event.Store.{EventPayload, EventStore, next_seq, append}

pub record ConnectedClient : Type 0 where
  pub websocket : ℕ
  pub user_id : ℕ
  pub role : String
  pub user_type : Option String
  pub campaign_ids : List ℕ

pub record EventMetadata : Type 0 where
  pub campaign_id : Option ℕ
  pub agent_id : Option ℕ

abbrev pub is_text : Option String → String → Bool
is_text none s = false
is_text (some t) s = t == s

-- `meta.campaign_id and meta.campaign_id in client.campaign_ids`
abbrev pub in_scope : Option ℕ → List ℕ → Bool
in_scope none campaigns = false
in_scope (some c) campaigns = elem c campaigns

abbrev pub is_user : Option ℕ → ℕ → Bool
is_user none user = false
is_user (some a) user = a == user

-- `_should_deliver`
unfoldable pub should_deliver : EventPayload → EventMetadata → ConnectedClient → Bool
should_deliver event meta client =
    if client.role == "admin"
    then true
    else if event.category == "user"
    then false
    else if event.category == "dashboard"
    then false
    else if is_text client.user_type "trainer"
    then in_scope meta.campaign_id client.campaign_ids
    else if is_text client.user_type "agent"
    then (if is_user meta.agent_id client.user_id
        then true
        else if in_scope meta.campaign_id client.campaign_ids
        then event.category == "scenario" || event.category == "campaign"
        else false)
    else false

-- `self._clients.pop(websocket, None)`
abbrev pub disconnect : ℕ → List ConnectedClient → List ConnectedClient
disconnect socket = filter (λ c. not (c.websocket == socket))

-- `self._clients[websocket] = client`: the entry of a known socket is replaced where it stands.
abbrev pub connect : ConnectedClient → List ConnectedClient → List ConnectedClient
connect client [] = client ∷ []
connect client (c ∷ cs) =
    let rest = connect client cs in
    if c.websocket == client.websocket then client ∷ cs else c ∷ rest

abbrev pub disconnect_all : List ℕ → List ConnectedClient → List ConnectedClient
disconnect_all [] clients = clients
disconnect_all (s ∷ ss) clients = disconnect_all ss (disconnect s clients)

module _ (fails : ℕ → Bool) (event : EventPayload) (meta : EventMetadata) where
  -- The loop: the sockets that got the event, and those whose send raised.
  abbrev pub send_loop : List ConnectedClient → List ℕ × List ℕ
  send_loop [] = ([], [])
  send_loop (c ∷ cs) =
      let rest = send_loop cs in
      if not (should_deliver event meta c)
      then rest
      else if fails c.websocket
      then (rest.0, c.websocket ∷ rest.1)
      else (c.websocket ∷ rest.0, rest.1)

  unfoldable pub broadcast : List ConnectedClient → List ℕ × List ConnectedClient
  broadcast clients = let sent = send_loop clients in (sent.0, disconnect_all sent.1 clients)

-- `update_client_scope`
unfoldable pub update_client_scope : ℕ → List ℕ → List ConnectedClient → List ConnectedClient
update_client_scope user campaigns =
    map (λ c. if c.user_id == user then record c { campaign_ids = campaigns } else c)

-- `disconnect_user`: an error of the `close` is only logged.
abbrev pub sockets_of : ℕ → List ConnectedClient → List ℕ
sockets_of user clients = map (λ c. c.websocket) (filter (λ c. c.user_id == user) clients)

unfoldable pub disconnect_user : ℕ → List ConnectedClient → List ConnectedClient
disconnect_user user clients = disconnect_all (sockets_of user clients) clients

-- `EventBroadcaster.emit`
unfoldable pub emit :
    (ℕ → Bool)
    → ℕ
    → String
    → String
    → ℕ
    → EventMetadata
    → EventStore × List ConnectedClient
    → List ℕ × (EventStore × List ConnectedClient)
unfolding next_seq append broadcast
emit fails now event_type category entity meta (s, clients) =
    let (seq, numbered) = next_seq s in
    let event : EventPayload = record {
      event = event_type;
      category = category;
      id = entity;
      timestamp = now;
      seq = seq;
    } in
    let (delivered, left) = broadcast fails event meta clients in
    (delivered, (append now event numbered, left))
