-- ===== src/Event/Tests.antt =====
-- Two events and three clients: the properties of replay and delivery at work on them.
use cat_backend.Common.{
  ℕ, ◌≡◌, refl, String, Bool, true, not, List, [], ◌∷◌, Option, none, some, filter, ltb,
}
use cat_backend.Common.Eq.{◌==◌, ℕ-Eq}
use cat_backend.Event.Store.{EventPayload, EventStore, next_seq, append, get_after}
use cat_backend.Event.Clients.{ConnectedClient, EventMetadata, should_deliver, broadcast}
use cat_backend.Event.Replay.{Emitted, started, emitted, get_after_complete}
use cat_backend.Event.Delivery.{broadcast-delivers, sockets, gets, drops}

abbrev payload : String → ℕ → EventPayload
payload category seq = record {
  event = category;
  category = category;
  id = 7;
  timestamp = seq;
  seq = seq;
}

abbrev empty : EventStore
empty = record { ttl = 300; buffer = []; seq = 0 }

abbrev two_sent : EventStore
two_sent = record {
  ttl = 300;
  buffer = (1000, payload "session" 1) ∷ (1010, payload "user" 2) ∷ [];
  seq = 2;
}

two_sent-Emitted : Emitted (payload "session" 1 ∷ payload "user" 2 ∷ []) two_sent
unfolding next_seq append
two_sent-Emitted =
    emitted 1010 (payload "user" 2) (emitted 1000 (payload "session" 1) (started 300) refl) refl

replayed : get_after 1 two_sent ≡ some (payload "user" 2 ∷ [])
unfolding get_after
replayed = refl

get_after_complete_example :
    payload "user" 2 ∷ [] ≡ filter (λ e. ltb 1 e.seq) (payload "session" 1 ∷ payload "user" 2 ∷ [])
get_after_complete_example = get_after_complete 1 two_sent-Emitted replayed

abbrev client : ℕ → String → Option String → ConnectedClient
client socket role user_type = record {
  websocket = socket;
  user_id = socket;
  role = role;
  user_type = user_type;
  campaign_ids = 4 ∷ [];
}

abbrev campaign_four : EventMetadata
campaign_four = record { campaign_id = some 4; agent_id = none }

abbrev connected : List ConnectedClient
connected =
    client 1 "admin" none ∷ client 2 "user" (some "trainer") ∷ client 3 "user" (some "agent") ∷ []

abbrev second_fails : ℕ → Bool
second_fails socket = socket == 2

admin_sees : should_deliver (payload "user" 2) campaign_four (client 1 "admin" none) ≡ true
unfolding should_deliver
admin_sees = refl

broadcast-delivers_example :
    ((broadcast second_fails (payload "session" 1) campaign_four connected).0
      ≡ sockets (filter (gets second_fails (payload "session" 1) campaign_four) connected))
    × ((broadcast second_fails (payload "session" 1) campaign_four connected).1
        ≡ filter (λ c. not (drops second_fails (payload "session" 1) campaign_four c)) connected)
broadcast-delivers_example =
    broadcast-delivers second_fails (payload "session" 1) campaign_four connected refl

-- The admin gets it, the trainer's send fails, and an agent sees no other sessions.
delivered_now :
    broadcast second_fails (payload "session" 1) campaign_four connected
    ≡ (1 ∷ [], client 1 "admin" none ∷ client 3 "user" (some "agent") ∷ [])
unfolding broadcast should_deliver
delivered_now = refl
