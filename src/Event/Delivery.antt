-- ===== src/Event/Delivery.antt =====
-- Who gets an event, and who stays connected.
use cat_backend.Common.{
  ℕ, ◌≡◌, ◌⊎◌, refl, subst, sym, ap, ◌∙◌, Bool, true, false, not, ◌&&◌, List, [], ◌∷◌, map, arith,
  filter, Bool-cases, inl, inr,
}
use cat_backend.Common.Eq.{◌==◌, elem, distinct, ℕ-Eq, String-Eq, beq_self}
use text.Mathlib.TextEquality.{eq_iff}
use cat_backend.Event.Store.{EventPayload}
use cat_backend.Event.Clients.{
  ConnectedClient, EventMetadata, should_deliver, disconnect, disconnect_all, send_loop, broadcast,
}

-- An event of the categories `user` and `dashboard` reaches admins only.
should_deliver-private :
    (event : EventPayload) (meta : EventMetadata) (client : ConnectedClient)
    → (event.category ≡ "user") ⊎ (event.category ≡ "dashboard")
    → should_deliver event meta client ≡ true
    → client.role ≡ "admin"
unfolding should_deliver
should_deliver-private event meta client secret h = elim (Bool-cases (client.role == "admin")) [
  | inl admin ↦ (eq_iff client.role "admin").0 admin
  | inr other ↦ elim secret [
    | inl user ↦
        let named : (event.category == "user") ≡ true = (eq_iff event.category "user").1 user in
        ground (arith, other, named, h)
    | inr dashboard ↦
        let named : (event.category == "dashboard") ≡ true =
          (eq_iff event.category "dashboard").1 dashboard in
        ground (arith, other, named, h)
  ]
]

abbrev pub sockets : List ConnectedClient → List ℕ
sockets = map (λ c. c.websocket)

filter-disconnect :
    (s : ℕ) (ss : List ℕ) (cs : List ConnectedClient)
    → filter (λ c. not (elem c.websocket ss)) (disconnect s cs)
      ≡ filter (λ c. not (elem c.websocket (s ∷ ss))) cs
filter-disconnect s ss [] = refl
filter-disconnect s ss (c ∷ cs) = ground (arith, filter-disconnect s ss cs)

disconnect_all-filter :
    (ss : List ℕ) (cs : List ConnectedClient)
    → disconnect_all ss cs ≡ filter (λ c. not (elem c.websocket ss)) cs
disconnect_all-filter [] [] = refl
disconnect_all-filter [] (c ∷ cs) = ap (λ r. c ∷ r) (disconnect_all-filter [] cs)
disconnect_all-filter (s ∷ ss) cs =
    disconnect_all-filter ss (disconnect s cs) ∙ filter-disconnect s ss cs

filter-unused :
    (k : ℕ) (ss : List ℕ) (cs : List ConnectedClient)
    → elem k (sockets cs) ≡ false
    → filter (λ c. not (elem c.websocket (k ∷ ss))) cs ≡ filter (λ c. not (elem c.websocket ss)) cs
filter-unused k ss [] e = refl
filter-unused k ss (c ∷ cs) e = ground (arith, filter-unused k ss cs)

elem-sockets-filter :
    (k : ℕ) (p : ConnectedClient → Bool) (cs : List ConnectedClient)
    → elem k (sockets cs) ≡ false
    → elem k (sockets (filter p cs)) ≡ false
elem-sockets-filter k p [] e = refl
elem-sockets-filter k p (c ∷ cs) e = ground (arith, elem-sockets-filter k p cs)

-- Where sockets are used once, dropping those of some clients drops just these clients.
filter-sockets :
    (p : ConnectedClient → Bool) (cs : List ConnectedClient)
    → distinct (sockets cs) ≡ true
    → filter (λ c. not (elem c.websocket (sockets (filter p cs)))) cs ≡ filter (λ c. not (p c)) cs
filter-sockets p [] d = refl
filter-sockets p (c ∷ cs) d =
    let alone : elem c.websocket (sockets cs) ≡ false = ground arith in
    let rest = filter-sockets p cs (ground arith) in
    elim (Bool-cases (p c)) [
      | inl gone ↦
          let kept : sockets (filter p (c ∷ cs)) ≡ c.websocket ∷ sockets (filter p cs) =
            rw gone refl in
          subst
            (λ ss.
              filter (λ x. not (elem x.websocket ss)) (c ∷ cs) ≡ filter (λ x. not (p x)) (c ∷ cs))
            (sym kept)
            (rw (gone, beq_self c.websocket)
              (filter-unused c.websocket (sockets (filter p cs)) cs alone ∙ rest))
      | inr stays ↦
          let kept : sockets (filter p (c ∷ cs)) ≡ sockets (filter p cs) = rw stays refl in
          subst
            (λ ss.
              filter (λ x. not (elem x.websocket ss)) (c ∷ cs) ≡ filter (λ x. not (p x)) (c ∷ cs))
            (sym kept)
            (rw (stays, elem-sockets-filter c.websocket p cs alone) (ap (λ r. c ∷ r) rest))
    ]

module _ (fails : ℕ → Bool) (event : EventPayload) (meta : EventMetadata) where
  abbrev pub gets : ConnectedClient → Bool
  gets c = should_deliver event meta c && not (fails c.websocket)

  abbrev pub drops : ConnectedClient → Bool
  drops c = should_deliver event meta c && fails c.websocket

  sent :
      (cs : List ConnectedClient)
      → (send_loop fails event meta cs).0 ≡ map (λ c. c.websocket) (filter gets cs)
  sent [] = refl
  sent (c ∷ cs) = ground (arith, sent cs)

  lost :
      (cs : List ConnectedClient)
      → (send_loop fails event meta cs).1 ≡ map (λ c. c.websocket) (filter drops cs)
  lost [] = refl
  lost (c ∷ cs) = ground (arith, lost cs)

  -- A broadcast reaches exactly the authorized clients whose sends succeed, in their order, and
  -- disconnects exactly the authorized ones whose sends fail. Sockets are used once, as dict keys.
  pub broadcast-delivers :
      (clients : List ConnectedClient)
      → distinct (sockets clients) ≡ true
      → ((broadcast fails event meta clients).0 ≡ sockets (filter gets clients))
        × ((broadcast fails event meta clients).1 ≡ filter (λ c. not (drops c)) clients)
  unfolding broadcast
  broadcast-delivers clients d = (
    sent clients,
    ap (λ ss. disconnect_all ss clients) (lost clients)
        ∙ disconnect_all-filter (sockets (filter drops clients)) clients
        ∙ filter-sockets drops clients d,
  )
