-- ===== src/Session/Lifecycle.antt =====
-- The life of a session through app/services/session_service.py: pending, active, completed.
use cat_backend.Common.{
  ℕ, ◌≡◌, refl, sym, ap, ◌∙◌, subst, true, ◌∷◌, Option, none, some, inl, inr, arith, Bool-cases,
  Option-cases,
}
use cat_backend.Common.Eq.{◌==◌, ℕ-Eq}
use cat_backend.Standard.Store.{Version}
use cat_backend.Session.Campaigns.{scenario_exists}
use cat_backend.Session.Rows.{Session, Database, Result, assign, ok, err}
use cat_backend.Session.Service.{
  create_session, end_session, activate_session, get_session, set_ended, set_active, is_pending,
  is_over, resolve_published_version, new_session,
}
use cat_backend.Session.Advances.{
  Advances, Advances-refl, Advances-trans, set_ended-Advances, set_active-Advances, assign-Advances,
}

module _ {D P : Type 0} where
  pub data Step : Database D P → Database D P → Type 0 where
    created :
        (id scenario agent : ℕ) (campaign : Option ℕ) (persona : P) {s : Session P}
        {a b : Database D P}
        → get_session id a ≡ none
        → create_session id scenario agent campaign persona a ≡ ok (s, b)
        → Step a b
    ended : (now id : ℕ) {a b : Database D P} → end_session now id a ≡ ok b → Step a b
    activated : (id : ℕ) {a b : Database D P} → activate_session id a ≡ ok b → Step a b

  pub data Reach : Database D P → Database D P → Type 0 where
    done : {a : Database D P} → Reach a a
    then_step : {a b c : Database D P} → Reach a b → Step b c → Reach a c

  -- What a successful creation stored.
  pub create_session-ok :
      (id scenario agent : ℕ) (campaign : Option ℕ) (persona : P) (s : Session P)
      (a b : Database D P)
      → create_session id scenario agent campaign persona a ≡ ok (s, b)
      → (version : Option Version) × (resolve_published_version scenario agent campaign a
          ≡ ok version)
        × (new_session id scenario agent campaign persona version a ≡ s)
        × (record a { sessions = s ∷ a.sessions } ≡ b)
  unfolding create_session
  create_session-ok id scenario agent campaign persona s a b e =
      elim (Bool-cases (scenario_exists scenario a.scenarios)) [
        | inr missing ↦ absurd (cc (rw (create_session, missing) at e))
        | inl here ↦ resolved here (resolve_published_version scenario agent campaign a) refl
      ]
    where
      resolved :
          scenario_exists scenario a.scenarios ≡ true
          → (r : Result (Option Version)) → resolve_published_version scenario agent campaign a ≡ r
          → (version : Option Version) × (resolve_published_version scenario agent campaign a
              ≡ ok version)
            × (new_session id scenario agent campaign persona version a ≡ s)
            × (record a { sessions = s ∷ a.sessions } ≡ b)
      resolved here (err x) found = absurd (cc (rw (create_session, here, found) at e))
      resolved here (ok version) found =
          let made = new_session id scenario agent campaign persona version a in
          let stored : ◌≡◌ {A = Session P × Database D P}
              (made, record a { sessions = made ∷ a.sessions }) (s, b) =
            cc (rw (create_session, here, found) at e) in
          let same : made ≡ s = ap (λ p. p.0) stored in
          (
            version,
            found,
            same,
            subst (λ x. record a { sessions = x ∷ a.sessions } ≡ b) same (ap (λ p. p.1) stored),
          )

  Step-Advances :
      (k : ℕ) (a b : Database D P) (s : Session P)
      → Step a b
      → get_session k a ≡ some s
      → (t : Session P) × (get_session k b ≡ some t) × Advances s t
  unfolding end_session activate_session
  Step-Advances k a b s (created id scenario agent campaign persona {s = new} fresh e) found =
      let (version, _, made, stored) =
        create_session-ok id scenario agent campaign persona new a b e in
      let new_id : id ≡ new.id = ap (λ (x : Session P). x.id) made in
      elim (Bool-cases (new.id == k)) [
        | inl same ↦
            let missing : get_session k a ≡ none =
              subst (λ i. get_session i a ≡ none) (new_id ∙ ground arith) fresh in
            absurd (cc (sym missing ∙ found))
        | inr other ↦ (
          s,
          subst (λ (d : Database D P). get_session k d ≡ some s) stored (rw other found),
          Advances-refl s,
        )
      ]
  Step-Advances k a b s (ended now id e) found = elim (Option-cases (get_session id a)) [
    | inl missing ↦ absurd (cc (rw (end_session, missing) at e))
    | inr (x, here) ↦ elim (Bool-cases (is_over x.status)) [
      | inl over ↦ absurd (cc (rw (end_session, here, over) at e))
      | inr ongoing ↦
          let stored : record a { sessions = assign id (set_ended now) a.sessions } ≡ b =
            cc (rw (end_session, here, ongoing) at e) in
          subst (λ (b : Database D P). (t : Session P) × (get_session k b ≡ some t) × Advances s t)
            stored
            (assign-Advances k id (set_ended now) a.sessions x s (λ y. refl) here
              (set_ended-Advances now x ongoing) found)
    ]
  ]
  Step-Advances k a b s (activated id e) found = elim (Option-cases (get_session id a)) [
    | inl missing ↦ absurd (cc (rw (activate_session, missing) at e))
    | inr (x, here) ↦ elim (Bool-cases (is_pending x.status)) [
      | inr started ↦ absurd (cc (rw (activate_session, here, started) at e))
      | inl waiting ↦
          let stored : record a { sessions = assign id set_active a.sessions } ≡ b =
            cc (rw (activate_session, here, waiting) at e) in
          subst (λ (b : Database D P). (t : Session P) × (get_session k b ≡ some t) × Advances s t)
            stored
            (assign-Advances k id set_active a.sessions x s (λ y. refl) here
              (set_active-Advances x waiting) found)
    ]
  ]

  -- Whatever is created, activated and ended under fresh ids: a session that is there stays, with the
  -- versions and the persona that it was created with; its status only advances, and a session
  -- that is completed or in error never changes.
  pub Reach-Advances :
      (k : ℕ) (a b : Database D P) (s : Session P)
      → Reach a b
      → get_session k a ≡ some s
      → (t : Session P) × (get_session k b ≡ some t) × Advances s t
  Reach-Advances k a b s done found = (s, found, Advances-refl s)
  Reach-Advances k a b s (then_step {b = m} before step) found =
      let (t, here, better) = Reach-Advances k a m s before found in
      let (u, there, best) = Step-Advances k m b t step here in
      (u, there, Advances-trans s t u better best)
