-- ===== src/Session/Advances.antt =====
-- One session before and after a step of app/services/session_service.py.
use cat_backend.Common.{
  ℕ, ◌≤◌, ◌≡◌, refl, sym, ap, ◌∙◌, subst, true, false, List, [], ◌∷◌, none, some, inl, inr, ◌⊎◌,
  arith, Bool-cases, if◌then◌else◌,
}
use cat_backend.Common.Eq.{◌==◌, ℕ-Eq}
use cat_backend.Session.Rows.{
  Session, SessionStatus, find_session, assign, pending, active, completed, error,
}
use cat_backend.Session.Service.{set_ended, set_active, is_pending, is_over}

abbrev pub rank : SessionStatus → ℕ
rank pending = 0
rank active = 1
rank completed = 2
rank error = 2

module _ {P : Type 0} where
  -- The row later: what it was created with stays, its status only advances, and once it is completed
  -- or in error nothing changes.
  pub record Advances (s t : Session P) : Type 0 where
    pub scenario : t.scenario_id ≡ s.scenario_id
    pub agent : t.agent_id ≡ s.agent_id
    pub campaign : t.campaign_id ≡ s.campaign_id
    pub persona : t.persona_context ≡ s.persona_context
    pub script : t.script_version_id ≡ s.script_version_id
    pub standard : t.negotiation_standard_version_id ≡ s.negotiation_standard_version_id
    pub forward : rank s.status ≤ rank t.status
    pub final : (is_over s.status ≡ false) ⊎ (t ≡ s)

  pub Advances-refl : (s : Session P) → Advances s s
  Advances-refl s = record {
    scenario = refl;
    agent = refl;
    campaign = refl;
    persona = refl;
    script = refl;
    standard = refl;
    forward = omega arith;
    final = inr refl;
  }

  pub Advances-trans : (s t u : Session P) → Advances s t → Advances t u → Advances s u
  Advances-trans s t u a b = record {
    scenario = b.scenario ∙ a.scenario;
    agent = b.agent ∙ a.agent;
    campaign = b.campaign ∙ a.campaign;
    persona = b.persona ∙ a.persona;
    script = b.script ∙ a.script;
    standard = b.standard ∙ a.standard;
    forward = omega (arith, a.forward, b.forward);
    final = elim a.final [
      | inl ongoing ↦ inl ongoing
      | inr same ↦ elim b.final [
        | inl ongoing ↦ inl (ap (λ (x : Session P). is_over x.status) (sym same) ∙ ongoing)
        | inr again ↦ inr (again ∙ same)
      ]
    ];
  }

  pub set_ended-Advances :
      (now : ℕ) (s : Session P) → is_over s.status ≡ false → Advances s (set_ended now s)
  set_ended-Advances now s ongoing = record {
    scenario = refl;
    agent = refl;
    campaign = refl;
    persona = refl;
    script = refl;
    standard = refl;
    forward = ground arith;
    final = inl ongoing;
  }

  pub set_active-Advances : (s : Session P) → is_pending s.status ≡ true → Advances s (set_active s)
  set_active-Advances s waiting = record {
    scenario = refl;
    agent = refl;
    campaign = refl;
    persona = refl;
    script = refl;
    standard = refl;
    forward = ground arith;
    final = inl (ground arith);
  }

  find-assign :
      (k id : ℕ) (f : Session P → Session P) (ss : List (Session P))
      → ((s : Session P) → (f s).id ≡ s.id)
      → find_session k (assign id f ss)
        ≡ elim (find_session k ss) [ none ↦ none | some s ↦ some (if k == id then f s else s) ]
  find-assign k id f [] keeps = refl
  find-assign k id f (s ∷ ss) keeps = ground (arith, keeps s, find-assign k id f ss keeps)

  -- A row after an assignment to a row that advances it.
  pub assign-Advances :
      (k id : ℕ) (f : Session P → Session P) (ss : List (Session P)) (x s : Session P)
      → ((s : Session P) → (f s).id ≡ s.id)
      → find_session id ss ≡ some x
      → Advances x (f x)
      → find_session k ss ≡ some s
      → (t : Session P) × (find_session k (assign id f ss) ≡ some t) × Advances s t
  assign-Advances k id f ss x s keeps found better here = elim (Bool-cases (k == id)) [
    | inl same ↦
        let row : x ≡ s = ground arith in
        (
          f s,
          find-assign k id f ss keeps ∙ rw (here, same) refl,
          subst (λ (y : Session P). Advances y (f y)) row better,
        )
    | inr other ↦ (s, find-assign k id f ss keeps ∙ rw (here, other) refl, Advances-refl s)
  ]
