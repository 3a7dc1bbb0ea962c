-- ===== src/Session/Pins.antt =====
-- The versions that a new session is bound to, over app/services/session_service.py, with
-- app/services/script_registry.py.
use cat_backend.Common.{
  ℕ, ◌≡◌, refl, sym, ap, ◌∙◌, subst, Bool, true, false, ◌&&◌, List, [], ◌∷◌, Option, none, some,
  inl, inr, filter, arith, Bool-cases, Option-cases,
}
use cat_backend.Common.Eq.{◌==◌, ℕ-Eq, elem, beq_self, nat_eq_iff}
use cat_backend.Standard.Store.{Version}
use cat_backend.Script.Registry
use cat_backend.Script.Registry.{
  Contract, Registry, Script, ScriptVersion, get_script, publish, get_active_published_version,
}
use cat_backend.Script.Rows.{IsConsistent, version_ids}
use cat_backend.Script.Active.{publish-active}
use cat_backend.Session.Campaigns.{Campaign, CampaignScenario, find_campaign, has_scenario}
use cat_backend.Session.Rows.{Session, Database, ok, pending}
use cat_backend.Session.Service.{
  create_session, published_version, resolve_published_version, version_of, id_of_script,
  id_of_standard,
}
use cat_backend.Session.Access.{validate_campaign_context, requirements}
use cat_backend.Session.Lifecycle.{create_session-ok}

-- An explicit campaign that is there and has the scenario is the one that is looked up.
campaign_chosen :
    (scenario campaign : ℕ) (links : List CampaignScenario) (cs : List Campaign) (c : Campaign)
    → has_scenario campaign scenario links ≡ true
    → find_campaign campaign cs ≡ some c
    → (d : Campaign) × (rest : List Campaign) × (filter
          (λ (x : Campaign). has_scenario x.id scenario links && (x.id == campaign))
          cs
        ≡ d ∷ rest)
      × (d.id ≡ campaign)
campaign_chosen scenario campaign links [] c has found = cc
campaign_chosen scenario campaign links (x ∷ cs) c has found =
    elim (Bool-cases (x.id == campaign)) [
      | inl here ↦
          let same : x.id ≡ campaign = (nat_eq_iff x.id campaign).0 here in
          let linked : has_scenario x.id scenario links ≡ true =
            subst (λ i. has_scenario i scenario links ≡ true) (sym same) has in
          (
            x,
            filter (λ (x : Campaign). has_scenario x.id scenario links && (x.id == campaign)) cs,
            rw (linked, here) refl,
            same,
          )
      | inr other ↦
          let (d, rest, kept, same) =
            campaign_chosen scenario campaign links cs c has (rw other at found) in
          (d, rest, ground (arith, kept), same)
    ]

membership-has :
    (is_admin assigned active has : Bool)
    → requirements is_admin assigned active has ≡ none
    → has ≡ true
membership-has is_admin assigned active has e = ground arith

version_of-ok :
    (campaign : ℕ) (o version : Option Version)
    → version_of campaign o ≡ ok version
    → (v : Version) × (o ≡ some v) × (version ≡ some v)
version_of-ok campaign none version e = cc
version_of-ok campaign (some v) version e = (v, refl, cc)

module _ {D P : Type 0} where
  -- After a script of the scenario is published, a session of the scenario that is created on the
  -- resulting rows is bound to the new version.
  pub publish-create_session :
      (c : Contract D) (version script admin id agent : ℕ) (campaign : Option ℕ) (persona : P)
      (db after : Database D P) (r : Registry D) (row : Script D) (v : ScriptVersion D)
      (s : Session P)
      → IsConsistent r
      → elem version (version_ids r.versions) ≡ false
      → get_script script r ≡ some row
      → publish c version script admin r ≡ Registry.ok (v, db.scripts)
      → create_session id row.scenario_id agent campaign persona db ≡ ok (s, after)
      → s.script_version_id ≡ some v.id
  publish-create_session c version script admin id agent campaign persona db after r row v s h fresh
        found published e =
      let (standard, _, made, _) =
        create_session-ok id row.scenario_id agent campaign persona s db after e in
      let active : get_active_published_version row.scenario_id db.scripts ≡ some v =
        publish-active c version script admin row.scenario_id r db.scripts row v h fresh found
          published
        ∙ rw (beq_self row.scenario_id) refl in
      sym (ap (λ (x : Session P). x.script_version_id) made) ∙ ap id_of_script active

  -- A session that is created for a campaign that has passed `validate_campaign_context` is bound to
  -- the version that the campaign's rubric has published.
  pub create_session-standard :
      (id scenario agent campaign : ℕ) (is_admin : Bool) (persona : P) (db after : Database D P)
      (s : Session P)
      → validate_campaign_context campaign agent scenario is_admin db ≡ none
      → create_session id scenario agent (some campaign) persona db ≡ ok (s, after)
      → (v : Version) × (published_version (db.standards campaign) ≡ some v)
        × (s.negotiation_standard_version_id ≡ some v.id)
        × (s.status ≡ pending)
  unfolding validate_campaign_context resolve_published_version
  create_session-standard id scenario agent campaign is_admin persona db after s valid e =
      elim (Option-cases (find_campaign campaign db.campaigns)) [
        | inl missing ↦ absurd (cc (rw (validate_campaign_context, missing) at valid))
        | inr (c, found) ↦
            let has : has_scenario campaign scenario db.campaign_scenarios ≡ true =
              membership-has _ _ _ _ (rw (validate_campaign_context, found) at valid) in
            let (d, rest, chosen, same) =
              campaign_chosen scenario campaign db.campaign_scenarios db.campaigns c has found in
            let (version, resolved, made, _) =
              create_session-ok id scenario agent (some campaign) persona s db after e in
            let (v, published, is_v) =
              version_of-ok d.id (published_version (db.standards d.id)) version
                (rw (resolve_published_version, chosen) at resolved) in
            (
              v,
              subst (λ i. published_version (db.standards i) ≡ some v) same published,
              sym (ap (λ (x : Session P). x.negotiation_standard_version_id) made)
                  ∙ ap id_of_standard is_v,
              sym (ap (λ (x : Session P). x.status) made),
            )
      ]
