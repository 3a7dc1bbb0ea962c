-- ===== src/Session/Permits.antt =====
-- Exactly who passes app/services/campaign_validation_service.py and
-- app/services/session_access.py.
use cat_backend.Common.{ℕ, ◌≡◌, Bool, true, none, some, inl, inr, ◌⊎◌, ◌↔◌, arith, Option-cases}
use cat_backend.Session.Campaigns.{
  Campaign, is_active_status, is_assigned, has_scenario, find_campaign,
}
use cat_backend.Session.Rows.{Database}
use cat_backend.Session.Access.{validate_campaign_context, requirements}

requirements_iff :
    (is_admin assigned active has : Bool)
    → (requirements is_admin assigned active has ≡ none)
      ↔ (((is_admin ≡ true) ⊎ ((assigned ≡ true) × (active ≡ true))) × (has ≡ true))
requirements_iff is_admin assigned active has = (λ h. ground arith, λ h. ground arith)

module _ {D P : Type 0} where
  -- A campaign context is valid exactly when the campaign is there, the user is an admin or is
  -- assigned to it while it is active, and the scenario belongs to it.
  pub validate_campaign_context_iff :
      (campaign agent scenario : ℕ) (is_admin : Bool) (db : Database D P)
      → (validate_campaign_context campaign agent scenario is_admin db ≡ none) ↔ (
          (c : Campaign) × (find_campaign campaign db.campaigns ≡ some c)
          × ((is_admin ≡ true)
              ⊎ ((is_assigned campaign agent db.campaign_agents ≡ true)
                  × (is_active_status c.status ≡ true)))
          × (has_scenario campaign scenario db.campaign_scenarios ≡ true))
  unfolding validate_campaign_context
  validate_campaign_context_iff campaign agent scenario is_admin db = (
    λ h. elim (Option-cases (find_campaign campaign db.campaigns)) [
      | inl missing ↦ absurd (cc (rw (validate_campaign_context, missing) at h))
      | inr (c, found) ↦
          let (allowed, has) =
            (requirements_iff is_admin (is_assigned campaign agent db.campaign_agents)
                (is_active_status c.status)
                (has_scenario campaign scenario db.campaign_scenarios)).0
              (rw (validate_campaign_context, found) at h) in
          (c, found, allowed, has)
    ],
    λ (c, found, allowed, has).
        rw (validate_campaign_context, found)
          ((requirements_iff is_admin (is_assigned campaign agent db.campaign_agents)
              (is_active_status c.status) (has_scenario campaign scenario db.campaign_scenarios)).1
            (allowed, has)),
  )
