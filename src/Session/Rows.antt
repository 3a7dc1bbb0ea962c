-- ===== src/Session/Rows.antt =====
-- The rows that a training session reads and writes: the session of app/models. What a persona
-- holds is a type; the draft rubric of a campaign and its versions are a `Store`, and the scripts a
-- `Registry`.
use cat_backend.Common.{ℕ, List, [], ◌∷◌, Option, none, some, if◌then◌else◌, map}
use cat_backend.Common.Eq.{◌==◌, ℕ-Eq}
use cat_backend.Standard.Store.{Store}
use cat_backend.Script.Registry.{Registry}
use cat_backend.Session.Campaigns.{Scenario, Campaign, CampaignAgent, CampaignScenario}

pub data SessionStatus : Type 0 where
  pending active completed error : SessionStatus

pub record Session (Persona : Type 0) : Type 0 where
  pub id : ℕ
  pub scenario_id : ℕ
  pub agent_id : ℕ
  pub campaign_id : Option ℕ
  pub status : SessionStatus
  pub persona_context : Persona
  pub script_version_id : Option ℕ
  pub negotiation_standard_version_id : Option ℕ
  pub ended_at : Option ℕ

pub record Database (Data Persona : Type 0) : Type 0 where
  pub scenarios : List Scenario
  pub campaigns : List Campaign
  pub campaign_scenarios : List CampaignScenario
  pub campaign_agents : List CampaignAgent
  pub standards : ℕ → Store
  pub scripts : Registry Data
  pub sessions : List (Session Persona)

pub data Error : Type 0 where
  scenario_missing not_found wrong_status : Error
  standard_required : ℕ → Error

pub data Result (A : Type 0) : Type 0 where
  ok : A → Result A
  err : Error → Result A

module _ {P : Type 0} where
  abbrev pub find_session : ℕ → List (Session P) → Option (Session P)
  find_session id [] = none
  find_session id (s ∷ ss) = if s.id == id then some s else find_session id ss

  abbrev pub assign : ℕ → (Session P → Session P) → List (Session P) → List (Session P)
  assign id f = map (λ s. if s.id == id then f s else s)
