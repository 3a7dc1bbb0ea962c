-- ===== src/Session/Tests.antt =====
-- An agent of a campaign with one scenario, a published script and a published rubric.
use cat_backend.Common.{ℕ, ◌≡◌, refl, Bool, true, false, [], ◌∷◌, none, some, length, inr}
use cat_backend.Common.Words.{codes}
use cat_backend.Rubric.Content.{Content}
use cat_backend.Standard.Store
use cat_backend.Standard.Store.{Standard, Store, Version}
use cat_backend.Script.Registry
use cat_backend.Script.Registry.{
  Contract, Registry, Script, ScriptVersion, assign, set_published, publish,
  get_active_published_version,
}
use cat_backend.Script.Rows.{IsConsistent}
use cat_backend.Session.Campaigns.{Campaign, active, participant}
use cat_backend.Session.Rows.{Session, Database, ok, pending}
use cat_backend.Session.Service.{
  create_session, end_session, get_session, set_ended, resolve_published_version, published_version,
}
use cat_backend.Session.Access.{validate_campaign_context}
use cat_backend.Session.Advances.{Advances}
use cat_backend.Session.Lifecycle.{done, then_step, ended, Reach-Advances}
use cat_backend.Session.Pins.{publish-create_session, create_session-standard}
use cat_backend.Session.Permits.{validate_campaign_context_iff}

abbrev contract : Contract ℕ
contract = record {
  parse = λ format raw. some (length (codes raw));
  structured = λ content. true;
  validated = λ format content. some content;
}

abbrev script : Script ℕ
script = record {
  id = 1;
  scenario_id = 5;
  name = "Greeting";
  status = Registry.draft;
  format = "json";
  draft_content = 2;
  current_version_id = none;
  is_deleted = false;
  created_by = 9;
}

abbrev written : Registry ℕ
written = record { scripts = script ∷ []; versions = [] }

abbrev script_version : ScriptVersion ℕ
script_version = record {
  id = 30;
  script_id = 1;
  version_number = 1;
  content = 2;
  published_by = 9;
}

abbrev live : Registry ℕ
live = record (assign 1 (set_published 30) written) { versions = script_version ∷ [] }

written-IsConsistent : IsConsistent written
written-IsConsistent = record {
  one_per_id = refl;
  one_per_scenario = refl;
  own = (λ i points. cc points, tt);
  served = (refl, tt);
  numbered = tt;
}

published_script : publish contract 30 1 9 written ≡ Registry.ok (script_version, live)
unfolding publish
published_script = refl

abbrev content : Content
content = record { schema_version = 1; overall_passing_score = 60; blocks = [] }

abbrev rubric : Store
rubric = record {
  campaign_exists = true;
  standard = some (record {
    id = 7;
    name = "Collections";
    description = none;
    status = Store.published;
    overall_passing_score = 60;
    draft_content = none;
    current_version_id = some 100;
    revision = 2;
    created_by = 2;
    updated_by = 2;
  });
  versions =
      record {
        id = 100;
        version_number = 1;
        schema_version = 1;
        snapshot = content;
        content_hash = 60;
        created_by = 2;
        published_by = 2;
        publication_note = none;
      }
      ∷ [];
  pinned = [];
}

abbrev campaign : Campaign
campaign = record {
  id = 4;
  name = "Spring";
  description = none;
  status = active;
  start_date = none;
  end_date = none;
}

abbrev database : Database ℕ Bool
database = record {
  scenarios = record { id = 5; is_active = true } ∷ [];
  campaigns = campaign ∷ [];
  campaign_scenarios = record { campaign_id = 4; scenario_id = 5 } ∷ [];
  campaign_agents = record { campaign_id = 4; agent_id = 8; role = participant } ∷ [];
  standards = λ c. rubric;
  scripts = live;
  sessions = [];
}

abbrev session : Session Bool
session = record {
  id = 70;
  scenario_id = 5;
  agent_id = 8;
  campaign_id = some 4;
  status = pending;
  persona_context = true;
  script_version_id = some 30;
  negotiation_standard_version_id = some 100;
  ended_at = none;
}

abbrev started : Database ℕ Bool
started = record database { sessions = session ∷ [] }

created_now : create_session 70 5 8 (some 4) true database ≡ ok (session, started)
unfolding create_session resolve_published_version get_active_published_version
created_now = refl

valid_now : validate_campaign_context 4 8 5 false database ≡ none
unfolding validate_campaign_context
valid_now = refl

publish-create_session_example : session.script_version_id ≡ some 30
publish-create_session_example =
    publish-create_session contract 30 1 9 70 8 (some 4) true database started written script
      script_version session written-IsConsistent refl refl published_script created_now

create_session-standard_example :
    (v : Version) × (published_version rubric ≡ some v)
    × (some 100 ≡ some v.id)
    × (session.status ≡ pending)
create_session-standard_example =
    create_session-standard 70 5 8 4 false true database started session valid_now created_now

validate_campaign_context_iff_example : validate_campaign_context 4 8 5 false database ≡ none
validate_campaign_context_iff_example =
    (validate_campaign_context_iff 4 8 5 false database).1 (campaign, refl, inr (refl, refl), refl)

over : Database ℕ Bool
over = record started { sessions = set_ended 99 session ∷ [] }

ended_now : end_session 99 70 started ≡ ok over
unfolding end_session over
ended_now = refl

Reach-Advances_example : (t : Session Bool) × (get_session 70 over ≡ some t) × Advances session t
Reach-Advances_example =
    Reach-Advances 70 started over session (then_step done (ended 99 70 ended_now)) refl
