-- ===== src/Script/Tests.antt =====
-- One script that is written, published, edited and withdrawn. A definition parses to its length in
-- code points, and every definition is valid.
use cat_backend.Common.{ℕ, ◌≡◌, refl, true, false, [], ◌∷◌, none, some, length, if◌then◌else◌, inl}
use cat_backend.Common.Eq.{◌==◌, ℕ-Eq}
use cat_backend.Common.Words.{codes}
use cat_backend.Script.Registry.{
  Script, ScriptVersion, Registry, Contract, ok, draft, assign, set_published, set_draft,
  set_unpublished, get_active_published_version, publish, update_draft, unpublish,
}
use cat_backend.Script.Rows.{IsConsistent}
use cat_backend.Script.Active.{publish-active, withdrawn-active}
use cat_backend.Script.Steps.{stay, then_step, publishing, Reach-IsConsistent}

abbrev contract : Contract ℕ
contract = record {
  parse = λ format raw. some (length (codes raw));
  structured = λ content. true;
  validated = λ format content. some content;
}

abbrev script : Script ℕ
script = record {
  id = 1;
  scenario_id = 5;
  name = "Greeting";
  status = draft;
  format = "json";
  draft_content = 2;
  current_version_id = none;
  is_deleted = false;
  created_by = 9;
}

abbrev written : Registry ℕ
written = record { scripts = script ∷ []; versions = [] }

abbrev version : ScriptVersion ℕ
version = record { id = 30; script_id = 1; version_number = 1; content = 2; published_by = 9 }

abbrev live : Registry ℕ
live = record (assign 1 (set_published 30) written) { versions = version ∷ [] }

written-IsConsistent : IsConsistent written
written-IsConsistent = record {
  one_per_id = refl;
  one_per_scenario = refl;
  own = (λ i points. cc points, tt);
  served = (refl, tt);
  numbered = tt;
}

published_now : publish contract 30 1 9 written ≡ ok (version, live)
unfolding publish
published_now = refl

Reach-IsConsistent_example : IsConsistent live
Reach-IsConsistent_example =
    Reach-IsConsistent contract (then_step stay (publishing 30 1 9 refl published_now))
      written-IsConsistent

live-IsConsistent : IsConsistent live
live-IsConsistent =
    Reach-IsConsistent contract (then_step stay (publishing 30 1 9 refl published_now))
      written-IsConsistent

publish-active_example :
    get_active_published_version 5 live
    ≡ (if script.scenario_id == 5 then some version else get_active_published_version 5 written)
publish-active_example =
    publish-active contract 30 1 9 5 written live script version written-IsConsistent refl refl
      published_now

edited_now : update_draft contract 1 "{}{}" "json" live ≡ ok (assign 1 (set_draft "json" 4) live)
unfolding update_draft
edited_now = refl

withdrawn_now : unpublish 1 live ≡ ok (assign 1 set_unpublished live)
unfolding unpublish
withdrawn_now = refl

withdrawn-active_example :
    get_active_published_version 5 (assign 1 set_unpublished live)
    ≡ (if script.scenario_id == 5 then none else get_active_published_version 5 live)
withdrawn-active_example =
    withdrawn-active 1 5 live (assign 1 set_unpublished live) (set_published 30 script)
      live-IsConsistent refl (inl withdrawn_now)
