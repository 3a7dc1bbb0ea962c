-- ===== src/Standard/Tests.antt =====
-- A campaign whose standard is published once: the properties of publication at work on it. The
-- hash of a rubric is its overall passing score.
use cat_backend.Common.{ℕ, ◌≡◌, refl, String, Bool, true, not, ◌||◌, [], ◌∷◌, none, some}
use cat_backend.Common.Eq.{elem, ℕ-Eq}
use cat_backend.Rubric.Content.{Block, Content}
use cat_backend.Rubric.Validator.{
  validate_standard, block_ids, categories, display_orders, all_criterion_ids, all_violation_ids,
}
use cat_backend.Standard.Store.{
  Version, Standard, Store, ok, draft, archived, touched, archive_standard, get_version, with_row,
}
use cat_backend.Standard.Publish.{publish_standard, new_version, published_row}
use cat_backend.Standard.Invariant.{IsValid, hashes}
use cat_backend.Standard.Publication.{IsPublication, IsPublishable, publish_standard-ok}
use cat_backend.Standard.Steps.{
  Reach, Reach-IsValid, Reach-keeps, stay, then_step, publishing, archiving,
}
use cat_backend.Standard.Revert.{
  is_ok, is_current, publish_standard-accepts, publish_standard-again,
}

abbrev fold : String → String
fold s = s

abbrev any_order : {A : Type 0} → A → A → Bool
any_order a b = true

abbrev digest : Content → ℕ
digest c = c.overall_passing_score

abbrev only_block : Block
only_block = record {
  id = "opening";
  category = "Opening";
  weight = 100;
  passing_score = 60;
  scoring_instructions = "score it";
  positive_behaviors = [];
  violations = [];
  penalties = [];
  recommendation_guidance = "stay calm";
  display_order = 1;
}

abbrev content : Content
content = record { schema_version = 1; overall_passing_score = 60; blocks = only_block ∷ [] }

abbrev row : Standard
row = record {
  id = 7;
  name = "Collections";
  description = none;
  status = draft;
  overall_passing_score = 60;
  draft_content = some content;
  current_version_id = none;
  revision = 1;
  created_by = 2;
  updated_by = 2;
}

abbrev before : Store
before = record { campaign_exists = true; standard = some row; versions = []; pinned = [] }

abbrev first : Version
first = new_version digest 100 2 none content none

abbrev after : Store
after = with_row (published_row 2 100 row) (record before { versions = first ∷ [] })

before-IsValid : IsValid digest before
before-IsValid = record { history = tt; pointer = (refl, refl) }

content_accepted : (validate_standard fold any_order content true).valid ≡ true
unfolding validate_standard block_ids categories display_orders all_criterion_ids all_violation_ids
content_accepted = refl

before-IsPublishable : IsPublishable digest fold any_order content before
before-IsPublishable = record {
  row = row;
  found = refl;
  active = refl;
  drafted = refl;
  accepted = content_accepted;
}

published_once : publish_standard fold any_order digest 100 2 none before ≡ ok (first, after)
unfolding publish_standard validate_standard block_ids categories display_orders all_criterion_ids
    all_violation_ids
published_once = refl

published_after : Reach fold any_order digest before after
published_after = then_step stay (publishing 100 2 none refl published_once)

publish_standard-ok_example :
    (c : Content) × IsPublishable digest fold any_order c before
    × (IsPublication digest c first before after × IsValid digest after)
publish_standard-ok_example =
    publish_standard-ok digest fold any_order 100 2 none before after first before-IsValid refl
      published_once

Reach-IsValid_example : IsValid digest after
Reach-IsValid_example = Reach-IsValid fold any_order digest published_after before-IsValid

abbrev withdrawn : Store
withdrawn = with_row (touched 3 (record (published_row 2 100 row) { status = archived })) after

archived_once :
    archive_standard 3 after
    ≡ ok (touched 3 (record (published_row 2 100 row) { status = archived }), withdrawn)
unfolding archive_standard
archived_once = refl

after-IsValid : IsValid digest after
after-IsValid =
    (publish_standard-ok digest fold any_order 100 2 none before after first before-IsValid refl
      published_once).2.1

returned : get_version 100 after ≡ ok first
unfolding get_version
returned = refl

Reach-keeps_example : get_version 100 withdrawn ≡ ok first
Reach-keeps_example =
    Reach-keeps fold any_order digest 100 first after-IsValid
      (then_step stay (archiving 3 archived_once)) returned

publish_standard-accepts_example :
    is_ok (publish_standard fold any_order digest 100 2 none before)
    ≡ (is_current (digest content) [] || not (elem (digest content) (hashes [])))
publish_standard-accepts_example =
    publish_standard-accepts fold any_order digest 100 2 none content before before-IsValid
      before-IsPublishable

publish_standard-again_example :
    publish_standard fold any_order digest 101 3 none after ≡ ok (first, after)
publish_standard-again_example =
    publish_standard-again fold any_order digest 100 101 2 3 none none before after first
      before-IsValid refl published_once
