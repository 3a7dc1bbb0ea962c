-- ===== src/Training/Edits.antt =====
-- What the edits of app/services/campaign_service.py keep of a campaign.
use cat_backend.Common.{
  ℕ, String, ◌≡◌, refl, ◌∙◌, ap, sym, subst, Bool, true, false, not, ◌&&◌, List, [], ◌∷◌, Option,
  none, some, inl, inr, Bool-cases, Option-cases, any, Member,
}
use cat_backend.Common.Eq.{◌==◌, elem, ℕ-Eq, String-Eq}
use cat_backend.Session.Campaigns.{Campaign, CampaignStatus, CampaignScenario}
use cat_backend.Training.Rows.{
  Tables, AgentAssignment, replace_agent_associations, CampaignUpdate, Result, ok,
}
use cat_backend.Training.Service.{
  update_campaign, assign, find, ends_early, set_archived, check_name_uniqueness, is_excluded,
  renamed, apply_date_updates, apply_field_updates, or_else, with_status, get_campaign_or_raise,
  with_scenarios, with_agents,
}
use cat_backend.Training.Assigned.{and_then-ok}
use cat_backend.Training.Names.{names, is_free}

abbrev pub is_dated : Campaign → Bool
is_dated c = not (ends_early c.start_date c.end_date)

-- A name that passes the check is free.
pub check-free :
    (name : String) (exclude : Option ℕ) (cs : List Campaign) (u : Unit)
    → check_name_uniqueness name exclude cs ≡ ok u
    → any (λ c. (c.name == name) && not (is_excluded exclude c)) cs ≡ false
check-free name exclude cs u h =
    elim (Bool-cases (any (λ c. (c.name == name) && not (is_excluded exclude c)) cs)) [
      | inl taken ↦ absurd (cc (rw taken at h))
      | inr free ↦ free
    ]

pub free-names :
    (name : String) (cs : List Campaign)
    → any (λ c. (c.name == name) && not (is_excluded none c)) cs ≡ false
    → elem name (names cs) ≡ false
free-names name [] h = refl
free-names name (c ∷ cs) h = elim (Bool-cases (c.name == name)) [
  | inl same ↦ absurd (cc (rw same at h))
  | inr other ↦ rw other (free-names name cs (rw other at h))
]

pub get-ok :
    (id : ℕ) (t : Tables) (c : Campaign)
    → get_campaign_or_raise id t ≡ ok c
    → find id t.campaigns ≡ some c
get-ok id t c h = elim (Option-cases (find id t.campaigns)) [
  | inl missing ↦ absurd (cc (rw (get_campaign_or_raise, missing) at h))
  | inr (x, found) ↦ found ∙ ap some (cc (rw (get_campaign_or_raise, found) at h))
]

renamed-ok :
    (name : Option String) (c n : Campaign) (cs : List Campaign)
    → is_free c.name c.id cs ≡ true
    → renamed name c cs ≡ ok n
    → (n.id ≡ c.id) × (is_free n.name c.id cs ≡ true)
renamed-ok none c n cs f h =
    let same : c ≡ n = cc h in
    (ap (λ x. x.id) (sym same), subst (λ x. is_free x.name c.id cs ≡ true) same f)
renamed-ok (some name) c n cs f h = elim (Bool-cases (name == c.name)) [
  | inl kept ↦
      let same : c ≡ n = cc (rw kept at h) in
      (ap (λ x. x.id) (sym same), subst (λ x. is_free x.name c.id cs ≡ true) same f)
  | inr changed ↦
      let (u, checked, stored) = and_then-ok _ _ n (rw changed at h) in
      let same : record c { name = name } ≡ n = cc stored in
      (
        ap (λ x. x.id) (sym same),
        subst (λ x. is_free x.name c.id cs ≡ true) same
            (ap not (check-free name (some c.id) cs u checked)),
      )
]

dated-ok :
    (request : CampaignUpdate) (c n : Campaign)
    → apply_date_updates request c ≡ ok n
    → (n.id ≡ c.id) × (n.name ≡ c.name) × (is_dated n ≡ true)
dated-ok request c n h =
    elim (Bool-cases (
      ends_early (or_else request.start_date c.start_date) (or_else request.end_date c.end_date))) [
        | inl early ↦ absurd (cc (rw early at h))
        | inr fine ↦
            let same : record c {
              start_date = or_else request.start_date c.start_date;
              end_date = or_else request.end_date c.end_date;
            }
                ≡ n =
              cc (rw fine at h) in
            (
              ap (λ x. x.id) (sym same),
              ap (λ x. x.name) (sym same),
              subst (λ x. is_dated x ≡ true) same (rw fine refl),
            )
      ]

with_status-same :
    (status : Option CampaignStatus) (c : Campaign)
    → ((with_status status c).id ≡ c.id) × ((with_status status c).name ≡ c.name)
with_status-same none c = (refl, refl)
with_status-same (some s) c = (refl, refl)

pub apply_field_updates-ok :
    (request : CampaignUpdate) (c n : Campaign) (cs : List Campaign)
    → is_free c.name c.id cs ≡ true
    → apply_field_updates request c cs ≡ ok n
    → (n.id ≡ c.id) × (is_free n.name c.id cs ≡ true) × (is_dated n ≡ true)
apply_field_updates-ok request c n cs f h =
    let (m, named, then_dated) = and_then-ok _ _ n h in
    let (same_id, free) = renamed-ok request.name c m cs f named in
    let described = record m { description = or_else request.description m.description } in
    let (s_id, s_name) = with_status-same request.status described in
    let (d_id, d_name, dated) =
      dated-ok request (with_status request.status described) n then_dated in
    (
      d_id ∙ s_id ∙ same_id,
      subst (λ k. is_free k c.id cs ≡ true) (sym (d_name ∙ s_name)) free,
      dated,
    )

pub names-archived : (id : ℕ) (cs : List Campaign) → names (assign id set_archived cs) ≡ names cs
names-archived id [] = refl
names-archived id (c ∷ cs) = elim (Bool-cases (c.id == id)) [
  | inl here ↦ rw here (ap (λ r. c.name ∷ r) (names-archived id cs))
  | inr other ↦ rw other (ap (λ r. c.name ∷ r) (names-archived id cs))
]

pub Member-assign :
    (id : ℕ) (f : Campaign → Campaign) (a : Campaign) (cs : List Campaign)
    → (a.id == id) ≡ false
    → Member a cs
    → Member a (assign id f cs)
Member-assign id f a [] other m = absurd m
Member-assign id f a (x ∷ cs) other (inl here) = inl (rw (ap (λ y. y.id == id) here ∙ other) here)
Member-assign id f a (x ∷ cs) other (inr later) = inr (Member-assign id f a cs other later)

module _ (insert_nothing : List CampaignScenario → Result (List CampaignScenario)) where
  with_scenarios-campaigns :
      (id : ℕ) (scenarios : Option (List ℕ)) (t t' : Tables)
      → with_scenarios insert_nothing id scenarios t ≡ ok t'
      → t'.campaigns ≡ t.campaigns
  with_scenarios-campaigns id none t t' h =
      let same : t ≡ t' = cc h in ap (λ x. x.campaigns) (sym same)
  with_scenarios-campaigns id (some listed) t t' h =
      let (u, valid_ids, then_replaced) = and_then-ok _ _ t' h in
      let (rows, replaced, stored) = and_then-ok _ _ t' then_replaced in
      let same : record t { campaign_scenarios = rows } ≡ t' = cc stored in
      ap (λ x. x.campaigns) (sym same)

  with_agents-campaigns :
      (id : ℕ) (agents : Option (List AgentAssignment)) (t t' : Tables)
      → with_agents insert_nothing id agents t ≡ ok t'
      → t'.campaigns ≡ t.campaigns
  with_agents-campaigns id none t t' h =
      let same : t ≡ t' = cc h in ap (λ x. x.campaigns) (sym same)
  with_agents-campaigns id (some agents) t t' h =
      let (u, valid_agents, stored) = and_then-ok _ _ t' h in
      let same : record t {
        campaign_agents = replace_agent_associations id agents t.campaign_agents;
      }
          ≡ t' =
        cc stored in
      ap (λ x. x.campaigns) (sym same)

  -- The row that an edit stores.
  pub update_campaign-stores :
      (id : ℕ) (request : CampaignUpdate) (t t' : Tables)
      → update_campaign insert_nothing id request t ≡ ok t'
      → (c : Campaign) × (new : Campaign) × (find id t.campaigns ≡ some c)
        × (apply_field_updates request c t.campaigns ≡ ok new)
        × (t'.campaigns ≡ assign id (λ old. new) t.campaigns)
  unfolding update_campaign
  update_campaign-stores id request t t' h =
      let (c, found, then_new) = and_then-ok _ _ t' h in
      let (new, edited, then_linked) = and_then-ok _ _ t' then_new in
      let (linked, scenarios, then_assigned) = and_then-ok _ _ t' then_linked in
      (
        c,
        new,
        get-ok id t c found,
        edited,
        with_agents-campaigns id request.agents linked t' then_assigned
            ∙ with_scenarios-campaigns id request.scenario_ids _ linked scenarios,
      )
