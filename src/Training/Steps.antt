-- ===== src/Training/Steps.antt =====
-- Sequences of the operations of app/services/campaign_service.py.
use cat_backend.Common.{
  ℕ, ◌≡◌, refl, ◌∙◌, ap, sym, subst, true, false, List, [], ◌∷◌, none, some, inl, inr, all, All,
  Member, filter, Bool-cases,
}
use cat_backend.Common.Eq.{elem, distinct, ℕ-Eq, String-Eq}
use cat_backend.Session.Campaigns.{Campaign, CampaignScenario}
use cat_backend.Training.Rows.{Tables, CampaignCreate, CampaignUpdate, Result, ok, is_archived}
use cat_backend.Training.Service.{
  create_campaign, update_campaign, archive_campaign, assign, find, ends_early, set_archived,
  new_campaign, inserted,
}
use cat_backend.Training.Assigned.{and_then-ok}
use cat_backend.Training.Names.{
  ids, names, is_free, ids-assign, ids-replaced, names-assign, all-assign, find-ok, find-unarchived,
  own-free,
}
use cat_backend.Training.Edits.{
  is_dated, check-free, free-names, get-ok, apply_field_updates-ok, names-archived, Member-assign,
  update_campaign-stores,
}

-- Names and ids are used once, and no campaign ends before it starts.
pub record IsOrdered (t : Tables) : Type 0 where
  pub one_per_id : distinct (ids t.campaigns) ≡ true
  pub one_per_name : distinct (names t.campaigns) ≡ true
  pub dated : all is_dated t.campaigns ≡ true

abbrev pub archived_of : List Campaign → List Campaign
archived_of = filter (λ c. is_archived c.status)

archived-All :
    (P : Campaign → Type 0) (cs : List Campaign)
    → ((c : Campaign) → Member c cs → is_archived c.status ≡ true → P c)
    → All P (archived_of cs)
archived-All P [] h = tt
archived-All P (c ∷ cs) h =
    let rest = archived-All P cs (λ x m r. h x (inr m) r) in
    elim (Bool-cases (is_archived c.status)) [
      | inl shut ↦ rw shut (h c (inl refl) shut, rest)
      | inr live ↦ rw live rest
    ]

-- The creation is of a request that the schema accepts.
module _ (insert_nothing : List CampaignScenario → Result (List CampaignScenario)) where
  pub data Step : Tables → Tables → Type 0 where
    created :
        (id : ℕ) (request : CampaignCreate) {a b : Tables}
        → elem id (ids a.campaigns) ≡ false
        → ends_early request.start_date request.end_date ≡ false
        → create_campaign id request a ≡ ok b
        → Step a b
    updated :
        (id : ℕ) (request : CampaignUpdate) {a b : Tables}
        → update_campaign insert_nothing id request a ≡ ok b
        → Step a b
    archived : (id : ℕ) {a b : Tables} → archive_campaign id a ≡ ok b → Step a b

  pub data Reach : Tables → Tables → Type 0 where
    done : {a : Tables} → Reach a a
    then_step : {a b c : Tables} → Reach a b → Step b c → Reach a c

-- The properties of the rows that an assignment of one row must keep.
assign-IsOrdered :
    (id : ℕ) (new : Campaign) (t t' : Tables)
    → IsOrdered t
    → new.id ≡ id
    → is_free new.name id t.campaigns ≡ true
    → is_dated new ≡ true
    → t'.campaigns ≡ assign id (λ old. new) t.campaigns
    → IsOrdered t'
assign-IsOrdered id new t t' h named free dates rows = record {
  one_per_id =
      ap (λ cs. distinct (ids cs)) rows
      ∙ ap distinct (ids-replaced id new named t.campaigns)
      ∙ h.one_per_id;
  one_per_name =
      ap (λ cs. distinct (names cs)) rows
      ∙ names-assign id new t.campaigns h.one_per_id h.one_per_name free;
  dated =
      ap (all is_dated) rows
      ∙ all-assign is_dated id (λ old. new) (λ c p. dates) t.campaigns h.dated;
}

create_campaign-IsOrdered :
    (id : ℕ) (request : CampaignCreate) (t t' : Tables)
    → IsOrdered t
    → elem id (ids t.campaigns) ≡ false
    → ends_early request.start_date request.end_date ≡ false
    → create_campaign id request t ≡ ok t'
    → IsOrdered t' × (t'.campaigns ≡ new_campaign id request ∷ t.campaigns)
unfolding create_campaign
create_campaign-IsOrdered id request t t' h fresh dates e =
    let (u, unique, then_scenarios) = and_then-ok _ _ t' e in
    let (v, scenarios, then_agents) = and_then-ok _ _ t' then_scenarios in
    let (w, agents, stored) = and_then-ok _ _ t' then_agents in
    let same : inserted id request t ≡ t' = cc stored in
    let free =
      free-names request.name t.campaigns (check-free request.name none t.campaigns u unique) in
    (
      subst IsOrdered same (record {
        one_per_id = rw (fresh, h.one_per_id) refl;
        one_per_name = rw (free, h.one_per_name) refl;
        dated = rw (dates, h.dated) refl;
      }),
      ap (λ x. x.campaigns) (sym same),
    )

archive_campaign-stores :
    (id : ℕ) (t t' : Tables)
    → archive_campaign id t ≡ ok t'
    → (c : Campaign) × (find id t.campaigns ≡ some c)
      × (t'.campaigns ≡ assign id set_archived t.campaigns)
unfolding archive_campaign
archive_campaign-stores id t t' h =
    let (c, found, stored) = and_then-ok _ _ t' h in
    let same : record t { campaigns = assign id set_archived t.campaigns } ≡ t' = cc stored in
    (c, get-ok id t c found, ap (λ x. x.campaigns) (sym same))

module _ (insert_nothing : List CampaignScenario → Result (List CampaignScenario)) where
  Step-IsOrdered : {a b : Tables} → Step insert_nothing a b → IsOrdered a → IsOrdered b
  Step-IsOrdered {a} {b} (created id request fresh dates e) h =
      (create_campaign-IsOrdered id request a b h fresh dates e).0
  Step-IsOrdered {a} {b} (updated id request e) h =
      let (c, new, found, edited, rows) = update_campaign-stores insert_nothing id request a b e in
      let named = (find-ok id a.campaigns c found).1 in
      let own : is_free c.name c.id a.campaigns ≡ true =
        subst (λ i. is_free c.name i a.campaigns ≡ true) (sym named)
          (own-free id a.campaigns c h.one_per_name found) in
      let (same_id, free, dates) = apply_field_updates-ok request c new a.campaigns own edited in
      assign-IsOrdered id new a b h (same_id ∙ named)
        (subst (λ i. is_free new.name i a.campaigns ≡ true) named free) dates rows
  Step-IsOrdered {a} {b} (archived id e) h =
      let (c, found, rows) = archive_campaign-stores id a b e in
      record {
        one_per_id =
            ap (λ cs. distinct (ids cs)) rows
            ∙ ap distinct (ids-assign id set_archived (λ y. refl) a.campaigns)
            ∙ h.one_per_id;
        one_per_name =
            ap (λ cs. distinct (names cs)) rows
            ∙ ap distinct (names-archived id a.campaigns)
            ∙ h.one_per_name;
        dated =
            ap (all is_dated) rows
            ∙ all-assign is_dated id set_archived (λ y p. p) a.campaigns h.dated;
      }

  -- A step leaves an archived campaign as it is.
  Step-archived :
      {a b : Tables} (x : Campaign)
      → IsOrdered a
      → is_archived x.status ≡ true
      → Member x a.campaigns
      → Step insert_nothing a b
      → Member x b.campaigns
  Step-archived {a} {b} x h r m (created id request fresh dates e) =
      subst (Member x) (sym (create_campaign-IsOrdered id request a b h fresh dates e).1) (inr m)
  Step-archived {a} {b} x h r m (updated id request e) =
      let (c, new, found, edited, rows) = update_campaign-stores insert_nothing id request a b e in
      subst (Member x) (sym rows) (
        Member-assign id (λ old. new) x a.campaigns
          (find-unarchived id a.campaigns c x h.one_per_id found m r) m)
  Step-archived {a} {b} x h r m (archived id e) =
      let (c, found, rows) = archive_campaign-stores id a b e in
      subst (Member x) (sym rows) (
        Member-assign id set_archived x a.campaigns
          (find-unarchived id a.campaigns c x h.one_per_id found m r) m)

  Reach-in_order : {a b : Tables} → IsOrdered a → Reach insert_nothing a b → IsOrdered b
  Reach-in_order h done = h
  Reach-in_order h (then_step reached s) = Step-IsOrdered s (Reach-in_order h reached)

  Reach-archived :
      {a b : Tables} (x : Campaign)
      → IsOrdered a
      → is_archived x.status ≡ true
      → Reach insert_nothing a b
      → Member x a.campaigns
      → Member x b.campaigns
  Reach-archived x h r done m = m
  Reach-archived x h r (then_step reached s) m =
      Step-archived x (Reach-in_order h reached) r (Reach-archived x h r reached m) s

  -- From tables in which ids and names are used once and no campaign ends before it starts, over
  -- creations under fresh ids and of requests that do not end before they start, edits and archivings:
  -- these still hold, and every campaign that was archived at the start is there unchanged.
  pub Reach-IsOrdered :
      {a b : Tables}
      → IsOrdered a
      → Reach insert_nothing a b
      → IsOrdered b × All (λ x. Member x b.campaigns) (archived_of a.campaigns)
  Reach-IsOrdered {a} {b} h reached = (
    Reach-in_order h reached,
    archived-All (λ x. Member x b.campaigns) a.campaigns (λ x m r. Reach-archived x h r reached m),
  )
