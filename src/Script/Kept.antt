-- ===== src/Script/Kept.antt =====
-- Every operation keeps the script rows consistent.
use cat_backend.Common.{
  ℕ, ◌≡◌, refl, subst, sym, String, true, false, List, [], ◌∷◌, none, some, arith, any, All,
  Option-cases, inl, inr,
}
use cat_backend.Common.Eq.{◌==◌, elem, ℕ-Eq, nat_eq_iff}
use cat_backend.Script.Registry.{
  Script, ScriptVersion, Registry, Contract, ok, is_published, get_script, assign, find_version,
  create_draft, update_draft, publish, unpublish, delete_script, set_draft, set_published,
  set_unpublished, set_deleted, new_version,
}
use cat_backend.Script.Rows.{
  scenarios, script_ids, version_ids, IsOwn, IsServed, IsConsistent, All-assign, scenarios-assign,
  ids-assign, assign-IsConsistent,
}

module _ {Data : Type 0} where
  found-member :
      (id : ℕ) (vs : List (ScriptVersion Data)) (v : ScriptVersion Data)
      → find_version id vs ≡ some v
      → elem id (version_ids vs) ≡ true
  found-member id [] w e = cc
  found-member id (v ∷ vs) w e = ground (arith, found-member id vs w, nat_eq_iff v.id id)

  pub found-again :
      (id : ℕ) (w v : ScriptVersion Data) (vs : List (ScriptVersion Data))
      → elem w.id (version_ids vs) ≡ false
      → find_version id vs ≡ some v
      → find_version id (w ∷ vs) ≡ some v
  found-again id w v vs fresh e = ground (arith, found-member id vs v e, nat_eq_iff w.id id)

  IsOwn-more :
      (w : ScriptVersion Data) (vs : List (ScriptVersion Data))
      → elem w.id (version_ids vs) ≡ false
      → (s : Script Data) → IsOwn vs s
      → IsOwn (w ∷ vs) s
  IsOwn-more w vs fresh s o version points =
      let (v, found, same) = o version points in (v, found-again version w v vs fresh found, same)

  All-more :
      (P Q : Script Data → Type 0)
      → ((s : Script Data) → P s → Q s)
      → (ss : List (Script Data)) → All P ss
      → All Q ss
  All-more P Q f [] ps = tt
  All-more P Q f (s ∷ ss) (p, ps) = (f s p, All-more P Q f ss ps)

  found_newest :
      (w : ScriptVersion Data) (vs : List (ScriptVersion Data))
      → find_version w.id (w ∷ vs) ≡ some w
  found_newest w vs = ground arith

  pub publish-IsConsistent :
      (c : Contract Data) (version id admin : ℕ) (r t : Registry Data) (v : ScriptVersion Data)
      → IsConsistent r
      → elem version (version_ids r.versions) ≡ false
      → publish c version id admin r ≡ ok (v, t)
      → IsConsistent t
  unfolding publish
  publish-IsConsistent c version id admin r t v h fresh e = elim (Option-cases (get_script id r)) [
    | inl missing ↦ ground arith
    | inr (s, found) ↦ elim (Option-cases (c.validated s.format s.draft_content)) [
      | inl refused ↦ ground arith
      | inr (content, good) ↦
          let w = new_version c version admin id content r in
          let new : Registry Data = record (assign id (set_published version) r) {
            versions = w ∷ r.versions;
          } in
          let same : new ≡ t = ground arith in
          subst IsConsistent same (record {
            one_per_id =
                rw (ids-assign id (set_published version) (λ x. refl) r.scripts) h.one_per_id;
            one_per_scenario =
                rw (scenarios-assign id (set_published version) (λ x. refl) r.scripts)
                  h.one_per_scenario;
            own =
                All-assign (IsOwn (w ∷ r.versions)) id (set_published version)
                  (λ x named o i points.
                    let eq : version ≡ i = ground arith in
                    (
                      w,
                      subst (λ k. find_version k (w ∷ r.versions) ≡ some w) eq
                          (found_newest w r.versions),
                      sym named,
                    ))
                  r.scripts
                  (All-more (IsOwn r.versions) (IsOwn (w ∷ r.versions))
                    (IsOwn-more w r.versions fresh) r.scripts h.own);
            served =
                All-assign IsServed id (set_published version) (λ x named o. refl) r.scripts
                  h.served;
            numbered = (fresh, omega arith, h.numbered);
          })
    ]
  ]

  any-scenario :
      (k : ℕ) (ss : List (Script Data))
      → any (λ (o : Script Data). o.scenario_id == k) ss ≡ elem k (scenarios ss)
  any-scenario k [] = refl
  any-scenario k (s ∷ ss) = rw (any-scenario k ss) refl

  pub create_draft-IsConsistent :
      (c : Contract Data) (id admin : ℕ) (name : String) (scenario : ℕ) (format raw : String)
      (r t : Registry Data) (s : Script Data)
      → IsConsistent r
      → elem id (script_ids r.scripts) ≡ false
      → create_draft c id admin name scenario format raw r ≡ ok (s, t)
      → IsConsistent t
  unfolding create_draft
  create_draft-IsConsistent c id admin name scenario format raw r t s h unused e =
      let taken = any-scenario scenario r.scripts in
      elim (Option-cases (c.parse format raw)) [
        | inl malformed ↦ ground arith
        | inr (content, parsed) ↦
            let fresh : elem scenario (scenarios r.scripts) ≡ false = ground (arith, taken) in
            let same : record r { scripts = s ∷ r.scripts } ≡ t = ground arith in
            let keys : s.scenario_id ≡ scenario = ground arith in
            let named : s.id ≡ id = ground arith in
            let unset : s.current_version_id ≡ none = ground arith in
            let drafted : is_published s.status ≡ false = ground arith in
            subst IsConsistent same (record {
              one_per_id = rw (named, unused) h.one_per_id;
              one_per_scenario = rw (keys, fresh) h.one_per_scenario;
              own = (λ i points. cc (unset, points), h.own);
              served = (ground arith, h.served);
              numbered = h.numbered;
            })
      ]

  pub update_draft-IsConsistent :
      (c : Contract Data) (id : ℕ) (raw format : String) (r t : Registry Data)
      → IsConsistent r
      → update_draft c id raw format r ≡ ok t
      → IsConsistent t
  unfolding update_draft
  update_draft-IsConsistent c id raw format r t h e = elim (Option-cases (get_script id r)) [
    | inl missing ↦ ground arith
    | inr (s, found) ↦ elim (Option-cases (c.parse format raw)) [
      | inl malformed ↦ ground arith
      | inr (content, parsed) ↦
          let same : assign id (set_draft format content) r ≡ t = ground arith in
          subst IsConsistent same (
            assign-IsConsistent id (set_draft format content) r (λ x. refl) (λ x. refl) (λ x. refl)
              (λ x o. o) h)
    ]
  ]

  pub unpublish-IsConsistent :
      (id : ℕ) (r t : Registry Data) → IsConsistent r → unpublish id r ≡ ok t → IsConsistent t
  unfolding unpublish
  unpublish-IsConsistent id r t h e = elim (Option-cases (get_script id r)) [
    | inl missing ↦ ground arith
    | inr (s, found) ↦
        let same : assign id set_unpublished r ≡ t = ground arith in
        subst IsConsistent same (
          assign-IsConsistent id set_unpublished r (λ x. refl) (λ x. refl) (λ x. refl) (λ x o. refl)
            h)
  ]

  pub delete_script-IsConsistent :
      (id : ℕ) (r t : Registry Data) → IsConsistent r → delete_script id r ≡ ok t → IsConsistent t
  unfolding delete_script
  delete_script-IsConsistent id r t h e = elim (Option-cases (get_script id r)) [
    | inl missing ↦ ground arith
    | inr (s, found) ↦
        let same : assign id set_deleted r ≡ t = ground arith in
        subst IsConsistent same
          (assign-IsConsistent id set_deleted r (λ x. refl) (λ x. refl) (λ x. refl) (λ x o. o) h)
  ]
