-- ===== src/Script/Active.antt =====
-- Which version the training calls of a scenario use after each operation.
use cat_backend.Common.{
  ℕ, ◌≡◌, refl, subst, String, true, false, not, ◌&&◌, List, [], ◌∷◌, map, Option, none, some,
  arith, if◌then◌else◌, All, Bool-cases, Option-cases, inl, inr, ◌⊎◌,
}
use cat_backend.Common.Eq.{◌==◌, elem, distinct, ℕ-Eq, nat_eq_iff}
use cat_backend.Script.Registry.{
  Script, ScriptVersion, Registry, Contract, ok, find_by, get_script, assign, update_draft, publish,
  unpublish, delete_script, set_draft, set_published, set_unpublished, set_deleted, new_version,
  get_active_published_version, active_of,
}
use cat_backend.Script.Rows.{scenarios, script_ids, version_ids, IsOwn, IsConsistent}
use cat_backend.Script.Kept.{found-again}

module _ {Data : Type 0} where
  abbrev by_scenario : ℕ → List (Script Data) → Option (Script Data)
  by_scenario = find_by (λ s. s.scenario_id)

  abbrev pub by_id : ℕ → List (Script Data) → Option (Script Data)
  by_id = find_by (λ s. s.id)

  abbrev revised : ℕ → (Script Data → Script Data) → List (Script Data) → List (Script Data)
  revised id f = map (λ s. if s.id == id then f s else s)

  missing_scenario :
      (k : ℕ) (ss : List (Script Data)) → elem k (scenarios ss) ≡ false → by_scenario k ss ≡ none
  missing_scenario k [] e = refl
  missing_scenario k (s ∷ ss) e = ground (arith, missing_scenario k ss)

  pub missing_id :
      (k : ℕ) (ss : List (Script Data)) → elem k (script_ids ss) ≡ false → by_id k ss ≡ none
  missing_id k [] e = refl
  missing_id k (s ∷ ss) e = ground (arith, missing_id k ss)

  revised-missing :
      (id : ℕ) (f : Script Data → Script Data) (ss : List (Script Data))
      → elem id (script_ids ss) ≡ false
      → revised id f ss ≡ ss
  revised-missing id f [] e = refl
  revised-missing id f (s ∷ ss) e =
      let other : (s.id == id) ≡ false = ground arith in
      rw (other, revised-missing id f ss (ground arith)) refl

  found-scenario :
      (id : ℕ) (ss : List (Script Data)) (s : Script Data)
      → by_id id ss ≡ some s
      → elem s.scenario_id (scenarios ss) ≡ true
  found-scenario id [] s e = cc
  found-scenario id (x ∷ ss) s e = elim (Bool-cases ((x.id == id) && not x.is_deleted)) [
    | inl here ↦
        let first : x ≡ s = ground arith in
        rw (← first) ground (arith, nat_eq_iff x.scenario_id x.scenario_id)
    | inr other ↦
        let later : by_id id ss ≡ some s = ground arith in
        ground (arith, found-scenario id ss s later)
  ]

  -- The row of each scenario after an assignment to the row of one of them.
  by_scenario-revised :
      (k id : ℕ) (f : Script Data → Script Data) (s : Script Data) (ss : List (Script Data))
      → ((x : Script Data) → (f x).scenario_id ≡ x.scenario_id)
      → distinct (script_ids ss) ≡ true
      → distinct (scenarios ss) ≡ true
      → by_id id ss ≡ some s
      → by_scenario k (revised id f ss) ≡ (
          if s.scenario_id == k
          then (if (f s).is_deleted then none else some (f s))
          else by_scenario k ss)
  by_scenario-revised k id f s [] same i d e = cc
  by_scenario-revised k id f s (x ∷ ss) same i d e = elim (Bool-cases (x.id == id)) [
    | inl here ↦
        let alone : elem id (script_ids ss) ≡ false =
          rw (← (nat_eq_iff x.id id).0 here) ground arith in
        elim (Bool-cases x.is_deleted) [
          | inl gone ↦
              let later : by_id id ss ≡ some s = ground arith in cc (missing_id id ss alone, later)
          | inr live ↦
              let first : x ≡ s = ground arith in
              rw (← first, here, revised-missing id f ss alone) ground
                (arith, same x, missing_scenario k ss)
        ]
    | inr other ↦
        let later : by_id id ss ≡ some s = ground arith in
        let rest = by_scenario-revised k id f s ss same (ground arith) (ground arith) later in
        let there = found-scenario id ss s later in
        rw other ground (arith, rest, there, nat_eq_iff x.scenario_id s.scenario_id)
  ]

  pub found-live :
      (id : ℕ) (ss : List (Script Data)) (s : Script Data)
      → by_id id ss ≡ some s
      → s.is_deleted ≡ false
  found-live id [] s e = cc
  found-live id (x ∷ ss) s e = ground (arith, found-live id ss s)

  -- The row that an id finds is the row of its scenario.
  found-own :
      (id : ℕ) (s : Script Data) (ss : List (Script Data))
      → distinct (scenarios ss) ≡ true
      → by_id id ss ≡ some s
      → by_scenario s.scenario_id ss ≡ some s
  found-own id s [] d e = cc
  found-own id s (x ∷ ss) d e = elim (Bool-cases ((x.id == id) && not x.is_deleted)) [
    | inl here ↦
        let first : x ≡ s = ground arith in
        rw (← first) ground (arith, nat_eq_iff x.scenario_id x.scenario_id)
    | inr other ↦
        let later : by_id id ss ≡ some s = ground arith in
        let there = found-scenario id ss s later in
        ground (
          arith,
          found-own id s ss (ground arith) later,
          there,
          nat_eq_iff x.scenario_id s.scenario_id,
        )
  ]

  -- What a scenario's calls use is not hidden by a version with a fresh id.
  active_of-more :
      (w : ScriptVersion Data) (vs : List (ScriptVersion Data)) (o : Option (Script Data))
      → elem w.id (version_ids vs) ≡ false
      → ((s : Script Data) → o ≡ some s → IsOwn vs s)
      → active_of o (w ∷ vs) ≡ active_of o vs
  active_of-more w vs none fresh own = refl
  active_of-more w vs (some s) fresh own = elim (Option-cases s.current_version_id) [
    | inl unset ↦ rw unset refl
    | inr (i, points) ↦
        let (v, known, same) = own s refl i points in
        rw points ground (arith, known, found-again i w v vs fresh known)
  ]

  found-IsOwn :
      (k : ℕ) (vs : List (ScriptVersion Data)) (ss : List (Script Data)) (s : Script Data)
      → All (IsOwn vs) ss
      → by_scenario k ss ≡ some s
      → IsOwn vs s
  found-IsOwn k vs [] s o e = cc
  found-IsOwn k vs (x ∷ ss) s (o, os) e =
      elim (Bool-cases ((x.scenario_id == k) && not x.is_deleted)) [
        | inl here ↦ let first : x ≡ s = ground arith in subst (IsOwn vs) first o
        | inr other ↦ found-IsOwn k vs ss s os (ground arith)
      ]

  -- After the publication of a script, the calls for its scenario use the new version, and those
  -- for any other scenario the version that they used before.
  pub publish-active :
      (c : Contract Data) (version id admin k : ℕ) (r t : Registry Data) (s : Script Data)
      (v : ScriptVersion Data)
      → IsConsistent r
      → elem version (version_ids r.versions) ≡ false
      → get_script id r ≡ some s
      → publish c version id admin r ≡ ok (v, t)
      → get_active_published_version k t
        ≡ (if s.scenario_id == k then some v else get_active_published_version k r)
  unfolding publish get_active_published_version
  publish-active c version id admin k r t s v h fresh found e =
      elim (Option-cases (c.validated s.format s.draft_content)) [
        | inl refused ↦ ground arith
        | inr (content, good) ↦
            let w = new_version c version admin id content r in
            let new : Registry Data = record (assign id (set_published version) r) {
              versions = w ∷ r.versions;
            } in
            let same : ◌≡◌ {A = ScriptVersion Data × Registry Data} (w, new) (v, t) =
              ground arith in
            let row =
              by_scenario-revised k id (set_published version) s r.scripts (λ x. refl) h.one_per_id
                h.one_per_scenario found in
            let live = found-live id r.scripts s found in
            let old =
              active_of-more w r.versions (by_scenario k r.scripts) fresh
                (λ x e. found-IsOwn k r.versions r.scripts x h.own e) in
            subst
              (λ (u : ScriptVersion Data × Registry Data).
                get_active_published_version k u.1
                ≡ (if s.scenario_id == k then some u.0 else get_active_published_version k r))
              same (rw row ground (arith, old, live))
      ]

  -- An edit of a draft leaves the versions that calls use as they are, for every scenario.
  pub update_draft-active :
      (c : Contract Data) (id k : ℕ) (raw format : String) (r t : Registry Data)
      → IsConsistent r
      → update_draft c id raw format r ≡ ok t
      → get_active_published_version k t ≡ get_active_published_version k r
  unfolding update_draft get_active_published_version
  update_draft-active c id k raw format r t h e = elim (Option-cases (get_script id r)) [
    | inl missing ↦ ground arith
    | inr (s, found) ↦ elim (Option-cases (c.parse format raw)) [
      | inl malformed ↦ ground arith
      | inr (content, parsed) ↦
          let same : assign id (set_draft format content) r ≡ t = ground arith in
          let row =
            by_scenario-revised k id (set_draft format content) s r.scripts (λ x. refl) h.one_per_id
              h.one_per_scenario found in
          let own = found-own id s r.scripts h.one_per_scenario found in
          let live = found-live id r.scripts s found in
          rw (← same, row) ground (arith, own, live, nat_eq_iff s.scenario_id k)
    ]
  ]

  -- Once a script is unpublished or deleted, the calls for its scenario have no version, and those
  -- for any other scenario the version that they had.
  pub withdrawn-active :
      (id k : ℕ) (r t : Registry Data) (s : Script Data)
      → IsConsistent r
      → get_script id r ≡ some s
      → (unpublish id r ≡ ok t) ⊎ (delete_script id r ≡ ok t)
      → get_active_published_version k t
        ≡ (if s.scenario_id == k then none else get_active_published_version k r)
  unfolding unpublish delete_script get_active_published_version
  withdrawn-active id k r t s h found (inl e) =
      let row =
        by_scenario-revised k id set_unpublished s r.scripts (λ x. refl) h.one_per_id
          h.one_per_scenario found in
      let same : assign id set_unpublished r ≡ t = ground arith in rw (← same) ground (arith, row)
  withdrawn-active id k r t s h found (inr e) =
      let row =
        by_scenario-revised k id set_deleted s r.scripts (λ x. refl) h.one_per_id h.one_per_scenario
          found in
      let same : assign id set_deleted r ≡ t = ground arith in rw (← same) ground (arith, row)
