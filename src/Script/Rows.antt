-- ===== src/Script/Rows.antt =====
-- What holds of the script rows between operations.
use cat_backend.Common.{
  ℕ, ◌<◌, ◌≡◌, refl, sym, ◌∙◌, true, false, not, ◌&&◌, List, [], ◌∷◌, map, some, if◌then◌else◌, All,
  Bool-cases, inl, inr, is_some,
}
use cat_backend.Common.Eq.{◌==◌, elem, distinct, ℕ-Eq, nat_eq_iff}
use cat_backend.Script.Registry.{
  Script, ScriptVersion, Registry, is_published, assign, max_version, find_version,
}

module _ {Data : Type 0} where
  abbrev pub scenarios : List (Script Data) → List ℕ
  scenarios = map (λ s. s.scenario_id)

  abbrev pub script_ids : List (Script Data) → List ℕ
  script_ids = map (λ s. s.id)

  abbrev pub version_ids : List (ScriptVersion Data) → List ℕ
  version_ids = map (λ v. v.id)

  -- The current version is one of the script's own.
  abbrev pub IsOwn : List (ScriptVersion Data) → Script Data → Type 0
  IsOwn vs s =
      (version : ℕ)
      → s.current_version_id ≡ some version
      → (v : ScriptVersion Data) × (find_version version vs ≡ some v) × (v.script_id ≡ s.id)

  -- A published script has a current version.
  abbrev pub IsServed : Script Data → Type 0
  IsServed s = (is_published s.status && not (is_some s.current_version_id)) ≡ false

  -- Version ids are used once, and a later version of a script has a higher number.
  abbrev pub IsNumbered : List (ScriptVersion Data) → Type 0
  IsNumbered [] = Unit
  IsNumbered (v ∷ vs) =
      (elem v.id (version_ids vs) ≡ false)
      × (max_version v.script_id vs < v.version_number)
      × IsNumbered vs

  pub record IsConsistent (r : Registry Data) : Type 0 where
    pub one_per_id : distinct (script_ids r.scripts) ≡ true
    pub one_per_scenario : distinct (scenarios r.scripts) ≡ true
    pub own : All (IsOwn r.versions) r.scripts
    pub served : All IsServed r.scripts
    pub numbered : IsNumbered r.versions

  -- An assignment that keeps a property of every row keeps it of the rows.
  pub All-assign :
      (P : Script Data → Type 0) (id : ℕ) (f : Script Data → Script Data)
      → ((s : Script Data) → s.id ≡ id → P s → P (f s))
      → (ss : List (Script Data)) → All P ss
      → All P (map (λ s. if s.id == id then f s else s) ss)
  All-assign P id f keeps [] ps = tt
  All-assign P id f keeps (s ∷ ss) (p, ps) = elim (Bool-cases (s.id == id)) [
    | inl same ↦ rw same (keeps s ((nat_eq_iff s.id id).0 same) p, All-assign P id f keeps ss ps)
    | inr other ↦ rw other (p, All-assign P id f keeps ss ps)
  ]

  pub scenarios-assign :
      (id : ℕ) (f : Script Data → Script Data)
      → ((s : Script Data) → (f s).scenario_id ≡ s.scenario_id)
      → (ss : List (Script Data))
      → scenarios (map (λ s. if s.id == id then f s else s) ss) ≡ scenarios ss
  scenarios-assign id f keeps [] = refl
  scenarios-assign id f keeps (s ∷ ss) = elim (Bool-cases (s.id == id)) [
    | inl same ↦ rw (same, keeps s, scenarios-assign id f keeps ss) refl
    | inr other ↦ rw (other, scenarios-assign id f keeps ss) refl
  ]

  pub ids-assign :
      (id : ℕ) (f : Script Data → Script Data)
      → ((s : Script Data) → (f s).id ≡ s.id)
      → (ss : List (Script Data))
      → script_ids (map (λ s. if s.id == id then f s else s) ss) ≡ script_ids ss
  ids-assign id f keeps [] = refl
  ids-assign id f keeps (s ∷ ss) = elim (Bool-cases (s.id == id)) [
    | inl same ↦ rw (same, keeps s, ids-assign id f keeps ss) refl
    | inr other ↦ rw (other, ids-assign id f keeps ss) refl
  ]

  -- Assignments that leave the key, the pointer and the versions alone.
  pub assign-IsConsistent :
      (id : ℕ) (f : Script Data → Script Data) (r : Registry Data)
      → ((s : Script Data) → (f s).scenario_id ≡ s.scenario_id)
      → ((s : Script Data) → (f s).id ≡ s.id)
      → ((s : Script Data) → (f s).current_version_id ≡ s.current_version_id)
      → ((s : Script Data) → IsServed s → IsServed (f s))
      → IsConsistent r
      → IsConsistent (assign id f r)
  assign-IsConsistent id f r same_scenario same_id same_version serves h = record {
    one_per_id = rw (ids-assign id f same_id r.scripts) h.one_per_id;
    one_per_scenario = rw (scenarios-assign id f same_scenario r.scripts) h.one_per_scenario;
    own =
        All-assign (IsOwn r.versions) id f
          (λ s e o version points. rw (same_id s) (o version (sym (same_version s) ∙ points)))
          r.scripts h.own;
    served = All-assign IsServed id f (λ s e. serves s) r.scripts h.served;
    numbered = h.numbered;
  }
