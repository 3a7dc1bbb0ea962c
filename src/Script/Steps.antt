-- ===== src/Script/Steps.antt =====
-- Sequences of operations on the script rows.
use cat_backend.Common.{ℕ, ◌≡◌, String, false}
use cat_backend.Common.Eq.{elem, ℕ-Eq}
use cat_backend.Script.Registry.{
  Script, ScriptVersion, Registry, Contract, ok, create_draft, update_draft, publish, unpublish,
  delete_script,
}
use cat_backend.Script.Rows.{script_ids, version_ids, IsConsistent}
use cat_backend.Script.Kept.{
  create_draft-IsConsistent, publish-IsConsistent, update_draft-IsConsistent,
  unpublish-IsConsistent, delete_script-IsConsistent,
}

module _ {Data : Type 0} (c : Contract Data) where
  -- One successful operation; new rows have fresh ids.
  pub data Step : Registry Data → Registry Data → Type 0 where
    creating :
        {r t : Registry Data} {s : Script Data} (id admin : ℕ) (name : String) (scenario : ℕ)
        (format raw : String)
        → elem id (script_ids r.scripts) ≡ false
        → create_draft c id admin name scenario format raw r ≡ ok (s, t)
        → Step r t
    updating :
        {r t : Registry Data} (id : ℕ) (raw format : String)
        → update_draft c id raw format r ≡ ok t
        → Step r t
    publishing :
        {r t : Registry Data} {v : ScriptVersion Data} (version id admin : ℕ)
        → elem version (version_ids r.versions) ≡ false
        → publish c version id admin r ≡ ok (v, t)
        → Step r t
    unpublishing : {r t : Registry Data} (id : ℕ) → unpublish id r ≡ ok t → Step r t
    deleting : {r t : Registry Data} (id : ℕ) → delete_script id r ≡ ok t → Step r t

  pub data Reach : Registry Data → Registry Data → Type 0 where
    stay : {r : Registry Data} → Reach r r
    then_step : {r t u : Registry Data} → Reach r t → Step t u → Reach r u

  Step-IsConsistent : {r t : Registry Data} → Step r t → IsConsistent r → IsConsistent t
  Step-IsConsistent (creating {r} {t} {s} id admin name scenario format raw fresh e) h =
      create_draft-IsConsistent c id admin name scenario format raw r t s h fresh e
  Step-IsConsistent (updating {r} {t} id raw format e) h =
      update_draft-IsConsistent c id raw format r t h e
  Step-IsConsistent (publishing {r} {t} {v} version id admin fresh e) h =
      publish-IsConsistent c version id admin r t v h fresh e
  Step-IsConsistent (unpublishing {r} {t} id e) h = unpublish-IsConsistent id r t h e
  Step-IsConsistent (deleting {r} {t} id e) h = delete_script-IsConsistent id r t h e

  -- From consistent rows, every sequence of operations leads to consistent rows: one script for a
  -- scenario, each current version one of the script's own, a current version for every published
  -- script, and version ids used once, with numbers that grow for each script.
  pub Reach-IsConsistent : {r t : Registry Data} → Reach r t → IsConsistent r → IsConsistent t
  Reach-IsConsistent stay h = h
  Reach-IsConsistent (then_step r x) h = Step-IsConsistent x (Reach-IsConsistent r h)
