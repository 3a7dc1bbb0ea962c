-- ===== src/Common/Dict.antt =====
-- A Python dict built from a list of pairs: a later pair with the same key replaces an earlier one.
use mathlib.Core.Path.{◌≡◌, refl}
use mathlib.Core.Option.{Option, none, some}
use mathlib.Core.List.{List, [], ◌∷◌, map}
use native.Mathlib.Omega.{arith}
use cat_backend.Common.Tests.{if◌then◌else◌, is_some}
use cat_backend.Common.Eq.{◌==◌, Comparable, elem}

module _ {K : Type 0} ⦃e : Comparable K⦄ {V : Type 0} where
  -- `{k: v for ...}.get(key)`
  abbrev pub lookup : K → List (K × V) → Option V
  lookup key [] = none
  lookup key ((k, v) ∷ d) = elim (lookup key d) [
    | some w ↦ some w
    | none ↦ if k == key then some v else none
  ]

  -- A key has a value exactly when a pair has the key.
  pub lookup-elem :
      (key : K) (d : List (K × V)) → is_some (lookup key d) ≡ elem key (map (λ p. p.0) d)
  lookup-elem key [] = refl
  lookup-elem key ((k, v) ∷ d) = ground (arith, lookup-elem key d)
