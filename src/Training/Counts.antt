-- ===== src/Training/Counts.antt =====
-- What counting rows tells of a list of ids: the checks of `_validate_scenario_ids` and
-- `_validate_agent_ids` of app/services/campaign_service.py.
use cat_backend.Common.{
  ℕ, ◌+◌, ◌≤◌, ◌≡◌, ◌↔◌, refl, sym, ◌∙◌, ap, Bool, true, false, ◌&&◌, List, [], ◌∷◌, map, All, any,
  length, inl, inr, Bool-cases, arith,
}
use cat_backend.Common.Eq.{◌==◌, elem, distinct, ℕ-Eq, nat_eq_iff, beq_comm}
use cat_backend.Training.Rows.{count}

module _ {A : Type 0} (id_of : A → ℕ) (accepts : A → Bool) where
  -- Some accepted row has the id.
  abbrev pub valid : List A → ℕ → Bool
  valid rows id = any (λ r. (id_of r == id) && accepts r) rows

  count-repeated :
      (x : ℕ) (ids : List ℕ) (rows : List A)
      → elem x ids ≡ true
      → count id_of accepts (x ∷ ids) rows ≡ count id_of accepts ids rows
  count-repeated x ids [] h = refl
  count-repeated x ids (r ∷ rows) h =
      let rest = count-repeated x ids rows h in
      elim (Bool-cases (x == id_of r)) [
        | inl same ↦
            let found : elem (id_of r) ids ≡ true =
              ap (λ i. elem i ids) (sym ((nat_eq_iff x (id_of r)).0 same)) ∙ h in
            ground (arith, same, found, rest)
        | inr other ↦ ground (arith, other, rest)
      ]

  count-absent :
      (x : ℕ) (ids : List ℕ) (rows : List A)
      → elem x (map id_of rows) ≡ false
      → (count id_of accepts (x ∷ ids) rows ≡ count id_of accepts ids rows) × (valid rows x ≡ false)
  count-absent x ids [] h = (refl, refl)
  count-absent x ids (r ∷ rows) h =
      let flip = beq_comm x (id_of r) in
      elim (Bool-cases (id_of r == x)) [
        | inl same ↦ absurd (cc (rw same at h))
        | inr other ↦
            let rest = count-absent x ids rows (rw other at h) in
            (ground (arith, other, flip, rest.0), ground (arith, other, rest.1))
      ]

  abbrev one : Bool → ℕ
  one true = 1
  one false = 0

  count-new :
      (x : ℕ) (ids : List ℕ) (rows : List A)
      → elem x ids ≡ false
      → distinct (map id_of rows) ≡ true
      → count id_of accepts (x ∷ ids) rows ≡ one (valid rows x) + count id_of accepts ids rows
  count-new x ids [] h d = refl
  count-new x ids (r ∷ rows) h d =
      let flip = beq_comm x (id_of r) in
      elim (Bool-cases (id_of r == x)) [
        | inl same ↦
            let here = (nat_eq_iff (id_of r) x).0 same in
            let unlisted : elem (id_of r) ids ≡ false = ap (λ i. elem i ids) here ∙ h in
            let alone : elem x (map id_of rows) ≡ false =
              ap (λ i. elem i (map id_of rows)) (sym here) ∙ ground arith in
            let (kept, none_left) = count-absent x ids rows alone in
            ground (arith, same, flip, unlisted, kept, none_left)
        | inr other ↦
            let rest = count-new x ids rows h (ground arith) in ground (arith, other, flip, rest)
      ]

  count-le :
      (ids : List ℕ) (rows : List A)
      → distinct (map id_of rows) ≡ true
      → count id_of accepts ids rows ≤ length ids
  count-le [] [] d = omega arith
  count-le [] (r ∷ rows) d = count-le [] rows (ground arith)
  count-le (x ∷ ids) rows d =
      let rest = count-le ids rows d in
      elim (Bool-cases (elem x ids)) [
        | inl listed ↦ omega (arith, count-repeated x ids rows listed, rest)
        | inr new ↦ let counted = count-new x ids rows new d in ground (arith, counted, rest)
      ]

  -- As many rows are counted as there are ids exactly when no id is listed twice and each is the id
  -- of an accepted row.
  pub count_iff :
      (ids : List ℕ) (rows : List A)
      → distinct (map id_of rows) ≡ true
      → (count id_of accepts ids rows ≡ length ids)
        ↔ ((distinct ids ≡ true) × All (λ i. valid rows i ≡ true) ids)
  count_iff [] rows d = (λ h. (refl, tt), λ h. omega (arith, count-le [] rows d))
  count_iff (x ∷ ids) rows d =
      let limit = count-le ids rows d in
      let rest = count_iff ids rows d in
      elim (Bool-cases (elem x ids)) [
        | inl listed ↦
            let same = count-repeated x ids rows listed in
            (
              λ h. absurd (ground (arith, h, same, limit)),
              λ (once, h). absurd (cc (rw listed at once)),
            )
        | inr new ↦
            let counted = count-new x ids rows new d in
            elim (Bool-cases (valid rows x)) [
              | inl known ↦
                  let more = rw known at counted in
                  (
                    λ h.
                        let (once, all_known) = rest.0 (omega (arith, h, more)) in
                        (rw new once, (known, all_known)),
                    λ (once, (k, h)). omega (arith, more, rest.1 (rw new at once, h)),
                  )
              | inr unknown ↦
                  let less = rw unknown at counted in
                  (
                    λ h. absurd (omega (arith, h, less, limit)),
                    λ (once, (k, h)). absurd (cc (rw unknown at k)),
                  )
            ]
      ]
