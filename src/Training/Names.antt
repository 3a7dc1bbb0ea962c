-- ===== src/Training/Names.antt =====
-- The names and dates that app/services/campaign_service.py keeps in order.
use cat_backend.Common.{
  ℕ, String, ◌≡◌, refl, ◌∙◌, ap, sym, subst, Bool, true, false, not, ◌&&◌, List, [], ◌∷◌, map, some,
  any, inl, inr, Bool-cases, arith, all, Member, Member-map,
}
use cat_backend.Common.Eq.{
  ◌==◌, elem, distinct, ℕ-Eq, String-Eq, nat_eq_iff, beq_comm, Member→elem, beq_self,
}
use cat_backend.Session.Campaigns.{Campaign}
use cat_backend.Training.Rows.{is_archived}
use cat_backend.Training.Service.{assign, find}

abbrev pub ids : List Campaign → List ℕ
ids = map (λ c. c.id)

abbrev pub names : List Campaign → List String
names = map (λ c. c.name)

-- No other campaign has the name.
abbrev pub is_free : String → ℕ → List Campaign → Bool
is_free name id cs = not (any (λ c. (c.name == name) && not (c.id == id)) cs)

pub ids-assign :
    (id : ℕ) (f : Campaign → Campaign)
    → ((c : Campaign) → (f c).id ≡ c.id)
    → (cs : List Campaign) → ids (assign id f cs) ≡ ids cs
ids-assign id f same [] = refl
ids-assign id f same (c ∷ cs) = elim (Bool-cases (c.id == id)) [
  | inl here ↦ rw (here, same c) (ap (λ r. c.id ∷ r) (ids-assign id f same cs))
  | inr other ↦ rw other (ap (λ r. c.id ∷ r) (ids-assign id f same cs))
]

pub ids-replaced :
    (id : ℕ) (new : Campaign)
    → new.id ≡ id
    → (cs : List Campaign) → ids (assign id (λ old. new) cs) ≡ ids cs
ids-replaced id new named [] = refl
ids-replaced id new named (c ∷ cs) = elim (Bool-cases (c.id == id)) [
  | inl here ↦
      let same = named ∙ sym ((nat_eq_iff c.id id).0 here) in
      rw (here, same) (ap (λ r. c.id ∷ r) (ids-replaced id new named cs))
  | inr other ↦ rw other (ap (λ r. c.id ∷ r) (ids-replaced id new named cs))
]

assign-unused :
    (id : ℕ) (f : Campaign → Campaign) (cs : List Campaign)
    → elem id (ids cs) ≡ false
    → assign id f cs ≡ cs
assign-unused id f [] h = refl
assign-unused id f (c ∷ cs) h = elim (Bool-cases (c.id == id)) [
  | inl here ↦ absurd (cc (rw here at h))
  | inr other ↦ rw other (ap (λ r. c ∷ r) (assign-unused id f cs (rw other at h)))
]

free-unlisted :
    (name : String) (id : ℕ) (cs : List Campaign)
    → is_free name id cs ≡ true
    → elem id (ids cs) ≡ false
    → elem name (names cs) ≡ false
free-unlisted name id [] h u = refl
free-unlisted name id (c ∷ cs) h u =
    let rest = free-unlisted name id cs (ground arith) (ground arith) in
    elim (Bool-cases (c.id == id)) [
      | inl here ↦ absurd (cc (rw here at u))
      | inr other ↦ elim (Bool-cases (c.name == name)) [
        | inl same ↦ absurd (cc (rw (other, same) at h))
        | inr fresh ↦ rw fresh rest
      ]
    ]

-- A name that is not the new one and not used is still not used.
elem-assign :
    (k : String) (id : ℕ) (new : Campaign) (cs : List Campaign)
    → (new.name == k) ≡ false
    → elem k (names cs) ≡ false
    → elem k (names (assign id (λ old. new) cs)) ≡ false
elem-assign k id new [] n h = refl
elem-assign k id new (c ∷ cs) n h =
    let rest = elem-assign k id new cs n (ground arith) in
    elim (Bool-cases (c.id == id)) [
      | inl here ↦ rw (here, n) rest
      | inr other ↦ elim (Bool-cases (c.name == k)) [
        | inl same ↦ absurd (cc (rw same at h))
        | inr fresh ↦ rw (other, fresh) rest
      ]
    ]

pub names-assign :
    (id : ℕ) (new : Campaign) (cs : List Campaign)
    → distinct (ids cs) ≡ true
    → distinct (names cs) ≡ true
    → is_free new.name id cs ≡ true
    → distinct (names (assign id (λ old. new) cs)) ≡ true
names-assign id new [] d n f = refl
names-assign id new (c ∷ cs) d n f = elim (Bool-cases (c.id == id)) [
  | inl here ↦
      let unused : elem id (ids cs) ≡ false =
        ap (λ i. elem i (ids cs)) (sym ((nat_eq_iff c.id id).0 here)) ∙ ground arith in
      let unlisted = free-unlisted new.name id cs (ground arith) unused in
      rw (here, assign-unused id (λ old. new) cs unused, unlisted) (ground arith)
  | inr other ↦
      let rest = names-assign id new cs (ground arith) (ground arith) (ground arith) in
      elim (Bool-cases (c.name == new.name)) [
        | inl same ↦ absurd (cc (rw (other, same) at f))
        | inr fresh ↦
            let kept =
              elem-assign c.name id new cs (beq_comm new.name c.name ∙ fresh) (ground arith) in
            rw (other, kept) rest
      ]
]

pub all-assign :
    (p : Campaign → Bool) (id : ℕ) (f : Campaign → Campaign)
    → ((c : Campaign) → p c ≡ true → p (f c) ≡ true)
    → (cs : List Campaign) → all p cs ≡ true
    → all p (assign id f cs) ≡ true
all-assign p id f keeps [] h = refl
all-assign p id f keeps (c ∷ cs) h =
    let rest = all-assign p id f keeps cs (ground arith) in
    let here : p c ≡ true = ground arith in
    elim (Bool-cases (c.id == id)) [
      | inl changed ↦ rw (changed, keeps c here) rest
      | inr other ↦ rw (other, here) rest
    ]

-- What a lookup that succeeded found.
pub find-ok :
    (id : ℕ) (cs : List Campaign) (c : Campaign) → find id cs ≡ some c → Member c cs × (c.id ≡ id)
find-ok id [] c h = cc
find-ok id (x ∷ cs) c h = elim (Bool-cases ((x.id == id) && not (is_archived x.status))) [
  | inl here ↦
      let same : x ≡ c = cc (rw here at h) in
      let matches : (x.id == id) ≡ true = ground (arith, here) in
      (inl same, ap (λ y. y.id) (sym same) ∙ (nat_eq_iff x.id id).0 matches)
  | inr other ↦ let (later, named) = find-ok id cs c (rw other at h) in (inr later, named)
]

ids-Member :
    (cs : List Campaign) (c : Campaign) (id : ℕ) → Member c cs → c.id ≡ id → elem id (ids cs) ≡ true
ids-Member cs c id m named =
    subst (λ i. elem i (ids cs) ≡ true) named
      (Member→elem c.id (ids cs) (Member-map (λ y. y.id) c cs m))

alone :
    (id : ℕ) (x : Campaign) (cs : List Campaign)
    → distinct (ids (x ∷ cs)) ≡ true
    → (x.id == id) ≡ true
    → elem id (ids cs) ≡ false
alone id x cs d same = ap (λ i. elem i (ids cs)) (sym ((nat_eq_iff x.id id).0 same)) ∙ ground arith

-- What is found under an id is not archived, nor is any other row of the id.
pub find-unarchived :
    (id : ℕ) (cs : List Campaign) (c a : Campaign)
    → distinct (ids cs) ≡ true
    → find id cs ≡ some c
    → Member a cs
    → is_archived a.status ≡ true
    → (a.id == id) ≡ false
find-unarchived id [] c a d h m r = absurd m
find-unarchived id (x ∷ cs) c a d h (inl here) r =
    let archived : is_archived x.status ≡ true = ap (λ y. is_archived y.status) here ∙ r in
    elim (Bool-cases (x.id == id)) [
      | inl same ↦
          let later = find-ok id cs c (rw (same, archived) at h) in
          absurd (cc (ids-Member cs c id later.0 later.1, alone id x cs d same))
      | inr other ↦ ap (λ y. y.id == id) (sym here) ∙ other
    ]
find-unarchived id (x ∷ cs) c a d h (inr later) r = elim (Bool-cases (a.id == id)) [
  | inr other ↦ other
  | inl same ↦ elim (Bool-cases (x.id == id)) [
    | inl twice ↦
        absurd (cc (ids-Member cs a id later ((nat_eq_iff a.id id).0 same), alone id x cs d twice))
    | inr other ↦ find-unarchived id cs c a (ground arith) (rw other at h) later r
  ]
]

pub any-unlisted :
    (name : String) (id : ℕ) (cs : List Campaign)
    → elem name (names cs) ≡ false
    → is_free name id cs ≡ true
any-unlisted name id [] h = refl
any-unlisted name id (c ∷ cs) h =
    let rest = any-unlisted name id cs (ground arith) in
    elim (Bool-cases (c.name == name)) [
      | inl same ↦ absurd (cc (rw same at h))
      | inr other ↦ rw other rest
    ]

-- The name of a campaign is free for it.
pub own-free :
    (id : ℕ) (cs : List Campaign) (c : Campaign)
    → distinct (names cs) ≡ true
    → find id cs ≡ some c
    → is_free c.name id cs ≡ true
own-free id [] c n h = refl
own-free id (x ∷ cs) c n h = elim (Bool-cases ((x.id == id) && not (is_archived x.status))) [
  | inl here ↦
      let same : x ≡ c = cc (rw here at h) in
      let matches : (x.id == id) ≡ true = ground (arith, here) in
      let rest = any-unlisted x.name id cs (ground arith) in
      subst (λ y. is_free y.name id (x ∷ cs) ≡ true) same (rw (beq_self x.name, matches) rest)
  | inr other ↦
      let found : find id cs ≡ some c = rw other at h in
      let rest = own-free id cs c (ground arith) found in
      let unused : elem x.name (names cs) ≡ false = ground arith in
      let listed =
        Member→elem c.name (names cs) (Member-map (λ y. y.name) c cs (find-ok id cs c found).0) in
      elim (Bool-cases (x.name == c.name)) [
        | inl same ↦ absurd (
            cc (
              listed,
              ap (λ k. elem k (names cs)) (sym ((String-Eq.agrees_iff x.name c.name).0 same))
                  ∙ unused,
            ))
        | inr fresh ↦ rw fresh rest
      ]
]
