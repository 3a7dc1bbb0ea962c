-- ===== src/Transcript/Fallback.antt =====
-- What `InMemoryFallbackStore` of app/services/db_retry.py has of each session.
use cat_backend.Common.{
  ◌≡◌, refl, sym, ap, ◌∙◌, List, [], ◌∷◌, ◌++◌, Option, none, some, false, not, ◌&&◌, is_empty,
  if◌then◌else◌, inl, inr, Bool-cases,
}
use mathlib.Core.List.{append-nil}
use cat_backend.Common.Eq.{◌==◌, Text-Eq, beq_comm}
use cat_backend.Common.Words.{Text}
use cat_backend.Transcript.Retry.{FallbackStore, get, save, preserve}

-- What an exhausted run owes a session: the data, if there is any and the session is named.
abbrev pub owed {ℓ} : {D : Type ℓ} → Option Text → Option D → Text → List D
owed (some session) (some entry) key =
    if (session == key) && not (is_empty session) then entry ∷ [] else []
owed (some session) none key = []
owed none entry key = []

get-save :
    {D : Type 0} (session key : Text) (entry : D) (store : FallbackStore D)
    → get key (save session entry store)
      ≡ get key store ++ (if session == key then entry ∷ [] else [])
unfolding get save
get-save session key entry [] = elim (Bool-cases (session == key)) [
  | inl same ↦ rw same refl
  | inr other ↦ rw other refl
]
get-save session key entry ((s, entries) ∷ store) = elim (Bool-cases (s == session)) [
  | inl here ↦
      let alike : (session == key) ≡ (s == key) =
        ap (λ k. k == key) (sym ((Text-Eq.agrees_iff s session).0 here)) in
      elim (Bool-cases (s == key)) [
        | inl same ↦ rw (here, alike, same) refl
        | inr other ↦ rw (here, alike, other) (sym (append-nil _))
      ]
  | inr there ↦ elim (Bool-cases (s == key)) [
    | inl same ↦
        let apart : (session == key) ≡ false =
          beq_comm session key
          ∙ ap (λ k. k == session) (sym ((Text-Eq.agrees_iff s key).0 same))
          ∙ there in
        rw (there, same, apart) (sym (append-nil _))
    | inr other ↦ rw (there, other) (get-save session key entry store)
  ]
]

pub get-preserve :
    {D : Type 0} (session : Option Text) (key : Text) (entry : Option D) (store : FallbackStore D)
    → get key (preserve session entry store) ≡ get key store ++ owed session entry key
get-preserve none key entry store = sym (append-nil _)
get-preserve (some session) key none store = sym (append-nil _)
get-preserve (some session) key (some entry) store = elim (Bool-cases (is_empty session)) [
  | inl unnamed ↦ elim (Bool-cases (session == key)) [
    | inl same ↦ rw (unnamed, same) (sym (append-nil _))
    | inr other ↦ rw (unnamed, other) (sym (append-nil _))
  ]
  | inr named ↦ elim (Bool-cases (session == key)) [
    | inl same ↦ rw (named, same) (get-save session key entry store ∙ rw same refl)
    | inr other ↦ rw (named, other) (get-save session key entry store ∙ rw other refl)
  ]
]
