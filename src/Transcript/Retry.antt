-- ===== src/Transcript/Retry.antt =====
-- app/services/db_retry.py. An attempt of the operation is the parameter `operation`; delays are in
-- seconds. A run records the attempts that it made and how long it slept.
use cat_backend.Common.{
  ℕ, zero, suc, Bool, not, List, [], ◌∷◌, ◌++◌, map, Option, none, some, is_empty, ltb,
  if◌then◌else◌, filter,
}
use cat_backend.Common.Eq.{◌==◌, Text-Eq}
use cat_backend.Common.Words.{Text}

-- `failed` is a SQLAlchemyError or an OSError, `raised` any other exception.
pub data Attempt (A : Type 0) : Type 0 where
  returned : A → Attempt A
  failed : Attempt A
  raised : Attempt A

-- `index_error` is a delay that is missing.
pub data Result (A : Type 0) : Type 0 where
  value : A → Result A
  persistence_error : Result A
  propagated : Result A
  index_error : Result A

-- `InMemoryFallbackStore`, in the order in which the keys came.
abbrev pub FallbackStore : Type 0 → Type 0
FallbackStore D = List (Text × List D)

module _ {D : Type 0} where
  unfoldable pub save : Text → D → FallbackStore D → FallbackStore D
  save session entry [] = (session, entry ∷ []) ∷ []
  save session entry ((s, entries) ∷ store) =
      let rest = save session entry store in
      if s == session then (s, entries ++ (entry ∷ [])) ∷ store else (s, entries) ∷ rest

  unfoldable pub get : Text → FallbackStore D → List D
  get session [] = []
  get session ((s, entries) ∷ store) = if s == session then entries else get session store

  abbrev pub has_data : Text → FallbackStore D → Bool
  has_data session store = not (is_empty (get session store))

  unfoldable pub clear : Text → FallbackStore D → FallbackStore D
  clear session store = filter (λ p. not (p.0 == session)) store

  abbrev pub all_sessions : FallbackStore D → List Text
  all_sessions store = map (λ p. p.0) store

  -- What is kept when every attempt has failed: `if session_id and data is not None`.
  abbrev pub preserve : Option Text → Option D → FallbackStore D → FallbackStore D
  preserve none entry store = store
  preserve (some session) none store = store
  preserve (some session) (some entry) store =
      if not (is_empty session) then save session entry store else store

abbrev pub max_retries : ℕ
max_retries = 3

abbrev pub backoff_delays : List ℕ
backoff_delays = 1 ∷ 2 ∷ 4 ∷ []

pub record Run (A D : Type 0) : Type 0 where
  pub result : Result A
  pub attempts : ℕ
  pub slept : List ℕ
  pub store : FallbackStore D

-- `backoff_delays[attempt]`
abbrev pub delay_at : ℕ → List ℕ → Option ℕ
delay_at attempt [] = none
delay_at zero (d ∷ ds) = some d
delay_at (suc attempt) (d ∷ ds) = delay_at attempt ds

module _ {A D : Type 0} where
  abbrev ended : Result A → ℕ → FallbackStore D → Run A D
  ended result attempts store = record {
    result = result;
    attempts = attempts;
    slept = [];
    store = store;
  }

  module _ (operation : ℕ → Attempt A) (delays : List ℕ) (session : Option Text)
      (entry : Option D) where
    -- `left` attempts are to come after `attempt`.
    unfoldable pub attempts_from : ℕ → ℕ → FallbackStore D → Run A D
    attempts_from zero attempt store =
        ended persistence_error attempt (preserve session entry store)
    attempts_from (suc left) attempt store =
        let again = attempts_from left (suc attempt) store in
        elim (operation attempt) [
          | returned a ↦ ended (value a) (suc attempt) store
          | raised ↦ ended propagated (suc attempt) store
          | failed ↦
              if ltb 0 left
              then (elim (delay_at attempt delays) [
                | none ↦ ended index_error (suc attempt) store
                | some d ↦ record again { slept = d ∷ again.slept }
              ])
              else again
        ]

    abbrev pub retry_db_operation : ℕ → FallbackStore D → Run A D
    retry_db_operation retries store = attempts_from retries 0 store
