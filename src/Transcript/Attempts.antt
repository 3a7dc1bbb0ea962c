-- ===== src/Transcript/Attempts.antt =====
-- The runs of `retry_db_operation` of app/services/db_retry.py.
use cat_backend.Common.{
  ℕ, ◌+◌, ◌-◌, ◌≤◌, ◌<◌, zero, suc, ◌≡◌, refl, sym, ap, ◌∙◌, subst, List, [], ◌∷◌, ◌++◌, Option,
  some, length, drop, arith, ltb, true,
}
use cat_backend.Common.Eq.{Text-Eq}
use cat_backend.Common.Words.{Text}
use cat_backend.Transcript.Fallback.{owed, get-preserve}
use cat_backend.Transcript.Retry.{
  Attempt, Result, FallbackStore, Run, get, preserve, delay_at, attempts_from, retry_db_operation,
}

abbrev pub take : ℕ → List ℕ → List ℕ
take zero xs = []
take (suc n) [] = []
take (suc n) (x ∷ xs) = x ∷ take n xs

next_delay :
    (attempt : ℕ) (delays : List ℕ)
    → attempt < length delays
    → (d : ℕ) × (delay_at attempt delays ≡ some d)
      × (drop attempt delays ≡ d ∷ drop (suc attempt) delays)
next_delay attempt [] h = absurd (omega arith)
next_delay zero (d ∷ ds) h = (d, refl, refl)
next_delay (suc attempt) (d ∷ ds) h =
    let (w, found, rest) = next_delay attempt ds (omega arith) in (w, found, rest)

module _ {A D : Type 0} (operation : ℕ → Attempt A) (delays : List ℕ) (session : Option Text)
    (entry : Option D) where
  -- What a run shows: its result, its attempts, its sleeps and the fallback store.
  abbrev pub Shows : Run A D → Result A → ℕ → List ℕ → FallbackStore D → Type 0
  Shows run result attempts slept store =
      (run.result ≡ result) × (run.attempts ≡ attempts) × (run.slept ≡ slept) × (run.store ≡ store)

  recounted :
      (run : Run A D) (result : Result A) (n m count other : ℕ) (ds : List ℕ)
      (after : FallbackStore D)
      → n ≡ m
      → count ≡ other
      → Shows run result n (take count ds) after
      → Shows run result m (take other ds) after
  recounted run result n m count other ds after e f shown =
      (shown.0, shown.1 ∙ e, shown.2 ∙ ap (λ c. take c ds) f, shown.3)

  module _ (store : FallbackStore D) where
    abbrev from : ℕ → ℕ → Run A D
    from left attempt = attempts_from operation delays session entry left attempt store

    -- A failed attempt that is not the last one sleeps and goes on.
    goes_on :
        (left attempt count n : ℕ) (result : Result A) (after : FallbackStore D)
        → operation attempt ≡ Attempt.failed
        → 0 < left
        → attempt < length delays
        → Shows (from left (suc attempt)) result n (take count (drop (suc attempt) delays)) after
        → Shows (from (suc left) attempt) result n (take (suc count) (drop attempt delays)) after
    unfolding attempts_from
    goes_on left attempt count n result after f more h shown =
        let (d, found, rest) = next_delay attempt delays h in
        let again = from left (suc attempt) in
        let test : ltb 0 left ≡ true = ground arith in
        let same : from (suc left) attempt ≡ record again { slept = d ∷ again.slept } =
          rw (attempts_from, f, test, found) refl in
        subst (λ run. Shows run result n (take (suc count) (drop attempt delays)) after) (sym same)
          (shown.0, shown.1, rw rest (ap (λ ds. d ∷ ds) shown.2), shown.3)

    returns_from :
        (j left attempt : ℕ) (a : A)
        → ((i : ℕ) → i < j → operation (attempt + i) ≡ Attempt.failed)
        → operation (attempt + j) ≡ Attempt.returned a
        → j < left
        → attempt + left ≤ suc (length delays)
        → Shows
            (from left attempt)
            (Result.value a)
            (attempt + j + 1)
            (take j (drop attempt delays))
            store
    unfolding attempts_from
    returns_from j zero attempt a f r h d = absurd (omega arith)
    returns_from zero (suc left) attempt a f r h d =
        let here : attempt + 0 ≡ attempt = omega arith in
        let now : operation attempt ≡ Attempt.returned a = rw here at r in
        rw (attempts_from, now) (refl, omega arith, refl, refl)
    returns_from (suc j) (suc left) attempt a f r h d =
        let here : attempt + 0 ≡ attempt = omega arith in
        let now : operation attempt ≡ Attempt.failed = rw here at (f 0 (omega arith)) in
        let shifted : (i : ℕ) → operation (suc attempt + i) ≡ operation (attempt + suc i) =
          λ i. ap operation (omega arith) in
        goes_on left attempt j (attempt + suc j + 1) (Result.value a) store now (omega arith)
          (omega arith)
          (recounted _ _ _ _ _ _ _ _ (omega arith) refl (
            returns_from j left (suc attempt) a (λ i small. shifted i ∙ f (suc i) (omega arith))
              (shifted j ∙ r) (omega arith) (omega arith)))

    exhausts_from :
        (left attempt : ℕ)
        → ((i : ℕ) → i < left → operation (attempt + i) ≡ Attempt.failed)
        → attempt + left ≤ suc (length delays)
        → Shows
            (from left attempt)
            Result.persistence_error
            (attempt + left)
            (take (left - 1) (drop attempt delays))
            (preserve session entry store)
    unfolding attempts_from
    exhausts_from zero attempt f d = (refl, omega arith, refl, refl)
    exhausts_from (suc zero) attempt f d =
        let here : attempt + 0 ≡ attempt = omega arith in
        let now : operation attempt ≡ Attempt.failed = rw here at (f 0 (omega arith)) in
        rw (attempts_from, now) (refl, omega arith, refl, refl)
    exhausts_from (suc (suc left)) attempt f d =
        let here : attempt + 0 ≡ attempt = omega arith in
        let now : operation attempt ≡ Attempt.failed = rw here at (f 0 (omega arith)) in
        let shifted : (i : ℕ) → operation (suc attempt + i) ≡ operation (attempt + suc i) =
          λ i. ap operation (omega arith) in
        recounted _ _ _ _ (suc left) _ _ _ refl (omega arith) (
          goes_on (suc left) attempt left (attempt + suc (suc left)) Result.persistence_error
            (preserve session entry store) now (omega arith) (omega arith)
            (recounted _ _ _ _ _ _ _ _ (omega arith) (omega arith) (
              exhausts_from (suc left) (suc attempt)
                (λ i small. shifted i ∙ f (suc i) (omega arith)) (omega arith))))

    -- With delays for all but the last attempt: when attempt `k` is the first to return, its value is
    -- the result, after `k` sleeps of the first delays and with the fallback store as it was.
    pub retry_returns :
        (retries k : ℕ) (a : A)
        → ((i : ℕ) → i < k → operation i ≡ Attempt.failed)
        → operation k ≡ Attempt.returned a
        → k < retries
        → retries ≤ suc (length delays)
        → Shows
            (retry_db_operation operation delays session entry retries store)
            (Result.value a)
            (k + 1)
            (take k delays)
            store
    retry_returns retries k a f r h d = recounted _ _ _ _ _ _ _ _ (omega arith) refl (
        returns_from k retries 0 a (λ i small. ap operation (omega arith) ∙ f i small)
          (ap operation (omega arith) ∙ r) h (omega arith))

    -- With delays for all but the last attempt: when every attempt fails, there were as many as
    -- allowed and a sleep between each two, and the fallback store has for each session what it had,
    -- followed by the data, if there is any and this is the session of the call, named by a non-empty
    -- text.
    pub retry_exhausted :
        (retries : ℕ) (key : Text)
        → ((i : ℕ) → i < retries → operation i ≡ Attempt.failed)
        → retries ≤ suc (length delays)
        → ((retry_db_operation operation delays session entry retries store).result
            ≡ Result.persistence_error)
          × ((retry_db_operation operation delays session entry retries store).attempts ≡ retries)
          × ((retry_db_operation operation delays session entry retries store).slept
              ≡ take (retries - 1) delays)
          × (get key (retry_db_operation operation delays session entry retries store).store
              ≡ get key store ++ owed session entry key)
    retry_exhausted retries key f d =
        let shown = recounted _ _ _ _ _ _ _ _ (omega arith) refl (
          exhausts_from retries 0 (λ i small. ap operation (omega arith) ∙ f i small)
            (omega arith)) in
        (shown.0, shown.1, shown.2, ap (get key) shown.3 ∙ get-preserve session key entry store)
