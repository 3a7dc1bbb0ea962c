-- ===== src/Limits/Sliding.antt =====
-- The sliding window of app/services/rate_limiter.py against the requests that it let through.
use cat_backend.Common.{
  ℕ, ◌+◌, ◌≤◌, ◌<◌, ◌≡◌, refl, sym, ap, ◌∙◌, Bool, false, ◌&&◌, List, [], ◌∷◌, ◌++◌, if◌then◌else◌,
  ltb, leb, length, length-append, filter, length-filter-le, arith, inl, inr, Bool-cases, is_empty,
  is_empty→nil,
}
use cat_backend.Common.Eq.{◌==◌, Text-Eq, beq_self}
use cat_backend.Common.Words.{Text}
use cat_backend.Limits.Requests.{Windows, is_recent, is_rate_limited, cleanup, latest}

filter-append : (p : ℕ → Bool) (xs ys : List ℕ) → filter p (xs ++ ys) ≡ filter p xs ++ filter p ys
filter-append p [] ys = refl
filter-append p (x ∷ xs) ys = ground (arith, filter-append p xs ys)

module _ (window : ℕ) where
  -- What is recent later was recent before.
  recent-recent :
      (now later : ℕ) (ts : List ℕ)
      → now ≤ later
      → filter (is_recent window later) (filter (is_recent window now) ts)
        ≡ filter (is_recent window later) ts
  recent-recent now later [] h = refl
  recent-recent now later (t ∷ ts) h = ground (arith, recent-recent now later ts h)

  fewer-recent :
      (now later : ℕ) (ts : List ℕ)
      → now ≤ later
      → length (filter (is_recent window later) ts) ≤ length (filter (is_recent window now) ts)
  fewer-recent now later [] h = omega arith
  fewer-recent now later (t ∷ ts) h = ground (arith, fewer-recent now later ts h)

  -- The requests among `ts` in the window that ends at `t`.
  abbrev pub within : ℕ → List ℕ → ℕ
  within t ts = length (filter (λ x. is_recent window t x && leb x t) ts)

  within-le : (t : ℕ) (ts : List ℕ) → within t ts ≤ length (filter (is_recent window t) ts)
  within-le t [] = omega arith
  within-le t (x ∷ ts) = ground (arith, within-le t ts)

  unheld :
      (m now : ℕ) (ts : List ℕ)
      → window ≤ 3600
      → now ≤ m
      → latest ts + 3600 < now
      → filter (is_recent window m) ts ≡ []
  unheld m now [] w h old = refl
  unheld m now (t ∷ ts) w h old = ground (arith, unheld m now ts w h)

  module _ (key : Text) (max : ℕ) where
    -- The history of a key: the time of the last step, the requests let through, and the store. Other
    -- keys are asked for in between, and stale entries cleaned up.
    pub data Run : ℕ → List ℕ → Windows → Type 0 where
      started : Run 0 [] (λ k. [])
      asked :
          (now : ℕ) {last : ℕ} {past : List ℕ} {store : Windows}
          → Run last past store
          → last ≤ now
          → Run now
              (if (is_rate_limited now key max window store).0 then past else past ++ (now ∷ []))
              (is_rate_limited now key max window store).1
      other_asked :
          (now : ℕ) (k : Text) (limit span : ℕ) {last : ℕ} {past : List ℕ} {store : Windows}
          → Run last past store
          → (key == k) ≡ false
          → Run last past (is_rate_limited now k limit span store).1
      cleaned :
          (now : ℕ) {last : ℕ} {past : List ℕ} {store : Windows}
          → Run last past store
          → last ≤ now
          → Run now past (cleanup now store)

    -- The store has what is recent of the requests let through, and no window has too many of them.
    record Fits (last : ℕ) (past : List ℕ) (store : Windows) : Type 0 where
      agrees :
          (m : ℕ)
          → last ≤ m
          → filter (is_recent window m) (store key) ≡ filter (is_recent window m) past
      bounded : (t : ℕ) → within t past ≤ max

    within-snoc :
        (t now : ℕ) (past : List ℕ)
        → ((t : ℕ) → within t past ≤ max)
        → length (filter (is_recent window now) past) < max
        → within t (past ++ (now ∷ [])) ≤ max
    within-snoc t now past bounded few =
        let q : ℕ → Bool = λ x. is_recent window t x && leb x t in
        let split : within t (past ++ (now ∷ [])) ≡ within t past + length (filter q (now ∷ [])) =
          ap length (filter-append q past (now ∷ []))
          ∙ length-append (filter q past) (filter q (now ∷ [])) in
        let one = length-filter-le q (now ∷ []) in
        elim (Bool-cases (leb now t)) [
          | inl later ↦
              let order : now ≤ t = ground arith in
              omega (arith, split, one, within-le t past, fewer-recent now t past order, few)
          | inr earlier ↦
              let none_here : length (filter q (now ∷ [])) ≡ 0 = ground arith in
              omega (arith, split, none_here, bounded t)
        ]

    asked-Fits :
        (now last : ℕ) (past : List ℕ) (store : Windows)
        → Fits last past store
        → last ≤ now
        → Fits now
            (if (is_rate_limited now key max window store).0 then past else past ++ (now ∷ []))
            (is_rate_limited now key max window store).1
    unfolding is_rate_limited
    asked-Fits now last past store h order =
        let kept = filter (is_recent window now) (store key) in
        let same : length kept ≡ length (filter (is_recent window now) past) =
          ap length (h.agrees now order) in
        let held : (m : ℕ)
            → now ≤ m
            → filter (is_recent window m) kept ≡ filter (is_recent window m) past =
          λ m later. recent-recent now m (store key) later ∙ h.agrees m (omega (arith, later)) in
        elim (Bool-cases (leb max (length kept))) [
          | inl full ↦
              rw full (record {
                agrees = λ m later. rw (beq_self key) (held m later);
                bounded = h.bounded;
              })
          | inr room ↦ rw room (record {
            agrees = λ m later. rw (beq_self key) (
                filter-append (is_recent window m) kept (now ∷ [])
                ∙ ap (λ ts. ts ++ filter (is_recent window m) (now ∷ [])) (held m later)
                ∙ sym (filter-append (is_recent window m) past (now ∷ [])));
            bounded = λ t. within-snoc t now past h.bounded (ground (arith, same));
          })
        ]

    other-Fits :
        (now last : ℕ) (k : Text) (limit span : ℕ) (past : List ℕ) (store : Windows)
        → Fits last past store
        → (key == k) ≡ false
        → Fits last past (is_rate_limited now k limit span store).1
    unfolding is_rate_limited
    other-Fits now last k limit span past store h other =
        elim (Bool-cases (leb limit (length (filter (is_recent span now) (store k))))) [
          | inl full ↦
              rw full
                (record { agrees = λ m later. rw other (h.agrees m later); bounded = h.bounded })
          | inr room ↦
              rw room
                (record { agrees = λ m later. rw other (h.agrees m later); bounded = h.bounded })
        ]

    cleaned_agrees :
        (now last m : ℕ) (past : List ℕ) (store : Windows)
        → window ≤ 3600
        → Fits last past store
        → last ≤ now
        → now ≤ m
        → filter (is_recent window m) (cleanup now store key) ≡ filter (is_recent window m) past
    unfolding cleanup
    cleaned_agrees now last m past store w h order later =
        let ts = store key in
        let known = h.agrees m (omega (arith, order, later)) in
        elim (Bool-cases (is_empty ts)) [
          | inl nothing ↦
              let nil : ts ≡ [] = is_empty→nil ts nothing in
              rw nothing (sym (ap (filter (is_recent window m)) nil) ∙ known)
          | inr something ↦ elim (Bool-cases (ltb (latest ts + 3600) now)) [
            | inl stale ↦
                rw (something, stale) (sym (unheld m now ts w later (ground arith)) ∙ known)
            | inr fresh ↦ rw (something, fresh) known
          ]
        ]

    cleaned-Fits :
        (now last : ℕ) (past : List ℕ) (store : Windows)
        → window ≤ 3600
        → Fits last past store
        → last ≤ now
        → Fits now past (cleanup now store)
    unfolding cleanup
    cleaned-Fits now last past store w h order = record {
      agrees = λ m later. cleaned_agrees now last m past store w h order later;
      bounded = h.bounded;
    }

    Run-Fits :
        (last : ℕ) (past : List ℕ) (store : Windows)
        → window ≤ 3600
        → Run last past store
        → Fits last past store
    Run-Fits last past store w started = record {
      agrees = λ m later. refl;
      bounded = λ t. omega arith;
    }
    Run-Fits last past store w (asked now {last = l} {past = p} {store = s} before order) =
        asked-Fits now l p s (Run-Fits l p s w before) order
    Run-Fits last past store w (other_asked now k limit span {store = s} before other) =
        other-Fits now last k limit span past s (Run-Fits last past s w before) other
    Run-Fits last past store w (cleaned now {last = l} {store = s} before order) =
        cleaned-Fits now l past s w (Run-Fits l past s w before) order

    -- With a window of at most an hour, whatever other keys ask and whenever stale entries are cleaned
    -- up: no span of the window's length has more than `max` requests let through, and the next one is
    -- limited exactly when the window that ends with it has `max` of them.
    pub Run-bounded :
        (last : ℕ) (past : List ℕ) (store : Windows) (now : ℕ)
        → window ≤ 3600
        → Run last past store
        → last ≤ now
        → ((t : ℕ) → within t past ≤ max)
          × ((is_rate_limited now key max window store).0
              ≡ leb max (length (filter (is_recent window now) past)))
    unfolding is_rate_limited
    Run-bounded last past store now w run order =
        let h = Run-Fits last past store w run in
        (h.bounded, ground (arith, ap length (h.agrees now order)))
