-- ===== src/Limits/Waiting.antt =====
-- A user of app/services/upload_rate_limiter.py who waits as long as told.
use cat_backend.Common.{
  ℕ, ◌+◌, ◌*◌, ◌≤◌, ◌<◌, ◌≡◌, refl, sym, ap, subst, Bool, true, false, List, [], ◌∷◌, ◌++◌, Option,
  none, some, ltb, leb, length, length-filter-le, filter, All, All-append, arith, inl, inr, ◌⊎◌,
  Bool-cases, Option-cases,
}
use cat_backend.Common.Eq.{◌==◌, ℕ-Eq, nat_eq_iff}
use cat_backend.Limits.Uploads.{
  Settings, Trackers, in_future, seconds_left, recent, record_rejection, is_rate_limited,
  get_retry_after, cleanup_expired_entries,
}

module _ (settings : Settings) where
  -- Rejections and cleanups of any users, in the order of their times.
  pub data Run : ℕ → Trackers → Type 0 where
    started : Run 0 (record { rejections = λ u. []; cooldowns = λ u. none })
    rejected :
        (now user : ℕ) {last : ℕ} {s : Trackers}
        → Run last s
        → last ≤ now
        → Run now (record_rejection settings now user s)
    cleaned :
        (now : ℕ) {last : ℕ} {s : Trackers}
        → Run last s
        → last ≤ now
        → Run now (cleanup_expired_entries settings now s)

  -- Too many rejections come with a cooldown that outlasts all of them.
  record CoolsAt (last : ℕ) (ts : List ℕ) (cooldown : Option ℕ) : Type 0 where
    past : All (λ t. t ≤ last) ts
    cools :
        (length ts < settings.max_attempts)
        ⊎ ((c : ℕ) × (cooldown ≡ some c) × All (λ t. t + settings.window ≤ c) ts)

  abbrev Cools : ℕ → ℕ → Trackers → Type 0
  Cools last user s = CoolsAt last (s.rejections user) (s.cooldowns user)

  All-filter : (P : ℕ → Type 0) (p : ℕ → Bool) (ts : List ℕ) → All P ts → All P (filter p ts)
  All-filter P p [] h = tt
  All-filter P p (t ∷ ts) (here, h) = elim (Bool-cases (p t)) [
    | inl yes_t ↦ rw yes_t (here, All-filter P p ts h)
    | inr no_t ↦ rw no_t (All-filter P p ts h)
  ]

  All-weaken : (P Q : ℕ → Type 0) (ts : List ℕ) → ((t : ℕ) → P t → Q t) → All P ts → All Q ts
  All-weaken P Q [] f h = tt
  All-weaken P Q (t ∷ ts) f (here, h) = (f t here, All-weaken P Q ts f h)

  none_recent :
      (now c : ℕ) (ts : List ℕ)
      → All (λ t. t + settings.window ≤ c) ts
      → c ≤ now
      → recent settings now ts ≡ []
  none_recent now c [] h order = refl
  none_recent now c (t ∷ ts) (here, h) order = ground (arith, none_recent now c ts h order)

  limited-Cools :
      (last user now : ℕ) (s : Trackers)
      → Cools last user s
      → in_future now (s.cooldowns user) ≡ false
      → 0 < settings.max_attempts
      → leb settings.max_attempts (length (recent settings now (s.rejections user))) ≡ false
  limited-Cools last user now s h over some_allowed = elim h.cools [
    | inl few ↦
        let fewer = length-filter-le (λ t. ltb now (t + settings.window)) (s.rejections user) in
        ground (arith, few, fewer)
    | inr (c, cooling, outlasts) ↦
        let order : c ≤ now = ground arith in
        let nothing = none_recent now c (s.rejections user) outlasts order in
        rw nothing (ground arith)
  ]

  seconds_left-enough : (now c : ℕ) → now < c → ltb (now + seconds_left now c * 1000000) c ≡ false
  seconds_left-enough now c h =
      let order : c ≤ now + seconds_left now c * 1000000 = omega arith in ground (arith, order)

  free_at :
      (last user now : ℕ) (s : Trackers)
      → Cools last user s
      → in_future now (s.cooldowns user) ≡ false
      → 0 < settings.max_attempts
      → is_rate_limited settings now user s ≡ false
  unfolding is_rate_limited
  free_at last user now s h over some_allowed =
      rw (is_rate_limited, over) (limited-Cools last user now s h over some_allowed)

  later_past :
      (last now : ℕ) (ts : List ℕ) → last ≤ now → All (λ t. t ≤ last) ts → All (λ t. t ≤ now) ts
  later_past last now ts order =
      All-weaken (λ t. t ≤ last) (λ t. t ≤ now) ts (λ t h. omega (arith, h, order))

  module _ (longer : settings.window ≤ settings.cooldown) where
    full-CoolsAt :
        (now : ℕ) (ts : List ℕ)
        → All (λ t. t ≤ now) ts
        → CoolsAt now ts (some (now + settings.cooldown))
    full-CoolsAt now ts past = record {
      past = past;
      cools = inr (
        now + settings.cooldown,
        refl,
        All-weaken (λ t. t ≤ now) (λ t. t + settings.window ≤ now + settings.cooldown) ts
            (λ t h. omega (arith, h, longer)) past,
      );
    }

    record_rejection-Cools :
        (last now user u : ℕ) (s : Trackers)
        → Cools last u s
        → last ≤ now
        → Cools now u (record_rejection settings now user s)
    unfolding record_rejection
    record_rejection-Cools last now user u s h order =
        let kept = recent settings now (s.rejections user ++ (now ∷ [])) in
        elim (Bool-cases (u == user)) [
          | inr other ↦ elim (Bool-cases (leb settings.max_attempts (length kept))) [
            | inl full ↦
                rw (full, other)
                  (record {
                    past = later_past last now (s.rejections u) order h.past;
                    cools = h.cools;
                  })
            | inr few ↦
                rw (few, other)
                  (record {
                    past = later_past last now (s.rejections u) order h.past;
                    cools = h.cools;
                  })
          ]
          | inl same ↦
              let at : u ≡ user = (nat_eq_iff u user).0 same in
              let all_past : All (λ t. t ≤ now) kept = All-filter _ _ _ (
                All-append _ (s.rejections user) (now ∷ [])
                  (later_past last now (s.rejections user) order
                    (subst (λ i. All (λ t. t ≤ last) (s.rejections i)) at h.past))
                  (omega arith, tt)) in
              elim (Bool-cases (leb settings.max_attempts (length kept))) [
                | inl full ↦ rw (full, same) (full-CoolsAt now kept all_past)
                | inr few ↦ rw (few, same) (record { past = all_past; cools = inl (ground arith) })
              ]
        ]

    cleaned-Cools :
        (last now u : ℕ) (s : Trackers)
        → 0 < settings.max_attempts
        → Cools last u s
        → last ≤ now
        → Cools now u (cleanup_expired_entries settings now s)
    unfolding cleanup_expired_entries
    cleaned-Cools last now u s some_allowed h order =
        let kept = recent settings now (s.rejections u) in
        let past =
          All-filter _ (λ t. ltb now (t + settings.window)) (s.rejections u)
            (later_past last now (s.rejections u) order h.past) in
        let fewer = length-filter-le (λ t. ltb now (t + settings.window)) (s.rejections u) in
        elim h.cools [
          | inl few ↦ record { past = past; cools = inl (omega (arith, few, fewer)) }
          | inr (c, cooling, outlasts) ↦ elim (Bool-cases (ltb now c)) [
            | inl still ↦ record {
              past = past;
              cools = inr (c, rw (cooling, still) refl, All-filter _ _ _ outlasts);
            }
            | inr over ↦
                let nothing = none_recent now c (s.rejections u) outlasts (ground arith) in
                record { past = past; cools = inl (omega (arith, ap length nothing, some_allowed)) }
          ]
        ]

    Run-Cools :
        (last u : ℕ) (s : Trackers) → 0 < settings.max_attempts → Run last s → Cools last u s
    Run-Cools last u s some_allowed started = record { past = tt; cools = inl some_allowed }
    Run-Cools last u s some_allowed (rejected now user {last = l} {s = t} before order) =
        record_rejection-Cools l now user u t (Run-Cools l u t some_allowed before) order
    Run-Cools last u s some_allowed (cleaned now {last = l} {s = t} before order) =
        cleaned-Cools l now u t some_allowed (Run-Cools l u t some_allowed before) order

    -- With a cooldown at least as long as the window, over any rejections and cleanups: a user who is
    -- limited is told a positive number of seconds, and is not limited once they have passed without
    -- another rejection.
    pub get_retry_after-enough :
        (last now user : ℕ) (s : Trackers)
        → 0 < settings.max_attempts
        → Run last s
        → last ≤ now
        → is_rate_limited settings now user s ≡ true
        → (0 < get_retry_after settings now user s)
          × (is_rate_limited settings (now + get_retry_after settings now user s * 1000000) user s
              ≡ false)
    unfolding is_rate_limited get_retry_after
    get_retry_after-enough last now user s some_allowed run order limited =
        let h = Run-Cools last user s some_allowed run in
        elim (Bool-cases (in_future now (s.cooldowns user))) [
          | inr over ↦
              absurd (cc (limited-Cools last user now s h over some_allowed, rw over at limited))
          | inl cooling ↦ elim (Option-cases (s.cooldowns user)) [
            | inl never ↦ absurd (cc (rw never at cooling))
            | inr (c, found) ↦
                let early : ltb now c ≡ true = rw found at cooling in
                let told : get_retry_after settings now user s ≡ seconds_left now c =
                  rw (get_retry_after, found, early) refl in
                let over : in_future (now + get_retry_after settings now user s * 1000000)
                      (s.cooldowns user)
                    ≡ false =
                  subst (λ n. in_future (now + n * 1000000) (s.cooldowns user) ≡ false) (sym told)
                    (rw found (seconds_left-enough now c (ground arith))) in
                (omega (arith, told), free_at last user _ s h over some_allowed)
          ]
        ]
