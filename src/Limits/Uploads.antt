-- ===== src/Limits/Uploads.antt =====
-- app/services/upload_rate_limiter.py. Times and spans are in microseconds, as datetimes have them;
-- the lock makes a call one step. `t > now - window` is written with a sum. The number of users that a
-- cleanup reports is left out.
use cat_backend.Common.{
  ℕ, ◌+◌, ◌-◌, ◌/◌, Bool, true, false, List, [], ◌∷◌, ◌++◌, Option, none, some, if◌then◌else◌, ltb,
  leb, length, filter,
}
use cat_backend.Common.Eq.{◌==◌, ℕ-Eq}
use cat_backend.Common.Sort.{sorted}

-- `settings`: the threshold and the two spans.
pub record Settings : Type 0 where
  pub max_attempts : ℕ
  pub window : ℕ
  pub cooldown : ℕ

pub record Trackers : Type 0 where
  pub rejections : ℕ → List ℕ
  pub cooldowns : ℕ → Option ℕ

abbrev pub set : {V : Type 0} → ℕ → V → (ℕ → V) → ℕ → V
set key value d k = if k == key then value else d k

abbrev pub in_future : ℕ → Option ℕ → Bool
in_future now none = false
in_future now (some expires_at) = ltb now expires_at

-- `int((expires_at - now).total_seconds()) + 1`, of a time that is not before `now`.
abbrev pub seconds_left : ℕ → ℕ → ℕ
seconds_left now expires_at = (expires_at - now) / 1000000 + 1

abbrev pub oldest : List ℕ → ℕ
oldest [] = 0
oldest (t ∷ ts) = t

module _ (settings : Settings) where
  abbrev pub recent : ℕ → List ℕ → List ℕ
  recent now ts = filter (λ t. ltb now (t + settings.window)) ts

  unfoldable pub record_rejection : ℕ → ℕ → Trackers → Trackers
  record_rejection now user s =
      let kept = recent now (s.rejections user ++ (now ∷ [])) in
      record {
        rejections = set user kept s.rejections;
        cooldowns =
            if leb settings.max_attempts (length kept)
            then set user (some (now + settings.cooldown)) s.cooldowns
            else s.cooldowns;
      }

  unfoldable pub is_rate_limited : ℕ → ℕ → Trackers → Bool
  is_rate_limited now user s =
      if in_future now (s.cooldowns user)
      then true
      else leb settings.max_attempts (length (recent now (s.rejections user)))

  abbrev pub left_of : ℕ → Option ℕ → ℕ
  left_of now none = 0
  left_of now (some expires_at) = seconds_left now expires_at

  unfoldable pub get_retry_after : ℕ → ℕ → Trackers → ℕ
  get_retry_after now user s =
      let ts = sorted leb (recent now (s.rejections user)) in
      if in_future now (s.cooldowns user)
      then left_of now (s.cooldowns user)
      else if leb settings.max_attempts (length ts)
      then seconds_left now (oldest ts + settings.window)
      else 0

  unfoldable pub cleanup_expired_entries : ℕ → Trackers → Trackers
  cleanup_expired_entries now s = record {
    rejections = λ user. recent now (s.rejections user);
    cooldowns = λ user. if in_future now (s.cooldowns user) then s.cooldowns user else none;
  }
