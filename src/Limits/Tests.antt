-- ===== src/Limits/Tests.antt =====
-- A key with room for one request, and a user whose second rejection starts a cooldown.
use cat_backend.Common.{ℕ, ◌≤◌, ◌<◌, ◌≡◌, refl, true, false, [], ◌∷◌, none, arith, ◌+◌, ◌*◌}
use cat_backend.Common.Sort.{sorted}
use cat_backend.Common.Words.{codes}
use cat_backend.Limits.Requests
use cat_backend.Limits.Requests.{Windows, is_recent}
use cat_backend.Limits.Sliding
use cat_backend.Limits.Sliding.{within, Run-bounded}
use cat_backend.Limits.Uploads.{
  Settings, Trackers, record_rejection, is_rate_limited, get_retry_after,
}
use cat_backend.Limits.Waiting
use cat_backend.Limits.Waiting.{get_retry_after-enough}

abbrev nobody : Windows
nobody = λ k. []

abbrev once : Windows
once = (Requests.is_rate_limited 5 (codes "ip") 1 10 nobody).1

once-Run : Sliding.Run 10 (codes "ip") 1 5 (5 ∷ []) once
unfolding Requests.is_rate_limited
once-Run = Sliding.asked 5 Sliding.started (omega arith)

Run-bounded_example :
    ((t : ℕ) → within 10 t (5 ∷ []) ≤ 1)
    × ((Requests.is_rate_limited 14 (codes "ip") 1 10 once).0 ≡ true)
Run-bounded_example =
    Run-bounded 10 (codes "ip") 1 5 (5 ∷ []) once 14 (omega arith) once-Run (omega arith)

abbrev settings : Settings
settings = record { max_attempts = 2; window = 60000000; cooldown = 90000000 }

abbrev clean : Trackers
clean = record { rejections = λ u. []; cooldowns = λ u. none }

abbrev twice : Trackers
twice = record_rejection settings 8000000 3 (record_rejection settings 1000000 3 clean)

twice-Run : Waiting.Run settings 8000000 twice
twice-Run =
    Waiting.rejected 8000000 3 (Waiting.rejected 1000000 3 Waiting.started (omega arith))
      (omega arith)

limited_now : is_rate_limited settings 9000000 3 twice ≡ true
unfolding is_rate_limited record_rejection
limited_now = refl

get_retry_after-enough_example :
    (0 < get_retry_after settings 9000000 3 twice)
    × (is_rate_limited settings
          (9000000 + get_retry_after settings 9000000 3 twice * 1000000)
          3
          twice
        ≡ false)
get_retry_after-enough_example =
    get_retry_after-enough settings (omega arith) 8000000 9000000 3 twice (omega arith) twice-Run
      (omega arith) limited_now

-- With the default spans, an hour and half an hour, the wait that is announced is too short.
abbrev defaults : Settings
defaults = record { max_attempts = 2; window = 3600000000; cooldown = 1800000000 }

abbrev refused_twice : Trackers
refused_twice = record_rejection defaults 8000000 3 (record_rejection defaults 1000000 3 clean)

told_half_an_hour : get_retry_after defaults 8000000 3 refused_twice ≡ 1801
unfolding get_retry_after record_rejection sorted
told_half_an_hour = refl

still_limited : is_rate_limited defaults (8000000 + 1801 * 1000000) 3 refused_twice ≡ true
unfolding is_rate_limited record_rejection
still_limited = refl
