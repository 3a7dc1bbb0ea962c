-- ===== src/Limits/Requests.antt =====
-- `RateLimiter` of app/services/rate_limiter.py. Its lock makes a call one step; the clock is an
-- argument. `ts > now - window` is written with a sum.
use cat_backend.Common.{
  ℕ, ◌+◌, Bool, true, false, ◌||◌, List, [], ◌∷◌, ◌++◌, if◌then◌else◌, ltb, leb, length, filter,
  is_empty,
}
use cat_backend.Common.Eq.{◌==◌, Text-Eq}
use cat_backend.Common.Words.{Text}

-- The timestamps of the keys; a missing key and an empty window are alike.
abbrev pub Windows : Type 0
Windows = Text → List ℕ

abbrev pub set_window : Text → List ℕ → Windows → Windows
set_window key ts store k = if k == key then ts else store k

abbrev pub is_recent : ℕ → ℕ → ℕ → Bool
is_recent window now ts = ltb now (ts + window)

unfoldable pub is_rate_limited : ℕ → Text → ℕ → ℕ → Windows → Bool × Windows
is_rate_limited now key max_requests window_seconds store =
    let recent = filter (is_recent window_seconds now) (store key) in
    if leb max_requests (length recent)
    then (true, set_window key recent store)
    else (false, set_window key (recent ++ (now ∷ [])) store)

abbrev pub latest : List ℕ → ℕ
latest [] = 0
latest (t ∷ ts) = let rest = latest ts in if leb rest t then t else rest

-- `now - max(timestamps) > max_age`, where no timestamp is later than `now`.
unfoldable pub cleanup : ℕ → Windows → Windows
cleanup now store key =
    let ts = store key in if is_empty ts || ltb (latest ts + 3600) now then [] else ts
