-- ===== src/Event/Store.antt =====
-- app/services/event_store.py. The time of an `append` is an argument; the lock makes `next_seq` one
-- step, and no other task runs between it and the `append` of the same event.
use cat_backend.Common.{
  ℕ, ◌+◌, String, List, [], ◌∷◌, ◌++◌, map, Option, none, some, if◌then◌else◌, leb, ltb, filter,
}

-- `EventPayload`; `category` is what stands before the first dot of its `event`, and `id` and
-- `timestamp` are its `data`.
pub record EventPayload : Type 0 where
  pub event : String
  pub category : String
  pub id : ℕ
  pub timestamp : ℕ
  pub seq : ℕ

pub record EventStore : Type 0 where
  pub ttl : ℕ
  pub buffer : List (ℕ × EventPayload)
  pub seq : ℕ

unfoldable pub next_seq : EventStore → ℕ × EventStore
next_seq s = (s.seq + 1, record s { seq = s.seq + 1 })

-- The `while` loop: expired entries leave at the front. `stored <= now - ttl` is written with a sum.
abbrev pub evict : ℕ → ℕ → List (ℕ × EventPayload) → List (ℕ × EventPayload)
evict now ttl [] = []
evict now ttl ((stored, e) ∷ rest) =
    let later = evict now ttl rest in if leb (stored + ttl) now then later else (stored, e) ∷ rest

unfoldable pub append : ℕ → EventPayload → EventStore → EventStore
append now event s = record s { buffer = evict now s.ttl s.buffer ++ ((now, event) ∷ []) }

abbrev pub events : List (ℕ × EventPayload) → List EventPayload
events = map (λ e. e.1)

-- `none` asks the client for a full resync.
abbrev pub after_in : ℕ → List (ℕ × EventPayload) → Option (List EventPayload)
after_in last [] = some []
after_in last ((stored, oldest) ∷ rest) =
    if ltb last oldest.seq then none else some (filter (λ e. ltb last e.seq) (oldest ∷ events rest))

unfoldable pub get_after : ℕ → EventStore → Option (List EventPayload)
get_after last s = after_in last s.buffer
