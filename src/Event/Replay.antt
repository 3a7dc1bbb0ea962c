-- ===== src/Event/Replay.antt =====
-- A client that reconnects is told everything that it missed, or to start again.
use cat_backend.Common.{
  ℕ, ◌+◌, ◌≤◌, ◌<◌, ◌≡◌, refl, subst, sym, ap, ◌∙◌, false, List, [], ◌∷◌, ◌++◌, some, arith, leb,
  ltb, filter, All, All-append, is_empty, Bool-cases, inl, inr, ◌⊎◌,
}
use cat_backend.Event.Store.{
  EventPayload, EventStore, next_seq, append, evict, events, after_in, get_after,
}

-- The events sent so far, oldest first, and the store that they leave.
pub data Emitted : List EventPayload → EventStore → Type 0 where
  started : (ttl : ℕ) → Emitted [] (record { ttl = ttl; buffer = []; seq = 0 })
  emitted :
      {h : List EventPayload} {s : EventStore} (now : ℕ) (e : EventPayload)
      → Emitted h s
      → e.seq ≡ (next_seq s).0
      → Emitted (h ++ (e ∷ [])) (append now e (next_seq s).1)

abbrev IsRising : List EventPayload → Type 0
IsRising [] = Unit
IsRising (e ∷ es) = All (λ f. e.seq < f.seq) es × IsRising es

-- The buffer is the end of the history, and not empty once there is one.
record Tracks (h : List EventPayload) (s : EventStore) : Type 0 where
  older : List EventPayload
  split : h ≡ older ++ events s.buffer
  rising : IsRising h
  bounded : All (λ e. e.seq ≤ s.seq) h
  held : (is_empty s.buffer ≡ false) ⊎ (h ≡ [])

append_assoc : (xs ys zs : List EventPayload) → (xs ++ ys) ++ zs ≡ xs ++ (ys ++ zs)
append_assoc [] ys zs = refl
append_assoc (x ∷ xs) ys zs = rw (append_assoc xs ys zs) refl

rejoin : (xs ys zs ws : List EventPayload) → (xs ++ (ys ++ zs)) ++ ws ≡ (xs ++ ys) ++ (zs ++ ws)
rejoin xs ys zs ws =
    ap (λ us. us ++ ws) (sym (append_assoc xs ys zs)) ∙ append_assoc (xs ++ ys) zs ws

events-append : (xs ys : List (ℕ × EventPayload)) → events (xs ++ ys) ≡ events xs ++ events ys
events-append [] ys = refl
events-append (x ∷ xs) ys = rw (events-append xs ys) refl

-- What an eviction drops stood at the front.
evicted :
    (now ttl : ℕ) (b : List (ℕ × EventPayload))
    → (gone : List EventPayload) × (events b ≡ gone ++ events (evict now ttl b))
evicted now ttl [] = ([], refl)
evicted now ttl ((stored, e) ∷ rest) = elim (Bool-cases (leb (stored + ttl) now)) [
  | inl expired ↦ let (gone, split) = evicted now ttl rest in (e ∷ gone, rw (expired, split) refl)
  | inr fresh ↦ ([], rw fresh refl)
]

IsRising-snoc :
    (n : ℕ) (e : EventPayload) (h : List EventPayload)
    → IsRising h
    → All (λ f. f.seq ≤ n) h
    → n < e.seq
    → IsRising (h ++ (e ∷ []))
IsRising-snoc n e [] r b lt = (tt, tt)
IsRising-snoc n e (x ∷ xs) (above, r) (le, b) lt =
    (All-append _ xs (e ∷ []) above (omega arith, tt), IsRising-snoc n e xs r b lt)

All-weaken :
    (n m : ℕ) (h : List EventPayload) → n ≤ m → All (λ f. f.seq ≤ n) h → All (λ f. f.seq ≤ m) h
All-weaken n m [] le b = tt
All-weaken n m (x ∷ xs) le (p, ps) = (omega arith, All-weaken n m xs le ps)

not_empty :
    (xs : List (ℕ × EventPayload)) (x : ℕ × EventPayload) → is_empty (xs ++ (x ∷ [])) ≡ false
not_empty [] x = refl
not_empty (y ∷ ys) x = refl

Tracks-emitted :
    (h : List EventPayload) (s : EventStore) (now : ℕ) (e : EventPayload)
    → Tracks h s
    → e.seq ≡ (next_seq s).0
    → Tracks (h ++ (e ∷ [])) (append now e (next_seq s).1)
unfolding next_seq append
Tracks-emitted h s now e t numbered =
    let (gone, dropped) = evicted now s.ttl s.buffer in
    let left = evict now s.ttl s.buffer in
    record {
      older = t.older ++ gone;
      split =
          ap (λ xs. xs ++ (e ∷ [])) (t.split ∙ ap (λ xs. t.older ++ xs) dropped)
          ∙ rejoin t.older gone (events left) (e ∷ [])
          ∙ ap (λ xs. (t.older ++ gone) ++ xs) (sym (events-append left ((now, e) ∷ [])));
      rising = IsRising-snoc s.seq e h t.rising t.bounded (omega arith);
      bounded =
          All-append _ h (e ∷ []) (All-weaken s.seq (s.seq + 1) h (omega arith) t.bounded)
            (omega arith, tt);
      held = inl (not_empty left (now, e));
    }

Emitted-Tracks : {h : List EventPayload} {s : EventStore} → Emitted h s → Tracks h s
Emitted-Tracks (started ttl) = record {
  older = [];
  split = refl;
  rising = tt;
  bounded = tt;
  held = inr refl;
}
Emitted-Tracks (emitted {h} {s} now e r numbered) =
    Tracks-emitted h s now e (Emitted-Tracks r) numbered

All-middle :
    (P : EventPayload → Type 0) (xs : List EventPayload) (o : EventPayload)
    (rest : List EventPayload)
    → All P (xs ++ (o ∷ rest))
    → P o
All-middle P [] o rest (p, ps) = p
All-middle P (x ∷ xs) o rest (p, ps) = All-middle P xs o rest ps

-- Nothing older than the oldest event of the buffer is newer than what the client has.
filter-older :
    (last : ℕ) (o : EventPayload) (older rest : List EventPayload)
    → IsRising (older ++ (o ∷ rest))
    → o.seq ≤ last
    → filter (λ e. ltb last e.seq) (older ++ (o ∷ rest)) ≡ filter (λ e. ltb last e.seq) (o ∷ rest)
filter-older last o [] rest r le = refl
filter-older last o (x ∷ xs) rest (above, r) le =
    let before = All-middle (λ f. x.seq < f.seq) xs o rest above in
    let known : ltb last x.seq ≡ false = ground arith in rw known (filter-older last o xs rest r le)

after_in_complete :
    (last : ℕ) (h older es : List EventPayload) (b : List (ℕ × EventPayload))
    → h ≡ older ++ events b
    → IsRising h
    → (is_empty b ≡ false) ⊎ (h ≡ [])
    → after_in last b ≡ some es
    → es ≡ filter (λ e. ltb last e.seq) h
after_in_complete last h older es [] split r (inl full) e = cc
after_in_complete last h older es [] split r (inr none_yet) e = rw none_yet (ground arith)
after_in_complete last h older es ((stored, o) ∷ rest) split r held e =
    elim (Bool-cases (ltb last o.seq)) [
      | inl too_old ↦ ground arith
      | inr recent ↦
          let answer : filter (λ e. ltb last e.seq) (o ∷ events rest) ≡ es = ground arith in
          rw split (
            sym answer
            ∙ sym (filter-older last o older (events rest) (subst IsRising split r) (ground arith)))
    ]

-- Whatever was sent, and however much of it has expired: if a client that has the events up to
-- `last` gets an answer, the answer is every event sent after `last`, in order.
pub get_after_complete :
    {h : List EventPayload} {s : EventStore} {es : List EventPayload} (last : ℕ)
    → Emitted h s
    → get_after last s ≡ some es
    → es ≡ filter (λ e. ltb last e.seq) h
unfolding get_after
get_after_complete {h} {s} {es} last r e =
    let t = Emitted-Tracks r in
    after_in_complete last h t.older es s.buffer t.split t.rising t.held e
