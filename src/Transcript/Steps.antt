-- ===== src/Transcript/Steps.antt =====
-- Sequences of appends, persists and restarts of app/services/transcript_manager.py.
use cat_backend.Common.{
  ℕ, ◌+◌, ◌≡◌, refl, sym, ap, ◌∙◌, subst, String, false, List, [], ◌∷◌, ◌++◌, some, ◌⊎◌, inl, inr,
  is_empty, length, length-append, All-append, arith, Bool-cases,
}
use mathlib.Core.List.{append_assoc, append-nil}
use cat_backend.Common.Eq.{◌==◌, ℕ-Eq, String-Eq, elem, beq_self, beq_comm, nat_eq_iff}
use cat_backend.Common.Words.{Text, strip}
use cat_backend.Transcript.Retry.{Attempt, Result, FallbackStore}
use cat_backend.Transcript.Manager.{
  Entry, Recorder, started, set, get_next_sequence_number, append_entry, buffered, flushed, persist,
  persisted,
}
use cat_backend.Transcript.Numbering.{
  CountsFrom, CountsFrom-append, CountsFrom-prefix, Numbered, IsNumbered, next_lem,
  of_session-append, of_session-own, of_session-other,
}

pub data Step : Recorder → Recorder → Type 0 where
  append_step :
      (session : ℕ) (speaker : String) (text : Text) (timestamp : ℕ) {e : Entry} {r r' : Recorder}
      → append_entry session speaker text timestamp r ≡ some (e, r')
      → Step r r'
  persist_step :
      (commit : ℕ → Attempt Unit) (key : Text) (session : ℕ) {r : Recorder}
      → Step r (persist commit key session r).1
  restart_step : {r : Recorder} → Step r (started r.rows)

pub data Reach : Recorder → Recorder → Type 0 where
  done : {r : Recorder} → Reach r r
  then_step : {a b c : Recorder} → Reach a b → Step b c → Reach a c

set-here : {V : Type 0} (key : ℕ) (v : V) (d : ℕ → V) → set key v d key ≡ v
set-here key v d = rw (beq_self key) refl

set-other : {V : Type 0} (key k : ℕ) (v : V) (d : ℕ → V) → (k == key) ≡ false → set key v d k ≡ d k
set-other key k v d other = rw other refl

-- One more entry with the next number.
Numbered-append :
    (session : ℕ) (rows buffer : List Entry) (counter : ℕ) (e : Entry)
    → Numbered session rows buffer counter
    → e.session_id ≡ session
    → e.sequence_number ≡ length (rows ++ buffer)
    → Numbered session rows (buffer ++ (e ∷ [])) (e.sequence_number + 1)
Numbered-append session rows buffer counter e h own n =
    let again : (rows ++ buffer) ++ (e ∷ []) ≡ rows ++ (buffer ++ (e ∷ [])) =
      append_assoc rows buffer (e ∷ []) in
    record {
      counts =
          subst (CountsFrom 0) again
            (CountsFrom-append 0 (rows ++ buffer) e h.counts (n ∙ omega arith));
      owned = All-append _ buffer (e ∷ []) h.owned (own, tt);
      next = inr (
          ap (λ k. k + 1) n
          ∙ omega arith
          ∙ sym (length-append (rows ++ buffer) (e ∷ []))
          ∙ ap length again);
    }

buffered-IsNumbered :
    (session : ℕ) (speaker : String) (text : Text) (timestamp : ℕ) (r : Recorder) (t : ℕ)
    → ((t : ℕ) → IsNumbered t r)
    → IsNumbered t (buffered session speaker text timestamp r).1
unfolding buffered get_next_sequence_number
buffered-IsNumbered session speaker text timestamp r t h =
    let entry = (buffered session speaker text timestamp r).0 in
    elim (Bool-cases (t == session)) [
      | inl same ↦
          let at : session ≡ t = sym ((nat_eq_iff t session).0 same) in
          subst (λ k. IsNumbered k (buffered session speaker text timestamp r).1) at
            (rw (set-here session, set-here session)
              (Numbered-append session _ _ _ entry (h session) refl
                (next_lem session r (h session))))
      | inr other ↦ rw other (h t)
    ]

flushed-IsNumbered :
    (session : ℕ) (r : Recorder) (t : ℕ)
    → ((t : ℕ) → IsNumbered t r)
    → IsNumbered t (flushed session (r.buffer session) r)
flushed-IsNumbered session r t h = elim (Bool-cases (t == session)) [
  | inl same ↦
      let at : session ≡ t = sym ((nat_eq_iff t session).0 same) in
      subst (λ k. IsNumbered k (flushed session (r.buffer session) r)) at
        (rw
          (
            set-here session,
            of_session-append session r.rows (r.buffer session),
            of_session-own session (r.buffer session) (h session).owned,
          )
          (record {
            counts = subst (CountsFrom 0) (sym (append-nil _)) (h session).counts;
            owned = tt;
            next =
                subst
                  (λ es.
                    (r.sequence_counters session ≡ 0) ⊎ (r.sequence_counters session ≡ length es))
                  (sym (append-nil _)) (h session).next;
          }))
  | inr other ↦
      rw
        (
          set-other session t,
          other,
          of_session-append t r.rows (r.buffer session),
          of_session-other session t (r.buffer session) (beq_comm session t ∙ other)
              (h session).owned,
        )
        (rw append-nil (h t))
]

persisted-IsNumbered :
    (session : ℕ) (result : Result Unit) (store : FallbackStore (List Entry)) (r : Recorder) (t : ℕ)
    → ((t : ℕ) → IsNumbered t r)
    → IsNumbered t (persisted session result store r)
persisted-IsNumbered session (Result.value _) store r t h =
    flushed-IsNumbered session (record r { fallback_store = store }) t h
persisted-IsNumbered session Result.persistence_error store r t h = h t
persisted-IsNumbered session Result.propagated store r t h = h t
persisted-IsNumbered session Result.index_error store r t h = h t

persist-IsNumbered :
    (commit : ℕ → Attempt Unit) (key : Text) (session : ℕ) (r : Recorder) (t : ℕ)
    → ((t : ℕ) → IsNumbered t r)
    → IsNumbered t (persist commit key session r).1
unfolding persist
persist-IsNumbered commit key session r t h = elim (Bool-cases (is_empty (r.buffer session))) [
  | inl nothing ↦ rw nothing (h t)
  | inr some_entries ↦ rw some_entries (persisted-IsNumbered session _ _ r t h)
]

restart-IsNumbered : (r : Recorder) (t : ℕ) → IsNumbered t r → IsNumbered t (started r.rows)
restart-IsNumbered r t h = record {
  counts = subst (CountsFrom 0) (sym (append-nil _)) (CountsFrom-prefix 0 _ _ h.counts);
  owned = tt;
  next = inl refl;
}

Step-IsNumbered :
    (a b : Recorder) → ((t : ℕ) → IsNumbered t a) → Step a b → (t : ℕ) → IsNumbered t b
unfolding append_entry
Step-IsNumbered a b h (append_step session speaker text timestamp e) t =
    let stored : (buffered session speaker text timestamp a).1 ≡ b =
      elim (Bool-cases (elem speaker ("agent" ∷ "debtor" ∷ []))) [
        | inl known ↦ elim (Bool-cases (is_empty (strip text))) [
          | inl blank ↦ absurd (cc (rw (known, blank) at e))
          | inr speaks ↦ cc (rw (known, speaks) at e)
        ]
        | inr unknown ↦ absurd (cc (rw unknown at e))
      ] in
    subst (IsNumbered t) stored (buffered-IsNumbered session speaker text timestamp a t h)
Step-IsNumbered a b h (persist_step commit key session) t =
    persist-IsNumbered commit key session a t h
Step-IsNumbered a b h restart_step t = restart-IsNumbered a t (h t)

-- Whatever is said, stored and lost in a restart: the numbers of a session's rows and then of its
-- buffer are 0, 1 and so on, when they were so at the start.
pub Reach-IsNumbered :
    (a b : Recorder) → ((t : ℕ) → IsNumbered t a) → Reach a b → (t : ℕ) → IsNumbered t b
Reach-IsNumbered a b h done = h
Reach-IsNumbered a b h (then_step {b = m} before step) =
    Step-IsNumbered m b (Reach-IsNumbered a m h before) step
