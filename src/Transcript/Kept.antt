-- ===== src/Transcript/Kept.antt =====
-- What a persist of app/services/transcript_manager.py stores, alone and while another task appends.
use cat_backend.Common.{
  ℕ, suc, ◌<◌, ◌≡◌, refl, sym, ap, ◌∙◌, String, Bool, true, List, [], ◌∷◌, ◌++◌, some, is_empty,
  leb, length, arith, inl, inr, is_empty→nil, Bool-cases,
}
use mathlib.Core.List.{append-nil}
use cat_backend.Common.Eq.{ℕ-Eq, beq_self}
use cat_backend.Common.Sort.{sorted, insert}
use cat_backend.Common.Words.{Text}
use cat_backend.Transcript.Retry.{Attempt, Result, backoff_delays, max_retries, retry_db_operation}
use cat_backend.Transcript.Attempts.{retry_returns}
use cat_backend.Transcript.Manager.{
  Entry, Recorder, of_session, get_next_sequence_number, buffered, flushed, persist, get_transcript,
}
use cat_backend.Transcript.Numbering.{
  CountsFrom, recorded, IsNumbered, next_lem, of_session-append, of_session-own,
}

abbrev by_number : Entry → Entry → Bool
by_number a b = leb a.sequence_number b.sequence_number

sorted_lem : (n : ℕ) (es : List Entry) → CountsFrom n es → sorted by_number es ≡ es
unfolding sorted
sorted_lem n [] h = refl
sorted_lem n (x ∷ []) h = refl
sorted_lem n (x ∷ y ∷ es) (here, h) =
    let rest : sorted by_number (y ∷ es) ≡ y ∷ es = sorted_lem (suc n) (y ∷ es) h in
    let first : by_number x y ≡ true = ground arith in ap (insert by_number x) rest ∙ rw first refl

flushed_rows :
    (session : ℕ) (r : Recorder)
    → IsNumbered session r
    → of_session session (r.rows ++ r.buffer session) ≡ recorded session r
flushed_rows session r h =
    of_session-append session r.rows (r.buffer session)
    ∙ ap (λ es. of_session session r.rows ++ es) (of_session-own session (r.buffer session) h.owned)

stored_transcript :
    (session : ℕ) (r : Recorder) (rows : List Entry)
    → IsNumbered session r
    → of_session session rows ≡ recorded session r
    → sorted by_number (of_session session rows) ≡ recorded session r
stored_transcript session r rows h same = ap (sorted by_number) same ∙ sorted_lem 0 _ h.counts

-- When one of the three attempts commits, after attempts that failed, the persist succeeds, the buffer
-- is empty, and the stored transcript is what was recorded, in the order of recording.
pub persist-get_transcript :
    (commit : ℕ → Attempt Unit) (key : Text) (session k : ℕ) (r : Recorder)
    → IsNumbered session r
    → ((i : ℕ) → i < k → commit i ≡ Attempt.failed)
    → commit k ≡ Attempt.returned tt
    → k < max_retries
    → ((persist commit key session r).0 ≡ Result.value tt)
      × (get_transcript session (persist commit key session r).1 ≡ recorded session r)
      × ((persist commit key session r).1.buffer session ≡ [])
unfolding persist
persist-get_transcript commit key session k r h f c small =
    let run =
      retry_db_operation commit backoff_delays (some key) (some (r.buffer session)) max_retries
        r.fallback_store in
    let (value, _, _, _) =
      retry_returns commit backoff_delays (some key) (some (r.buffer session)) r.fallback_store
        max_retries k tt f c small (omega arith) in
    elim (Bool-cases (is_empty (r.buffer session))) [
      | inl nothing ↦
          let nil : r.buffer session ≡ [] = is_empty→nil (r.buffer session) nothing in
          let same : of_session session r.rows ≡ recorded session r =
            sym (append-nil _) ∙ ap (λ es. of_session session r.rows ++ es) (sym nil) in
          rw nothing (refl, stored_transcript session r r.rows h same, nil)
      | inr entries ↦
          rw (entries, value, beq_self session)
            (refl, stored_transcript session r _ h (flushed_rows session r h), refl)
    ]

-- An entry that another task appends after `persist` has added the buffer to the database session and
-- before the commit returns is lost: it has a number, and neither the rows nor the buffer have it.
pub late_entry_lost :
    (session : ℕ) (speaker : String) (text : Text) (timestamp : ℕ) (r : Recorder)
    → IsNumbered session r
    → ((buffered session speaker text timestamp r).0.sequence_number ≡ length (recorded session r))
      × (recorded session
            (flushed session (r.buffer session) (buffered session speaker text timestamp r).1)
          ≡ recorded session r)
unfolding buffered get_next_sequence_number
late_entry_lost session speaker text timestamp r h =
    (next_lem session r h, rw (beq_self session) (append-nil _ ∙ flushed_rows session r h))
