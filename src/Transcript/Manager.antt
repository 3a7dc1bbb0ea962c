-- ===== src/Transcript/Manager.antt =====
-- app/services/transcript_manager.py: the rows of the database and the memory of one manager. Dicts
-- with a default are functions of the session. An attempt to commit is the parameter `commit`; a
-- failed attempt stores nothing.
use cat_backend.Common.{
  ℕ, ◌+◌, suc, String, not, List, [], ◌∷◌, ◌++◌, Option, none, some, is_empty, ltb, leb, length,
  if◌then◌else◌, filter,
}
use cat_backend.Common.Eq.{◌==◌, ℕ-Eq, String-Eq, elem}
use cat_backend.Common.Sort.{sorted}
use cat_backend.Common.Words.{Text, strip}
use cat_backend.Transcript.Retry.{
  Attempt, Result, FallbackStore, retry_db_operation, backoff_delays, max_retries,
}

pub record Entry : Type 0 where
  pub session_id : ℕ
  pub speaker : String
  pub utterance_text : Text
  pub timestamp_ms : ℕ
  pub sequence_number : ℕ

pub record Recorder : Type 0 where
  pub rows : List Entry
  pub buffer : ℕ → List Entry
  pub sequence_counters : ℕ → ℕ
  pub fallback_store : FallbackStore (List Entry)

-- A manager without memory over the rows of the database.
abbrev pub started : List Entry → Recorder
started rows = record {
  rows = rows;
  buffer = λ s. [];
  sequence_counters = λ s. 0;
  fallback_store = [];
}

-- `d[key] = value`
abbrev pub set : {V : Type 0} → ℕ → V → (ℕ → V) → ℕ → V
set key value d k = if k == key then value else d k

abbrev pub of_session : ℕ → List Entry → List Entry
of_session session = filter (λ e. e.session_id == session)

-- One more than the largest sequence number, and 0 for none: the code starts its maxima at -1.
abbrev pub after_max : List Entry → ℕ
after_max [] = 0
after_max (e ∷ es) =
    let rest = after_max es in if leb rest e.sequence_number then suc e.sequence_number else rest

abbrev pub larger : ℕ → ℕ → ℕ
larger a b = if leb a b then b else a

unfoldable pub get_next_sequence_number : ℕ → Recorder → ℕ × Recorder
get_next_sequence_number session r =
    let counter = r.sequence_counters session in
    let fresh = larger (after_max (of_session session r.rows)) (after_max (r.buffer session)) in
    let next_seq = if ltb 0 counter then counter else fresh in
    (next_seq, record r { sequence_counters = set session (next_seq + 1) r.sequence_counters })

-- `append_entry` after the validation.
unfoldable pub buffered : ℕ → String → Text → ℕ → Recorder → Entry × Recorder
buffered session speaker text timestamp r =
    let next = get_next_sequence_number session r in
    let entry : Entry = record {
      session_id = session;
      speaker = speaker;
      utterance_text = text;
      timestamp_ms = timestamp;
      sequence_number = next.0;
    } in
    (entry, record next.1 { buffer = set session (r.buffer session ++ (entry ∷ [])) r.buffer })

-- `none` is a TranscriptValidationError.
unfoldable pub append_entry : ℕ → String → Text → ℕ → Recorder → Option (Entry × Recorder)
append_entry session speaker text timestamp r =
    if not (elem speaker ("agent" ∷ "debtor" ∷ []))
    then none
    else if is_empty (strip text)
    then none
    else some (buffered session speaker text timestamp r)

abbrev pub get_transcript : ℕ → Recorder → List Entry
get_transcript session r =
    sorted (λ a b. leb a.sequence_number b.sequence_number) (of_session session r.rows)

abbrev pub get_agent_utterance_count : ℕ → Recorder → ℕ
get_agent_utterance_count session r =
    length (filter (λ e. e.speaker == "agent") (of_session session r.rows))

-- The commit of `entries` and the end of `persist`.
abbrev pub flushed : ℕ → List Entry → Recorder → Recorder
flushed session entries r = record r { rows = r.rows ++ entries; buffer = set session [] r.buffer }

-- The end of `persist`: after an exception the buffer stays.
abbrev pub persisted : ℕ → Result Unit → FallbackStore (List Entry) → Recorder → Recorder
persisted session (Result.value _) store r =
    flushed session (r.buffer session) (record r { fallback_store = store })
persisted session Result.persistence_error store r = record r { fallback_store = store }
persisted session Result.propagated store r = record r { fallback_store = store }
persisted session Result.index_error store r = record r { fallback_store = store }

-- `key` is `str(session_id)`.
unfoldable pub persist : (ℕ → Attempt Unit) → Text → ℕ → Recorder → Result Unit × Recorder
persist commit key session r =
    let entries = r.buffer session in
    if is_empty entries
    then (Result.value tt, r)
    else (let run =
          retry_db_operation commit backoff_delays (some key) (some entries) max_retries
            r.fallback_store in
        (run.result, persisted session run.result run.store r))
