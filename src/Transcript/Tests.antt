-- ===== src/Transcript/Tests.antt =====
-- A call of two utterances whose first commit fails.
use cat_backend.Common.{
  ℕ, ◌≡◌, refl, String, [], ◌∷◌, none, some, inl, arith, length, zero, suc, ◌<◌,
}
use cat_backend.Common.Eq.{ℕ-Eq}
use cat_backend.Common.Words.{Text, codes, strip_of, is_space}
use cat_backend.Transcript.Retry.{Attempt, Result, Run, retry_db_operation, get}
use cat_backend.Transcript.Attempts.{Shows, retry_returns, retry_exhausted}
use cat_backend.Transcript.Manager.{
  Entry, Recorder, started, append_entry, buffered, persist, get_transcript, flushed,
  get_next_sequence_number,
}
use cat_backend.Transcript.Numbering.{IsNumbered, recorded}
use cat_backend.Transcript.Steps.{Reach, Reach-IsNumbered, append_step, then_step, done}
use cat_backend.Transcript.Kept.{persist-get_transcript, late_entry_lost}

abbrev empty : Recorder
empty = started []

empty-IsNumbered : (t : ℕ) → IsNumbered t empty
empty-IsNumbered t = record { counts = tt; owned = tt; next = inl refl }

abbrev entry : String → Text → ℕ → Entry
entry speaker text number = record {
  session_id = 7;
  speaker = speaker;
  utterance_text = text;
  timestamp_ms = 10;
  sequence_number = number;
}

-- After one utterance of the agent.
abbrev one_said : Recorder
one_said = (buffered 7 "agent" (codes "Hello") 10 empty).1

one_said_appended :
    append_entry 7 "agent" (codes "Hello") 10 empty
    ≡ some (entry "agent" (codes "Hello") 0, one_said)
unfolding append_entry buffered strip_of is_space get_next_sequence_number
one_said_appended = refl

one_said-Reach : Reach empty one_said
one_said-Reach = then_step done (append_step 7 "agent" (codes "Hello") 10 one_said_appended)

Reach-IsNumbered_example : IsNumbered 7 one_said
Reach-IsNumbered_example = Reach-IsNumbered empty one_said empty-IsNumbered one_said-Reach 7

abbrev second_commits : ℕ → Attempt Unit
second_commits zero = Attempt.failed
second_commits (suc n) = Attempt.returned tt

before_second : (i : ℕ) → i < 1 → second_commits i ≡ Attempt.failed
before_second zero h = refl
before_second (suc i) h = absurd (omega arith)

persist-get_transcript_example :
    ((persist second_commits (codes "7") 7 one_said).0 ≡ Result.value tt)
    × (get_transcript 7 (persist second_commits (codes "7") 7 one_said).1 ≡ recorded 7 one_said)
    × ((persist second_commits (codes "7") 7 one_said).1.buffer 7 ≡ [])
persist-get_transcript_example =
    persist-get_transcript second_commits (codes "7") 7 1 one_said Reach-IsNumbered_example
      before_second refl (omega arith)

late_entry_lost_example :
    ((buffered 7 "debtor" (codes "Hi") 11 one_said).0.sequence_number
      ≡ length (recorded 7 one_said))
    × (recorded 7 (flushed 7 (one_said.buffer 7) (buffered 7 "debtor" (codes "Hi") 11 one_said).1)
        ≡ recorded 7 one_said)
late_entry_lost_example =
    late_entry_lost 7 "debtor" (codes "Hi") 11 one_said Reach-IsNumbered_example

retry_returns_example :
    Shows {D = ℕ} second_commits
      (1 ∷ 2 ∷ [])
      none
      none
      (retry_db_operation second_commits (1 ∷ 2 ∷ []) none none 3 [])
      (Result.value tt)
      2
      (1 ∷ [])
      []
retry_returns_example =
    retry_returns second_commits (1 ∷ 2 ∷ []) none none [] 3 1 tt before_second refl (omega arith)
      (omega arith)

abbrev never_commits : ℕ → Attempt Unit
never_commits n = Attempt.failed

-- Nine follows what was kept of the call before.
abbrev exhausted : Run Unit ℕ
exhausted =
    retry_db_operation never_commits (1 ∷ 2 ∷ []) (some (codes "7")) (some 9) 3
      ((codes "7", 4 ∷ []) ∷ [])

retry_exhausted_example :
    (exhausted.result ≡ Result.persistence_error)
    × (exhausted.attempts ≡ 3)
    × (exhausted.slept ≡ 1 ∷ 2 ∷ [])
    × (get (codes "7") exhausted.store ≡ 4 ∷ 9 ∷ [])
unfolding get
retry_exhausted_example =
    retry_exhausted {D = ℕ} never_commits (1 ∷ 2 ∷ []) (some (codes "7")) (some 9)
      ((codes "7", 4 ∷ []) ∷ []) 3 (codes "7") (λ i h. refl) (omega arith)
