-- ===== src/Voice/Pipeline.antt =====
-- app/services/voice/voice_pipeline.py: a frame of audio through the detector, the buffer, the
-- transcription, the simulated debtor and the speech synthesis. Parameters: `transcribe` and
-- `synthesize` (`none` is whatever they raise), `chat` of the language model, `clock` for the entries
-- of a turn, and `commit` of the database. Closing the WebRTC connection changes nothing here.
use cat_backend.Common.{
  ℕ, ◌+◌, String, Bool, true, false, not, ◌&&◌, List, [], ◌∷◌, ◌++◌, Option, none, some, is_empty,
  if◌then◌else◌,
}
use cat_backend.Common.Eq.{◌==◌, ℕ-Eq}
use cat_backend.Common.Words.{Text, codes, strip}
use cat_backend.Definition.Contract.{ScriptContract}
use cat_backend.Debtor.Mood.{Language}
use cat_backend.Debtor.Phrases.{
  evaluate_escalation_conditions, evaluate_conversation_goal_completion,
}
use cat_backend.Debtor.Simulator.{PersonaContext, Prompt, SimulatorResponse, generate_response}
use cat_backend.Transcript.Retry.{Attempt}
use cat_backend.Transcript.Manager.{Entry, Recorder, append_entry, persist}
use cat_backend.Voice.Vad
use cat_backend.Voice.Vad.{VadProcessor, VadResult, process_frame, is_speech_ended}
use cat_backend.Voice.Buffer
use cat_backend.Voice.Buffer.{AudioBuffer, Frame, flush, append, is_empty_buffer}

pub data Output : Type 0 where
  audio : Frame → Output
  call_end : Text → Option Text → Output

-- `PipelineState` and the parts that the orchestrator holds; `recorder` is its transcript manager.
pub record Pipeline : Type 0 where
  pub session_id : ℕ
  pub is_active : Bool
  pub is_processing : Bool
  pub utterance_count : ℕ
  pub persona : PersonaContext
  pub script_content : Option ScriptContract
  pub vad : VadProcessor
  pub audio_buffer : AudioBuffer
  pub output_queue : List Output
  pub recorder : Recorder

abbrev pub kept : Option (Entry × Recorder) → Recorder → Recorder
kept none r = r
kept (some (e, after)) r = after

-- `append_entry` with its exception caught.
abbrev pub record_entry : String → Text → ℕ → Pipeline → Pipeline
record_entry speaker text timestamp p = record p {
  recorder = kept (append_entry p.session_id speaker text timestamp p.recorder) p.recorder;
}

-- `_output_queue.put` and the count of the utterance.
abbrev pub answered : Output → Pipeline → Pipeline
answered output p = record p {
  output_queue = p.output_queue ++ (output ∷ []);
  utterance_count = p.utterance_count + 1;
}

abbrev pub completion_message : Text
completion_message = codes "Salamat po. Maayos na po ang usapan natin."

module _ (commit : ℕ → Attempt Unit) (key : Text) where
  unfoldable pub teardown : Pipeline → Pipeline
  teardown p = record p {
    is_active = false;
    recorder = (persist commit key p.session_id p.recorder).1;
    output_queue = [];
  }

  module _ (synthesize : Text → Language → Option Frame) where
    -- The audio of an answer is queued, or its synthesis failed.
    abbrev pub spoken : Option Frame → Pipeline → Option Frame × Pipeline
    spoken none p = (none, p)
    spoken (some sound) p = (some sound, answered (audio sound) p)

    -- The call ends with a last line of the debtor.
    abbrev pub ended : Text → Text → Option Text → ℕ → Pipeline → Option Frame × Pipeline
    ended line reason outcome timestamp p =
        let said = record_entry "debtor" line timestamp p in
        let closed = teardown (record said { utterance_count = said.utterance_count + 1 }) in
        (
          synthesize line Language.tl,
          record closed { output_queue = closed.output_queue ++ (call_end reason outcome ∷ []) },
        )

    module _ (lower : Text → Text) (chat : ℕ → Prompt → Option Text) (clock : ℕ → ℕ) where
      abbrev pub generated :
          Option (SimulatorResponse × PersonaContext) → Pipeline → Option Frame × Pipeline
      generated none p = (none, p)
      generated (some (reply, after)) p =
          let text = strip reply.text in
          spoken (synthesize text reply.language)
            (record_entry "debtor" text (clock 1) (record p { persona = after }))

      -- Step 4 and on.
      abbrev pub respond : Text → Pipeline → Option Frame × Pipeline
      respond agent_text p =
          generated (generate_response lower chat p.persona agent_text p.script_content) p

      abbrev pub opened : Text → Pipeline → Option Frame × Pipeline
      opened opening p =
          spoken (synthesize opening Language.tl) (record_entry "debtor" opening (clock 1) p)

      -- Step 3.6: the goal of the script.
      abbrev pub goal_reached : Option Text → Text → Pipeline → Option Frame × Pipeline
      goal_reached none agent_text p = respond agent_text p
      goal_reached (some outcome) agent_text p =
          ended completion_message outcome (some outcome) (clock 1) p

      abbrev pub check_goal : ScriptContract → Text → Pipeline → Option Frame × Pipeline
      check_goal script agent_text p =
          goal_reached
            (evaluate_conversation_goal_completion lower agent_text script.conversation_goal)
            agent_text p

      -- Step 3.6: escalation comes before the goal.
      abbrev pub escalated :
          Option (Text × Bool) → ScriptContract → Text → Pipeline → Option Frame × Pipeline
      escalated none script agent_text p = check_goal script agent_text p
      escalated (some (behavior, ends_call)) script agent_text p =
          if ends_call
          then ended behavior behavior none (clock 1) p
          else check_goal script agent_text p

      abbrev pub scripted : ScriptContract → Text → Pipeline → Option Frame × Pipeline
      scripted script agent_text p =
          if p.utterance_count == 0
          then opened script.opening_response p
          else escalated
              (evaluate_escalation_conditions lower agent_text script.escalation_conditions) script
              agent_text p

      abbrev pub turn : Option ScriptContract → Text → Pipeline → Option Frame × Pipeline
      turn none agent_text p = respond agent_text p
      turn (some script) agent_text p = scripted script agent_text p

      module _ (transcribe : Frame → Option Text) where
        abbrev pub heard : Option Text → Pipeline → Option Frame × Pipeline
        heard none p = (none, p)
        heard (some text) p =
            let agent_text = strip text in
            if is_empty agent_text
            then (none, p)
            else turn p.script_content agent_text (record_entry "agent" agent_text (clock 0) p)

        unfoldable pub process_utterance : Pipeline → Option Frame × Pipeline
        process_utterance p =
            let (pcm_audio, emptied) = flush p.audio_buffer in
            let flushed : Pipeline = record p { audio_buffer = emptied } in
            if is_empty pcm_audio then (none, flushed) else heard (transcribe pcm_audio) flushed

        -- The `try` and its `finally`.
        abbrev pub utterance : Pipeline → Option Frame × Pipeline
        utterance p =
            let (response, after) = process_utterance (record p { is_processing = true }) in
            (
              response,
              record after {
                is_processing = false;
                vad = Vad.reset after.vad;
                audio_buffer = Buffer.reset after.audio_buffer;
              },
            )

        abbrev pub after_append : Option AudioBuffer → Pipeline → Option (Option Frame × Pipeline)
        after_append none p = none
        after_append (some b) p =
            let filled : Pipeline = record p { audio_buffer = b } in
            if is_speech_ended p.vad && not (is_empty_buffer b)
            then some (utterance filled)
            else some (none, filled)

        -- `speech` is the backend's answer on the frame; `none` is the IndexError of an empty buffer
        -- without room.
        unfoldable pub process_audio_frame :
            Frame → Bool → Pipeline → Option (Option Frame × Pipeline)
        process_audio_frame frame speech p =
            let (result, v) = process_frame speech p.vad in
            if not p.is_active
            then some (none, p)
            else after_append
                (if result.is_speech then append frame p.audio_buffer else some p.audio_buffer)
                (record p { vad = v })

abbrev pub get_next_response_audio : Pipeline → Option Output × Pipeline
get_next_response_audio p = elim p.output_queue [
  | [] ↦ (none, p)
  | output ∷ rest ↦ (some output, record p { output_queue = rest })
]
