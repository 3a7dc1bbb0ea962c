-- ===== src/Lib.antt =====
-- A model of the backend of a call-training product: trainees talk to a simulated debtor, and a
-- language model reports on each call against a rubric that an admin has published. Paths are from
-- the root of the repository.
--
-- Rubrics (Rubric.antt). Rubric/Content is the content of a rubric, the records of
--   app/schemas/negotiation_standard.py. Rubric/Validator is
--   app/services/negotiation_standard_validator.py: `validate_standard` collects the issues of a
--   draft. Rubric/Findings is the report of the language model, of app/schemas/rubric_evaluation.py.
--   Rubric/Observation is app/services/rubric_observation_validator.py: `validate_observation`
--   checks a report against a rubric and a transcript. Rubric/Score is
--   app/services/rubric_score_calculator.py: `calculate_rubric_score` scores what the validator
--   returned, and Rubric/Recommendations is `build_rubric_recommendations` of
--   app/services/evaluation_compatibility.py, which reads the score. Each of them has its functions
--   under the source's names; the modules below them hold specifications and proofs.
-- Standards (Standard.antt). app/services/negotiation_standard_service.py keeps a campaign's rubric
--   as a mutable draft and a list of immutable versions (app/models/negotiation_standard.py).
--   Standard/Store has the rows and the edits, Standard/Publish the publication, which calls
--   `validate_standard`, and Standard/Steps the sequences of operations.
-- Scripts (Script.antt). app/services/script_registry.py and app/models/script.py: the scripts of
--   scenarios and their versions, with the version that training calls use.
-- Reviews (Review.antt). app/services/review_service.py derives the state of an uploaded script;
--   `reject_review` and `publish_review` of app/api/review.py act on it, the latter through the
--   registry's `publish`.
-- Events (Event.antt). app/services/event_store.py numbers and replays events,
--   app/services/event_connection_manager.py delivers them, and `emit` of
--   app/services/event_broadcaster.py does both.
-- Script definitions (Definition.antt). Definition/Contract is the contract of app/schemas/script.py,
--   and Definition/Limits is `validate_script` of app/services/script_validator.py with its limits and
--   conflicts.
-- The simulated debtor (Debtor.antt). app/services/debtor_simulator.py: Debtor/Mood has the tone, the
--   emotional state and the language, Debtor/Phrases what of a script applies to a turn, and
--   Debtor/Simulator the answer, `generate_response`, with its retries.
-- Transcripts (Transcript.antt). Transcript/Retry is app/services/db_retry.py, and Transcript/Manager
--   is app/services/transcript_manager.py, which writes through it.
-- Calls (Voice.antt). Voice/Vad, Voice/Buffer and Voice/Pipeline are the files of the same names
--   below app/services/voice (vad, audio_buffer, voice_pipeline): the pipeline sends a frame through
--   the detector and the buffer, and an utterance through the simulated debtor and the transcripts.
-- Sessions (Session.antt). Session/Campaigns and Session/Rows are the rows; Session/Service is
--   app/services/session_service.py, which binds a new session to the active version of the scripts
--   and to the published version of the rubric; Session/Access is
--   app/services/campaign_validation_service.py, app/services/session_access.py and the route
--   `create_session` of app/api/sessions.py.
-- Campaigns (Training.antt). Training/Rows and Training/Service are
--   app/services/campaign_service.py on the rows of app/models/campaign.py and app/models/user.py:
--   the tables that an operation commits, and `notify_update`, what an edit does afterwards to the connections of Event.
-- Limits (Limits.antt). Limits/Requests is app/services/rate_limiter.py and Limits/Uploads is
--   app/services/upload_rate_limiter.py.
-- Common.antt holds equality, lists, sorting, dicts and texts as Python has them.
--
-- An operation of a service is a function from the rows to a result with the rows that it commits;
-- an exception is a value and commits nothing. Row locks make an operation one step. Fresh ids, the
-- clock and the identity of the caller are arguments; where an operation needs an id to be fresh,
-- its theorems say so. Loops over lists are structural, and the loops of a bounded number of attempts
-- recurse on the attempts that are left, so nothing here runs on fuel. Scores are natural numbers, and
-- a `Decimal` is counted in ten-thousandths, which hold every product that the code rounds; Python's
-- integers do not overflow. Times are natural numbers, of seconds or, for uploads, of microseconds. A
-- dict with a default is a function of its keys. A text is a list of code points where the code looks
-- into it.
--
-- Parameters, of which no law is assumed: `casefold` and `lower` of Python's strings, the order of
-- rendered issues, SHA-256 of canonical JSON (`hash`) and the sockets that fail; the language
-- model, the transcription and the synthesis of speech, the backend that tells speech from silence,
-- the outcome of each commit, and an insertion of no rows. A failed commit has stored nothing. The
-- interface `Contract` stands for the parsing and validation of script definitions in the registry;
-- Definition has the validation, with JSON, YAML and the field checks of pydantic as parameters.
--
-- Not modelled: what pydantic checks of texts, audit lines, pages of queries, the texts of prompts
-- and recommendations, the personas that a language model writes, the other routes of app/api/,
-- uploads and their scanners, the clients of speech services, accounts, mail, evaluation,
-- dashboards, reports and seed data. Of what can happen between two awaits of one operation, only
-- an entry appended to a transcript while a persist commits is modelled: an entry appended during
-- an attempt that fails is not, nor a publication while `create_session` waits for the persona,
-- after it has read the versions and before it inserts the row. The request limiter reads the clock
-- before it takes its lock; here the requests come in the order of their times. The category of an
-- event, which the code takes from the event's name, is given beside it.
pub mod Common
pub mod Debtor
pub mod Definition
pub mod Event
pub mod Limits
pub mod Review
pub mod Rubric
pub mod Script
pub mod Session
pub mod Standard
pub mod Training
pub mod Transcript
pub mod Voice
