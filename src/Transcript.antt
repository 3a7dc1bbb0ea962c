-- ===== src/Transcript.antt =====
-- app/services/transcript_manager.py, which records what is said in a call, and
-- app/services/db_retry.py, through which it writes.
pub mod Retry
pub mod Fallback
pub mod Attempts
pub mod Manager
pub mod Numbering
pub mod Steps
pub mod Kept
mod Tests
