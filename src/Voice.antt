-- ===== src/Voice.antt =====
-- app/services/voice: what a spoken turn goes through.
pub mod Vad
pub mod Detection
pub mod Buffer
pub mod Window
pub mod Pipeline
pub mod Turns
pub mod Ends
mod Tests
