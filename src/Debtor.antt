-- ===== src/Debtor.antt =====
-- app/services/debtor_simulator.py: the simulated debtor of a training call.
pub mod Mood
pub mod Phrases
pub mod Simulator
pub mod Safe
mod Tests
