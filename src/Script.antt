-- ===== src/Script.antt =====
-- app/services/script_registry.py: the scripts that admins write for scenarios, and their published
-- versions (app/models/script.py).
pub mod Registry
pub mod Rows
pub mod Kept
pub mod Active
pub mod Steps
mod Tests
