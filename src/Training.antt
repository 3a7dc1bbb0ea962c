-- ===== src/Training.antt =====
-- app/services/campaign_service.py: an admin creates, edits and archives training campaigns.
pub mod Rows
pub mod Service
pub mod Counts
pub mod Assigned
pub mod Scopes
pub mod Names
pub mod Edits
pub mod Steps
mod Tests
