-- ===== src/Standard.antt =====
-- app/services/negotiation_standard_service.py, on the rows of one campaign: its standard, the
-- versions of that standard and the ids that sessions are pinned to. Every query of the service
-- selects by the campaign or by its standard, and a campaign has one standard at most (the unique
-- `campaign_id` of app/models/negotiation_standard.py). An operation that raises has committed
-- nothing, so its result carries no store.
pub mod Store
pub mod Publish
pub mod Invariant
pub mod Edits
pub mod Publication
pub mod Steps
pub mod Revert
mod Tests
