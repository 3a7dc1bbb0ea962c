-- ===== src/Session.antt =====
-- app/services/session_service.py and what decides who may start, see and end a training session.
pub mod Campaigns
pub mod Rows
pub mod Service
pub mod Access
pub mod Advances
pub mod Lifecycle
pub mod Pins
pub mod Permits
mod Tests
