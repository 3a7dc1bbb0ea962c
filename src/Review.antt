-- ===== src/Review.antt =====
-- The review of uploaded scripts: what state an upload is in and what an admin may do with it
-- (app/services/review_service.py), and the rejection and publication of app/api/review.py.
pub mod Status
pub mod Requests
pub mod Table
pub mod Gates
mod Tests
