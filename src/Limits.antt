-- ===== src/Limits.antt =====
-- Limits on how often something is asked for: app/services/rate_limiter.py and
-- app/services/upload_rate_limiter.py.
pub mod Requests
pub mod Sliding
pub mod Uploads
pub mod Waiting
mod Tests
