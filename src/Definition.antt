-- ===== src/Definition.antt =====
-- Script definitions: the contract of app/schemas/script.py and its validation by
-- app/services/script_validator.py.
pub mod Contract
pub mod Limits
pub mod Fitting
pub mod Exact
mod Tests
