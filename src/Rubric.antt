-- ===== src/Rubric.antt =====
-- Rubrics: their content (app/schemas/negotiation_standard.py), what the model may say of a call
-- (app/schemas/rubric_evaluation.py), and the pure code that checks and scores both
-- (app/services/negotiation_standard_validator.py, rubric_observation_validator.py,
-- rubric_score_calculator.py, evaluation_compatibility.py).
pub mod Content
pub mod Findings
pub mod Observation
pub mod Recommendations
pub mod Score
mod Tests
pub mod Validator
