-- ===== src/Cavp.antt =====
-- Grading of submitted ACVP results (crates/cavp-validate).
pub mod Params
pub mod Report
pub mod Grade
pub mod Fields
pub mod Decisions
pub mod Cases
pub mod Validation
pub mod Marks
