-- ===== src/Domain.antt =====
-- Types shared by the API and the worker (crates/pqcas-domain).
pub mod Status
pub mod Jobs
pub mod Models
pub mod Classify
