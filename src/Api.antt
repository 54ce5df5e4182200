-- ===== src/Api.antt =====
-- The routes of the API (services/api/src/routes).
pub mod Errors
pub mod Database
pub mod Outcome
pub mod Upsert
pub mod Seed
pub mod Cavp
pub mod Subtasks
pub mod KemRuns
pub mod Tests
pub mod Reading
pub mod Catalog
pub mod Health
pub mod Live
pub mod Selection
pub mod Grid
pub mod Creation
