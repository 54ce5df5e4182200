-- ===== src/Worker/Kem.antt =====
-- The KEM DEMO runs of the worker (services/worker/src/kem.rs).
pub mod Order
pub mod Console
pub mod Texts
pub mod Run
