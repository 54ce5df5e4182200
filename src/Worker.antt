-- ===== src/Worker.antt =====
-- The worker (services/worker).
pub mod World
pub mod Store
pub mod Adapters
pub mod Rules
pub mod Kem
pub mod Probe
pub mod Closing
pub mod Stream
pub mod Delivery
pub mod Settings
pub mod Process
pub mod Tasks
