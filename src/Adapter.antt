-- ===== src/Adapter.antt =====
-- The adapter around the command-line clients of TLS stacks (adapters/cli/src).
pub mod Config
pub mod Groups
pub mod Args
pub mod Output
pub mod Response
pub mod Stacks
pub mod Run
