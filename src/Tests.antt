-- ===== src/Tests.antt =====
-- Runs of the definitions on concrete inputs, and the theorems applied to them.
mod Adapter
mod Documents
mod Cavp
mod Domain
mod Worker
mod Kem
mod Api
mod Laboratory
mod Handlers
mod Seed
mod Process
mod System
mod Settings
mod Tasks
