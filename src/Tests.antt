-- ===== src/Tests.antt =====
-- Runs of the model at concrete inputs, and the theorems applied at them.
pub mod Fixtures
pub mod Intake
pub mod Engine
pub mod Server
pub mod Seeding
pub mod Desktop
pub mod Client
pub mod Gateway
pub mod Plant
pub mod Instancing
pub mod Session
pub mod Starting
