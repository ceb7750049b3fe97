-- ===== src/Api.antt =====
-- api/: the REST and WebSocket server over the database.
pub mod DeviceService
pub mod RuleService
pub mod Polling
pub mod Routes
pub mod Broadcaster
pub mod Accept
pub mod GrpcServer
pub mod Start
pub mod Strangers
