-- ===== src/AlarmEngine.antt =====
-- alarm-engine/: rules, the evaluator, the store of rules and alarms, the polling loop, the seeding.
pub mod Types
pub mod Evaluator
pub mod Store
pub mod Poll
pub mod Seed
pub mod Start
