-- ===== src/Ecs.antt =====
-- The ecs package: discovery of labelled tasks by polling the ECS API.
pub mod Types
pub mod Resolve
pub mod Cache
pub mod Account
pub mod Registry
pub mod Tasks
pub mod Watcher
