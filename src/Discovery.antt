-- ===== src/Discovery.antt =====
-- What the discovery watchers of docker, ecs and lambda share.
pub mod Registrar
pub mod Tracker
pub mod Paging
