-- ===== src/Lambda.antt =====
-- lambda/: the discovery of tagged functions in one account and region.
pub mod Account
pub mod Function
pub mod Watcher
