-- ===== src/Docker.antt =====
-- docker/: the discovery of labelled containers of one Docker daemon.
pub mod Watcher
