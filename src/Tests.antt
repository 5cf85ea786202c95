-- ===== src/Tests.antt =====
-- Runs of the program at concrete inputs.
mod Manager
mod Requests
mod Registrar
mod Cluster
mod Ecs
mod Lambda
mod Adapter
mod Certs
mod CertStore
mod Docker
mod Startup
mod Status
