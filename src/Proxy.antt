-- ===== src/Proxy.antt =====
-- The proxy package: the manager of advertised services, their backend pools and the reverse proxy.
pub mod Backend
pub mod Pool
pub mod Caps
pub mod State
pub mod Manager
pub mod Transport
pub mod Identity
pub mod Invoker
pub mod Goroutine
pub mod Calls
pub mod Alone
