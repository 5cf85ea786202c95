-- ===== src/Certs.antt =====
-- certsync/certsync.go: the configuration of a syncer, the certificate files it mirrors, and the calls that it
-- makes of the S3 client. The restore, the sweep and the event loop are the children's.
pub mod Names
pub mod Keys
pub mod Hydrate
pub mod Contract
pub mod Sweep
pub mod Loop
pub mod RoundTrip
