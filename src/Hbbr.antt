-- ===== src/Hbbr.antt =====
-- src/relay_server.rs: the relay server hbbr.
pub mod Access
pub mod Pairing
pub mod Session
