-- ===== src/Relay.antt =====
-- Relays: their names and the choice among them.
pub mod Name
