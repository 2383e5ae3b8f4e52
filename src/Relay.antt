-- ===== src/Relay.antt =====
-- client/internal/relay
pub mod Balance
mod Tests
