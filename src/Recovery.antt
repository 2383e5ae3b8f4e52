-- ===== src/Recovery.antt =====
-- client/internal/recovery: fault handling on the client.
pub mod Breaker
