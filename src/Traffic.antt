-- ===== src/Traffic.antt =====
-- client/internal/traffic: the buckets that limit rates.
pub mod Bucket
pub mod Queue
