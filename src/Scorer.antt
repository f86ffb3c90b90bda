-- ===== src/Scorer.antt =====
-- ingest_bench/scorer: what the table holds, measured against the manifest and the publish logs.
pub mod Tally
pub mod Exactness
pub mod Freshness
pub mod Keepup
pub mod Gate
pub mod Snapshots
pub mod Geometry
pub mod Score
