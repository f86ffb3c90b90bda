-- ===== src/Producer.antt =====
-- ingest_bench/producer: the replay of a corpus and the log of its acknowledgements.
pub mod PublishLog
pub mod Pacing
pub mod Produce
