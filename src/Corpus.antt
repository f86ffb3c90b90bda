-- ===== src/Corpus.antt =====
-- ingest_bench/corpus: the stored form of a corpus and the checks made on it.
pub mod Frames
pub mod Batch
pub mod Verify
pub mod Merge
pub mod Columns
