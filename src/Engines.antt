-- ===== src/Engines.antt =====
-- engines: the knobs of the managed engines, and the settings and properties rendered from them.
pub mod Settings
pub mod JavaProperties
pub mod Flink
pub mod Spark
