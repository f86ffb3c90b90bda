-- ===== src/Specs.antt =====
-- ingest_bench/specs: the run specification and the site configuration, read from YAML.
pub mod Yaml
pub mod Env
pub mod Blocks
pub mod Run
pub mod Site
pub mod Names
