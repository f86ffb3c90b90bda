-- ===== src/Tests.antt =====
-- Concrete instances of what the model leaves open, and runs of the model on small inputs.
pub mod Numpy
pub mod Numbers
pub mod Samples
pub mod Corpus
pub mod Producer
pub mod Tally
pub mod Metrics
pub mod Score
pub mod Run
pub mod Geometry
pub mod Produce
pub mod Documents
pub mod Engines
pub mod Shards
pub mod Schema
