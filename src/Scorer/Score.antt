-- ===== src/Scorer/Score.antt =====
-- ingest_bench/scorer/score.py: the scoring loop. `State` has the records, `Inputs` a poll's reads,
-- `Loop` the poll, the final metrics and the loop; the other children prove.
pub mod SameLoop
pub mod State
pub mod Inputs
pub mod Loop
pub mod Pending
pub mod ExactlyOnce
pub mod Returns
pub mod Ending
pub mod Failing
