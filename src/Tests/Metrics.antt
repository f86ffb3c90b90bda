-- ===== src/Tests/Metrics.antt =====
-- Runs of the lag series, the freshness verdict, the skew flag and the gate.
use lakehouse_ingest_bench.Prelude.{
  ℕ, ◌+◌, ◌*◌, ◌≡◌, ◌≢◌, ◌↔◌, refl, List, [], ◌∷◌, map, Option, none, some, last?, arith, true,
  false, All,
}
use lakehouse_ingest_bench.Prelude.Int.{ℤ, pos}
use lakehouse_ingest_bench.Prelude.Sorting.{insert, sort_by}
use lakehouse_ingest_bench.Result.{ok}
use lakehouse_ingest_bench.Tests.Samples.{seen_at}
use lakehouse_ingest_bench.Tests.Numbers.{numbers}
use lakehouse_ingest_bench.Scorer.Freshness.{
  Observation, LagRow, timestamp, unknown, steps_by, grid_from, grid_points, advance_steps, lag_row,
  series_from, series_by, lag_series, missing_emit_prefixes, distinct, lags_of, quantiles_of,
  lag_quantiles, least, observation_lags_s, min_observation_lag_s, clock_skew_suspected,
  FreshnessResult, freshness_result,
}
use lakehouse_ingest_bench.Scorer.Freshness.Series.{
  Spaced, grid_points-Spaced, chosen_time, latest, lag_series-latest,
}
use lakehouse_ingest_bench.Scorer.Freshness.Skew.{InOrder, clock_skew-InOrder}
use lakehouse_ingest_bench.Scorer.Freshness.Verdict.{IsFresh, freshness_result-IsFresh}
use lakehouse_ingest_bench.Scorer.Keepup.{KeepupSample}
use lakehouse_ingest_bench.Scorer.Gate.{gate_verdict}
use lakehouse_ingest_bench.Scorer.Gate.Sound.{IsPass, IsHealthy, gate_verdict-IsPass_iff}

grid_points-Spaced_example :
    Spaced 1_000 1_000 (grid_points 1_000 3_500 1_000)
    × (last? (grid_points 1_000 3_500 1_000) ≡ some 3_500)
grid_points-Spaced_example = grid_points-Spaced 1_000 3_500 1_000 (omega arith) (omega arith)

-- Two commits, listed late one first, and the emit times of their batches.
abbrev commits : List Observation
commits = seen_at 2_500 2 ∷ seen_at 1_500 1 ∷ []

abbrev in_turn : List Observation
in_turn = seen_at 1_500 1 ∷ seen_at 2_500 2 ∷ []

abbrev emitted : ℕ → Option ℕ
emitted b = some (1_200 + b * 1_000)

timestamp_known : timestamp ≢ unknown
timestamp_known h = cc h

lag_series-latest_example :
    lag_series numbers commits emitted 1_000 3_500 1_000 timestamp
    ≡ ok (
        map
          (λ at_ms.
            lag_row numbers emitted 1_000 at_ms
              (latest at_ms none (steps_by (chosen_time timestamp) commits)))
          (grid_points 1_000 3_500 1_000))
lag_series-latest_example =
    lag_series-latest numbers commits emitted 1_000 3_500 1_000 timestamp timestamp_known
      (omega arith)

clock_skew-InOrder_example :
    (clock_skew_suspected numbers commits emitted ≡ false) ↔ All (InOrder emitted) commits
clock_skew-InOrder_example = clock_skew-InOrder numbers commits emitted

abbrev fresh_run : FreshnessResult ℤ
fresh_run = record {
  window =
      some (record { p50_s = pos 1_300; p95_s = pos 1_300; p99_s = pos 1_300; max_s = pos 1_300 });
  full =
      some (record { p50_s = pos 1_300; p95_s = pos 1_300; p99_s = pos 1_300; max_s = pos 1_300 });
  verdict = true;
  drained = true;
  bound_s = pos 1_500;
  max_bound_s = pos 3_000;
  warmup_s = 1;
  clock = timestamp;
  clock_skew_suspected = false;
  min_lag_s = some (pos 300);
  missing_emit_prefixes = [];
}

measured :
    freshness_result numbers in_turn emitted 1_000 3_500 2 1 (pos 1_500) 1_000 timestamp
    ≡ ok fresh_run
unfolding freshness_result lag_series series_by series_from lag_row advance_steps grid_points
    grid_from sort_by insert missing_emit_prefixes distinct lag_quantiles lags_of quantiles_of
    clock_skew_suspected min_observation_lag_s observation_lags_s least
measured = refl

freshness_result-IsFresh_example :
    (series : List (LagRow ℤ)) × (lag_series numbers in_turn emitted 1_000 3_500 1_000 timestamp
      ≡ ok series)
    × IsFresh numbers in_turn 2 (pos 1_500) (1_000 + 1 * 1_000) series
freshness_result-IsFresh_example =
    freshness_result-IsFresh numbers in_turn emitted 1_000 3_500 2 1 (pos 1_500) 1_000 timestamp
      fresh_run measured refl

abbrev sample : (at_ms backlog_rows : ℕ) → KeepupSample ℤ
sample at_ms backlog_rows = record {
  at_ms = at_ms;
  offered_rows = backlog_rows + 10;
  committed_rows = 10;
  backlog_rows = backlog_rows;
  offered_rate = none;
  committed_rate = none;
}

abbrev samples : List (KeepupSample ℤ)
samples = sample 1_500 4 ∷ sample 2_500 9 ∷ sample 3_500 6 ∷ []

gate_verdict-IsPass_iff_example :
    IsPass (gate_verdict numbers false (some (pos 800)) samples (pos 1_500) 1 1 4_000 1_000 60)
    ↔ IsHealthy numbers false (some (pos 800)) samples (pos 1_500) 1 1 4_000 1_000 60
gate_verdict-IsPass_iff_example =
    gate_verdict-IsPass_iff numbers false (some (pos 800)) samples (pos 1_500) 1 1 4_000 1_000 60
