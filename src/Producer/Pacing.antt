-- ===== src/Producer/Pacing.antt =====
-- ingest_bench/producer/pacing.py
pub mod Shards
use lakehouse_ingest_bench.Prelude.Floats.{Floats}
use lakehouse_ingest_bench.Result.{value_error, Result, ok, err}
use lakehouse_ingest_bench.Prelude.{
  ℕ, ◌+◌, ◌*◌, ◌%◌, Bool, true, not, ◌&&◌, ◌||◌, Option, none, some, List, ltb, ◌==◌, if◌then◌else◌,
  keep,
}
use lakehouse_ingest_bench.Corpus.Batch.{BatchRecord}

module _ (fl : Floats) where
  open fl use {Float, le, origin, round_div}

  unfoldable pub scheduled_ms : ℕ → ℕ → Float → Result ℕ
  scheduled_ms epoch_ms offset_ms speed =
      if le speed origin then err value_error else ok (epoch_ms + round_div offset_ms speed)

-- `limit_ms is None or record.offset_ms < limit_ms`, for the limit of `seconds`
abbrev pub within : Option ℕ → BatchRecord → Bool
within none r = true
within (some seconds) r = ltb r.offset_ms (seconds * 1000)

unfoldable pub select_batches : List BatchRecord → ℕ → ℕ → Option ℕ → Result (List BatchRecord)
select_batches records shard shards seconds =
    if ltb shards 1 || not (ltb shard shards)
    then err value_error
    else ok (keep (λ r. r.batch % shards == shard && within seconds r) records)
