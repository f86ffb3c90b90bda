-- ===== src/Tests/Producer.antt =====
-- Runs of the producer's selection and of the publish logs.
use lakehouse_ingest_bench.Prelude.{
  ℕ, ◌≡◌, ◌↔◌, refl, List, [], ◌∷◌, ◌++◌, some, arith, All, sum_by, range, keep, true, false,
}
use lakehouse_ingest_bench.Prelude.Int.{pos, ◌≤ℤ◌}
use lakehouse_ingest_bench.Result.{ok}
use lakehouse_ingest_bench.Tests.Samples.{manifest, published}
use lakehouse_ingest_bench.Prelude.Sorting.{sort_by}
use lakehouse_ingest_bench.Corpus.Batch.{BatchRecord}
use lakehouse_ingest_bench.Producer.Pacing.{within, select_batches}
use lakehouse_ingest_bench.Producer.Pacing.Shards.{sent, shards_share}
use lakehouse_ingest_bench.Producer.PublishLog.{
  PublishRecord, Text, log_name_prefix, log_name_suffix, blank, entry, trailer, LogFile, log_names,
  parse, claim, read_logs, read_all, append, append_done, trailed, behind_ms,
}
use lakehouse_ingest_bench.Producer.PublishLog.ReadAll.{entries, IsAscending, read_all-records}
use lakehouse_ingest_bench.Producer.PublishLog.Lag.{OnTime, behind_ms_iff, trailed-append}

abbrev rows_of : BatchRecord → ℕ
rows_of r = r.rows

shards_share_example :
    sum_by (λ shard. sent rows_of (select_batches manifest shard 2 (some 1))) (range 0 2)
    ≡ sum_by rows_of (keep (within (some 1)) manifest)
shards_share_example = shards_share rows_of 2 (omega arith) (some 1) manifest

abbrev pub late : PublishRecord
late = published 1 1_000 1_007

abbrev pub early : PublishRecord
early = published 0 500 503

abbrev pub log_name : ℕ → Text
log_name digit = log_name_prefix ++ digit ∷ log_name_suffix

-- Two shards, the second one's log listed first, and a file that is no log.
abbrev listing : List LogFile
listing =
    record { name = log_name b'1'; lines = entry late ∷ trailer 1 1 ∷ [] }
    ∷ record { name = b'n' ∷ b'o' ∷ []; lines = entry late ∷ [] }
    ∷ record { name = log_name b'0'; lines = entry early ∷ blank ∷ [] }
    ∷ []

read_both : read_all (some listing) ≡ ok (early ∷ late ∷ [])
unfolding read_all read_logs parse claim log_names sort_by
read_both = refl

read_all-records_example :
    IsAscending (early ∷ late ∷ [])
    × ((f : PublishRecord → ℕ)
        → sum_by f (early ∷ late ∷ [])
          ≡ sum_by (λ (file : LogFile). sum_by f (entries file.lines)) (log_names listing))
read_all-records_example = read_all-records listing (early ∷ late ∷ []) read_both

behind_ms_iff_example :
    (behind_ms (early ∷ late ∷ []) ≤ℤ pos 7) ↔ All (OnTime 7) (early ∷ late ∷ [])
behind_ms_iff_example = behind_ms_iff 7 (early ∷ late ∷ [])

trailed-append_example :
    (trailed (append_done (entry early ∷ blank ∷ []) 0 1) ≡ ok true)
    × (trailed (append (entry early ∷ blank ∷ []) late) ≡ ok false)
trailed-append_example = trailed-append (entry early ∷ blank ∷ []) 0 1 late
