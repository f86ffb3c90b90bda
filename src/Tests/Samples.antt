-- ===== src/Tests/Samples.antt =====
-- Sample data: a manifest of two batches, its tally, publish records and commits.
use lakehouse_ingest_bench.Prelude.{ℕ, ◌+◌, List, [], ◌∷◌}
use lakehouse_ingest_bench.Corpus.Batch.{BatchRecord, id_block}
use lakehouse_ingest_bench.Producer.PublishLog.{PublishRecord}
use lakehouse_ingest_bench.Scorer.Tally.{BatchTally}
use lakehouse_ingest_bench.Scorer.Freshness.{Observation}

-- Batch 0 has the ids 0 and 1, batch 1 has the first id of its block.
abbrev pub batch_record : (batch offset_ms rows id_min id_max checksum : ℕ) → BatchRecord
batch_record batch offset_ms rows id_min id_max checksum = record {
  batch = batch;
  offset_ms = offset_ms;
  rows = rows;
  id_min = id_min;
  id_max = id_max;
  checksum = checksum;
  encoded_bytes = 64;
  stored_bytes = 32;
  sha256 = "00";
  uri = "s3://corpus/b";
  key_uris = [];
}

abbrev pub manifest : List BatchRecord
manifest = batch_record 0 0 2 0 1 1 ∷ batch_record 1 1_000 1 id_block id_block 35 ∷ []

abbrev pub small_p : ℕ
small_p = 97

-- 2 ** 32 % 97 == 35
abbrev pub tally_of : List ℕ → List ℕ → ℕ → BatchTally
tally_of counts sum_mod watermark = record {
  p = small_p;
  records = manifest;
  expected_rows = 2 ∷ 1 ∷ [];
  expected_checksum = 1 ∷ 35 ∷ [];
  counts = counts;
  sum_mod = sum_mod;
  watermark = watermark;
}

abbrev pub fresh_tally : BatchTally
fresh_tally = tally_of (0 ∷ 0 ∷ []) (0 ∷ 0 ∷ []) 0

abbrev pub published : (batch scheduled_ms first_ack_ms : ℕ) → PublishRecord
published batch scheduled_ms first_ack_ms = record {
  batch = batch;
  scheduled_ms = scheduled_ms;
  first_ack_ms = first_ack_ms;
  last_ack_ms = first_ack_ms + 5;
  rows = 2;
  bytes = 64;
  errors = 0;
}

abbrev pub seen_at : (timestamp_ms watermark : ℕ) → Observation
seen_at timestamp_ms watermark = record {
  timestamp_ms = timestamp_ms;
  first_seen_ms = timestamp_ms + 20;
  watermark = watermark;
}
