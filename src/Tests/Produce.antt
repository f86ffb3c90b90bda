-- ===== src/Tests/Produce.antt =====
-- A producer's run over two batches.
use lakehouse_ingest_bench.Prelude.{ℕ, ◌≡◌, refl, List, [], ◌∷◌, none, some, true, false, ◌+◌}
use lakehouse_ingest_bench.Prelude.Int.{ℤ, pos}
use lakehouse_ingest_bench.Result.{ok, Ensures}
use lakehouse_ingest_bench.Corpus.Frames.{Bytes, Stream, done, yields}
use lakehouse_ingest_bench.Tests.Numbers.{numbers}
use lakehouse_ingest_bench.Tests.Samples.{manifest}
use lakehouse_ingest_bench.Producer.Pacing.{scheduled_ms, select_batches}
use lakehouse_ingest_bench.Specs.Yaml.{refuse_compression_props}
use lakehouse_ingest_bench.Producer.Produce.{
  BatchOutcome, Delivery, Corpus, ProduceArgs, send, produce_batch, produce, prepare, produce_from,
  produce_one, upload_between, upload_last,
}
use lakehouse_ingest_bench.Producer.Produce.Complete.{Tells, produce-Tells}
use lakehouse_ingest_bench.Producer.Produce.Reports.{IsOutcome, produce_batch-IsOutcome}

abbrev report : ℕ → Delivery
report now_ms = record { failed = false; now_ms = now_ms }

-- The second of two rows is not delivered.
abbrev reports : List Delivery
reports = report 40 ∷ record { failed = true; now_ms = 50 } ∷ []

abbrev rows : Stream Bytes
rows = yields (1 ∷ 2 ∷ []) (yields (3 ∷ []) done)

abbrev outcome : BatchOutcome
outcome = record { first_ack_ms = 40; last_ack_ms = 40; rows = 2; bytes = 5; errors = 1 }

sent : produce_batch (0 ∷ []) rows (some (yields [] (yields [] done))) reports ≡ ok outcome
unfolding produce_batch send
sent = refl

produce_batch-IsOutcome_example :
    Ensures
      (IsOutcome (0 ∷ []) rows (some (yields [] (yields [] done))) reports)
      (produce_batch (0 ∷ []) rows (some (yields [] (yields [] done))) reports)
produce_batch-IsOutcome_example =
    produce_batch-IsOutcome (0 ∷ []) rows (some (yields [] (yields [] done))) reports

abbrev args : ProduceArgs ℤ
args = record {
  epoch_ms = 1_000;
  speed = pos 1_000;
  shard = 0;
  shards = 1;
  seconds = none;
  key_column = none;
  value_prefix = [];
  has_upload_prefix = true;
  kafka_props = ("client.id", "bench") ∷ [];
}

abbrev corpus : Corpus
corpus = record {
  key_columns = "entity" ∷ [];
  batch_frames = λ reference. ok (yields (7 ∷ []) done);
  producer_factory = ok tt;
  reports_of = λ b. report (b.offset_ms + 1_005) ∷ [];
  recorded_ms = λ b. b.offset_ms + 1_010;
  upload_after = λ b. ok tt;
  last_upload = ok tt;
}

prepared : prepare numbers args corpus manifest ≡ ok manifest
unfolding select_batches prepare refuse_compression_props
prepared = refl

-- The log of this run counts as complete, and it returns 0.
returned : (produce numbers args corpus manifest []).0 ≡ ok 0
unfolding produce produce_from produce_one produce_batch send scheduled_ms upload_between
    upload_last prepare select_batches refuse_compression_props
returned = refl

produce-Tells_example :
    Tells numbers args corpus manifest 0 [] (produce numbers args corpus manifest [])
produce-Tells_example = produce-Tells numbers args corpus manifest manifest prepared
