-- ===== src/Producer/Produce.antt =====
-- `produce_batch` and `run` of ingest_bench/producer/produce.py. The Kafka client enters as the
-- delivery reports that it makes for a batch; a full queue is retried until it takes the value, so
-- nothing but the reports comes back. The clock's sleeps, the progress lines and the content of the
-- client's configuration are not modelled.
pub mod Complete
pub mod Reports
use lakehouse_ingest_bench.Prelude.{
  ℕ, suc, ◌+◌, String, Bool, false, not, ◌&&◌, Option, none, some, List, [], ◌∷◌, ◌==◌, leb,
  if◌then◌else◌, length,
}
use lakehouse_ingest_bench.Result.{
  Result, ok, err, value_error, runtime_error, ◌>>=◌, ◌>>◌, refuse, from_some,
}
use lakehouse_ingest_bench.Prelude.Strings.{among, lookup}
use lakehouse_ingest_bench.Specs.Yaml.{refuse_compression_props}
use lakehouse_ingest_bench.Prelude.Floats.{Floats}
use lakehouse_ingest_bench.Corpus.Batch.{BatchRecord}
use lakehouse_ingest_bench.Corpus.Frames.{Bytes, Stream, done, raised, yields}
use lakehouse_ingest_bench.Producer.Pacing.{scheduled_ms, select_batches}
use lakehouse_ingest_bench.Producer.PublishLog.{PublishRecord, Line, append, append_done}

pub record BatchOutcome : Type 0 where
  pub first_ack_ms : ℕ
  pub last_ack_ms : ℕ
  pub rows : ℕ
  pub bytes : ℕ
  pub errors : ℕ

-- A delivery report, and the clock when it is served.
pub record Delivery : Type 0 where
  pub failed : Bool
  pub now_ms : ℕ

-- The `state` of a batch.
pub record Acks : Type 0 where
  pub acked : ℕ
  pub errors : ℕ
  pub first : ℕ
  pub last : ℕ

abbrev pub on_delivery : Acks → Delivery → Acks
on_delivery a d = if d.failed then record a { errors = a.errors + 1 } else record a {
  acked = a.acked + 1;
  first = if a.first == 0 then d.now_ms else a.first;
  last = d.now_ms;
}

abbrev pub deliver : Acks → List Delivery → Acks
deliver a [] = a
deliver a (d ∷ reports) = deliver (on_delivery a d) reports

abbrev pub no_acks : Acks
no_acks = record { acked = 0; errors = 0; first = 0; last = 0 }

-- The loop over the frames: the rows and the bytes sent. A key is taken for each frame.
unfoldable pub send : Bytes → Stream Bytes → Option (Stream Bytes) → Result (ℕ × ℕ)
send value_prefix (raised e) keys = err e
send value_prefix done none = ok (0, 0)
send value_prefix done (some done) = ok (0, 0)
send value_prefix done (some (raised e)) = err e
send value_prefix done (some (yields key keys)) = err value_error
send value_prefix (yields frame frames) none = do
  rest ← send value_prefix frames none
  ok (suc rest.0, length value_prefix + length frame + rest.1)
send value_prefix (yields frame frames) (some done) = err value_error
send value_prefix (yields frame frames) (some (raised e)) = err e
send value_prefix (yields frame frames) (some (yields key keys)) = do
  rest ← send value_prefix frames (some keys)
  ok (suc rest.0, length value_prefix + length frame + rest.1)

unfoldable pub produce_batch :
    Bytes → Stream Bytes → Option (Stream Bytes) → List Delivery → Result BatchOutcome
produce_batch value_prefix frames keys reports = do
  sent ← send value_prefix frames keys
  let acks = deliver no_acks reports
  if not (acks.acked + acks.errors == sent.0)
      then err runtime_error
      else ok (record {
        first_ack_ms = acks.first;
        last_ack_ms = acks.last;
        rows = sent.0;
        bytes = sent.1;
        errors = acks.errors;
      })

-- What a run finds outside: the corpus's key columns, the frames behind a reference, whether the client
-- can be made, the reports for a batch, the clock when a batch is recorded, and what becomes of an upload
-- after a batch and of the last one.
pub record Corpus : Type 0 where
  pub key_columns : List String
  pub batch_frames : String → Result (Stream Bytes)
  pub producer_factory : Result (Unit {0})
  pub reports_of : BatchRecord → List Delivery
  pub recorded_ms : BatchRecord → ℕ
  pub upload_after : BatchRecord → Result (Unit {0})
  pub last_upload : Result (Unit {0})

pub record ProduceArgs (F : Type 0) : Type 0 where
  pub epoch_ms : ℕ
  pub speed : F
  pub shard : ℕ
  pub shards : ℕ
  pub seconds : Option ℕ
  pub key_column : Option String
  pub value_prefix : Bytes
  pub has_upload_prefix : Bool
  pub kafka_props : List (String × String)

abbrev pub upload_interval_ms : ℕ
upload_interval_ms = 5_000

abbrev pub record_of : BatchRecord → ℕ → BatchOutcome → PublishRecord
record_of b due_ms outcome = record {
  batch = b.batch;
  scheduled_ms = due_ms;
  first_ack_ms = outcome.first_ack_ms;
  last_ack_ms = outcome.last_ack_ms;
  rows = outcome.rows;
  bytes = outcome.bytes;
  errors = outcome.errors;
}

module _ (fl : Floats) (args : ProduceArgs fl.Float) (corpus : Corpus) where
  abbrev pub keys_of : Option String → BatchRecord → Result (Option (Stream Bytes))
  keys_of none b = ok none
  keys_of (some column) b = do
    reference ← from_some (lookup column b.key_uris)
    keys ← corpus.batch_frames reference
    ok (some keys)

  -- One batch, due and sent.
  unfoldable pub produce_one : BatchRecord → Result PublishRecord
  produce_one b = do
    due_ms ← scheduled_ms fl args.epoch_ms b.offset_ms args.speed
    keys ← keys_of args.key_column b
    frames ← corpus.batch_frames b.uri
    outcome ← produce_batch args.value_prefix frames keys (corpus.reports_of b)
    ok (record_of b due_ms outcome)

  abbrev pub is_upload_due : BatchRecord → ℕ → Bool
  is_upload_due b next_upload_ms =
      args.has_upload_prefix && leb next_upload_ms (corpus.recorded_ms b)

  -- The upload between batches, and when the next is due.
  unfoldable pub upload_between : BatchRecord → ℕ → Result ℕ
  upload_between b next_upload_ms =
      if is_upload_due b next_upload_ms
      then (do corpus.upload_after b; ok (corpus.recorded_ms b + upload_interval_ms))
      else ok next_upload_ms

  -- The upload before a return.
  unfoldable pub upload_last : ℕ → Result ℕ
  upload_last code = if args.has_upload_prefix then (do corpus.last_upload; ok code) else ok code

  -- The loop: the exit code, and the publish log.
  unfoldable pub produce_from : List BatchRecord → ℕ → ℕ → List Line → Result ℕ × List Line
  unfolding produce_one upload_between upload_last
  produce_from [] batches next_upload_ms log = (upload_last 0, append_done log args.shard batches)
  produce_from (b ∷ selected) batches next_upload_ms log = elim (produce_one b) [
    | err e ↦ (err e, log)
    | ok r ↦ elim (upload_between b next_upload_ms) [
      | err e ↦ (err e, append log r)
      | ok next ↦
          let rest = produce_from selected (batches + 1) next (append log r) in
          if r.errors == 0 then rest else (upload_last 1, append log r)
    ]
  ]

  -- if args.key_column is not None and args.key_column not in meta.key_columns
  abbrev pub lacks_key_column : Option String → Bool
  lacks_key_column none = false
  lacks_key_column (some column) = not (among column corpus.key_columns)

  -- What the run selects before it sends, or raises.
  unfoldable pub prepare : List BatchRecord → Result (List BatchRecord)
  prepare manifest = do
    refuse (lacks_key_column args.key_column)
    selected ← select_batches manifest args.shard args.shards args.seconds
    refuse_compression_props args.kafka_props
    corpus.producer_factory
    ok selected

  unfoldable pub produce : List BatchRecord → List Line → Result ℕ × List Line
  unfolding prepare produce_from
  produce manifest log = elim (prepare manifest) [
    | err e ↦ (err e, log)
    | ok selected ↦ produce_from selected 0 0 log
  ]
