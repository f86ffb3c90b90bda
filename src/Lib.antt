-- ===== src/Lib.antt =====
-- The scorer, the producer's records, the corpus's frames and manifests, the specifications and
-- the engines' settings of the ingestion benchmark, with the theorems that its measurements rest
-- on. Paths are from the repository's root.
--
-- A producer sends the batches of a corpus to Kafka on a schedule and appends a line for each to
-- its publish log. An engine under test writes the rows to an Iceberg table. The scorer polls the
-- logs and the table, tallies the row ids of every appended file against the corpus's manifest,
-- and at the end judges exactness, freshness and the validity of the run; a gate reads its
-- samples during the run.
--
-- Prelude and Result: shared names, lists and integers over native numbers, sorting, search in
-- lists, floats as the record `Floats`, and exceptions as values.
--
-- Corpus.Frames: ingest_bench/corpus/frames.py. `frame_stream`, `iter_frames` and `string_frames`
-- on lists of bytes; a generator is a `Stream`.
--
-- Corpus.Batch: `BatchRecord` and `closed_form_checksum` of ingest_bench/corpus/generate.py and
-- the constants of ingest_bench/corpus/columns.py.
--
-- Corpus.Verify: `verify_batch` of ingest_bench/corpus/generate.py. The digest, the decompression
-- and the decoders are the record `Codecs`.
--
-- Corpus.Columns: ingest_bench/corpus/columns.py without the reading and the overriding of
-- declarations. `Spaces` is `validate_value_space`, `Build` is `validate_columns` and
-- `build_columns`; the floats of a column are the record `ColumnNumbers`.
--
-- Uri: `join` of ingest_bench/uri.py.
--
-- Corpus.Merge: `merge` and `_sum_partition_truth` of ingest_bench/corpus/merge.py on shards
-- whose documents are read, and `read_manifest` of ingest_bench/corpus/metadata.py.
--
-- Specs: ingest_bench/specs/model.py on parsed documents. `Yaml` has the values and their
-- readers, `Env` is ingest_bench/specs/env.py, `Blocks` and `Run` are `load_run_spec` with its
-- blocks, `Site` is `load_site`, and `Names` is ingest_bench/specs/derive.py with `object_name`
-- of ingest_bench/specs/kubernetes.py.
--
-- Engines: `JavaProperties` is engines/java_properties.py, `Flink` is engines/flink/knobs.py with
-- its knobs, their validation and the settings, `Flink.Sql` its SQL, `Flink.Script` is
-- engines/flink/script.py, `Spark` is engines/spark/knobs.py with its knobs, their validation and
-- the settings, and `Settings` has what the engines share.
--
-- Producer.Pacing: `scheduled_ms` and `select_batches` of ingest_bench/producer/pacing.py.
--
-- Producer.PublishLog: ingest_bench/producer/publish_log.py, on the lines of a log after
-- `json.loads`: `append`, `append_done`, `_trailed`, `shards_done`, `read_all`, `behind_ms`,
-- `emit_times`.
--
-- Producer.Produce: `produce_batch` and `run` of ingest_bench/producer/produce.py, with the
-- client's delivery reports and the outcome of each upload as data.
--
-- Scorer.Tally: the class `BatchTally` of ingest_bench/scorer/tally.py. `numpy.bincount` is the
-- record `Bincount` with its documented results.
--
-- Scorer.Exactness, Scorer.Freshness, Scorer.Keepup and Scorer.Gate: the modules of these names
-- in ingest_bench/scorer/.
--
-- Scorer.Snapshots: ingest_bench/scorer/snapshots.py on a parsed metadata document.
--
-- Scorer.Geometry: ingest_bench/scorer/geometry.py, without the quantiles and the histogram.
--
-- Scorer.Score: ingest_bench/scorer/score.py. `State` is `ScoreState` with its methods, `Inputs`
-- is `_apply_added_files` and `_read_inputs`, `Loop` is `_poll_once`, `_finalize` and `run`.
--
-- Tests: a concrete `Bincount` and a concrete `Floats`, small documents, and runs on small
-- inputs.
--
-- Representation. A prefix `k` of the source, -1 included, is the natural number `k + 1`, named
-- `watermark`; `last_batch` likewise. Times are natural numbers of milliseconds. Sets and
-- dictionaries are lists that are read through `in`. Floats are a parameter: an order, `/`,
-- `round`, `np.percentile` and `max`, with the laws that these have when no value is a NaN. A
-- statement that raises gives `err` with the class of the exception, and the state that it leaves
-- is kept, so that a failed poll is retried from the state at which it failed. Of the loaders of
-- documents, which leave no state, only the class is kept, and a property `Ensures P r` says `P`
-- of the value that `r` returns, if it does not raise. Texts are strings where they are names and
-- keys, and lists of character codes where they are taken apart; letters are those of ASCII. A
-- number in a setting stands for its decimal text.
--
-- What is found outside enters as data: a record `Reads` for each poll holds the logs, the table,
-- whether its metadata and manifests can be read, the outcome of each file's reading, the order
-- in which the concurrent reads complete and whether a snapshot's line could be written; a list
-- of `Poll` is a schedule of turns. `run` on a list that ends before the run does gives `none`.
--
-- Loops. `iter_frames` has a turn for each byte, and each turn takes off four at least. The
-- watermark's loop has a turn for each batch, and each turn passes one. The grid has a turn for
-- each millisecond of the run, and each turn passes one grid step. The chunks of `add_ids` have a
-- turn for each row. A text of `n` characters has at most `n` references to the environment, and
-- any larger number of turns gives the same. The theorems hold of the loops with these numbers of
-- turns, which are part of the definitions.
--
-- Not modelled: JSON and YAML text, Parquet and ORC files, Iceberg's and Kafka's clients,
-- compression, the scorer's artifacts and their upload, log lines, the corpus's random values and
-- their statistics, Kubernetes documents, Spark's job document, the checks of a running job,
-- staging and result collection. Writing of artifacts in a successful poll or at the end is taken
-- to succeed, except that of a snapshot's line.
pub mod Prelude
pub mod Result
pub mod Corpus
pub mod Producer
pub mod Scorer
pub mod Specs
pub mod Engines
pub mod Tests
pub mod Uri
