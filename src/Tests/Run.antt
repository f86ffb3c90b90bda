-- ===== src/Tests/Run.antt =====
-- A whole run of the scorer: one poll finds the ended offer and the one commit.
use lakehouse_ingest_bench.Prelude.{
  ◌≡◌, refl, List, [], ◌∷◌, Option, none, some, map, true, false, ◌⊎◌,
}
use lakehouse_ingest_bench.Prelude.Int.{ℤ, pos}
use lakehouse_ingest_bench.Prelude.Sorting.{insert, sort_by}
use lakehouse_ingest_bench.Result.{ok, err, read_error}
use lakehouse_ingest_bench.Tests.Numpy.{numpy}
use lakehouse_ingest_bench.Tests.Numbers.{numbers}
use lakehouse_ingest_bench.Tests.Producer.{log_name, early, late}
use lakehouse_ingest_bench.Tests.Score.{content, two_files, started}
use lakehouse_ingest_bench.Producer.PublishLog.{
  LogFile, entry, trailer, trailed_back, trailed, log_names, shard_index, done_from, shards_done,
  parse, claim, read_logs, read_all, behind_ms, emit_times,
}
use lakehouse_ingest_bench.Scorer.Tally.{
  covered, advance, add_chunk, add_chunks, add_ids, committed_rows, mismatched, violations_from,
  violations,
}
use lakehouse_ingest_bench.Scorer.Exactness.{scored, summarize, exactness_result}
use lakehouse_ingest_bench.Scorer.Freshness.{series_by, lag_series, freshness_result}
use lakehouse_ingest_bench.Scorer.Snapshots.{
  Snapshot, append, AddedFile, added, rows, check_table_schema, snapshots_in_order, snapshot_by_id,
  added_from, added_files,
}
use lakehouse_ingest_bench.Scorer.Score.State.{
  ScoreArgs, ScoreState, offered_rows, last_batch, is_producer_bound, run_valid,
}
use lakehouse_ingest_bench.Scorer.Score.Inputs.{
  present, check_done, offer_ended, load_table, apply_reads, apply_added_files, tally_snapshot,
  finish_snapshot, read_snapshot, read_snapshots, read_inputs, failed,
}
use lakehouse_ingest_bench.Scorer.Score.Failing.{Works, Fails, poll_once-Works_or_Fails}
use lakehouse_ingest_bench.Scorer.Score.Loop.{
  Poll, poll_once, conclude, explain, finalize, run_polls, run,
}
use lakehouse_ingest_bench.Scorer.Score.Ending.{Concludes, run-Concludes}

abbrev args : ScoreArgs ℤ
args = record {
  epoch_ms = 1_000;
  idle_stop_ms = 60_000;
  warmup_s = 0;
  freshness_bound_s = pos 10_000;
  behind_max_ms = 100;
  expected_publish_shards = 1;
  engine_owned = false;
  columns = [];
  batch_count = 2;
}

abbrev logs : Option (List LogFile)
logs =
    some (record { name = log_name b'0'; lines = entry early ∷ entry late ∷ trailer 0 2 ∷ [] } ∷ [])

abbrev pub commit : Snapshot
commit = record {
  snapshot_id = 7;
  parent_id = none;
  sequence_number = some 1;
  timestamp_ms = 1_400;
  operation = some append;
  manifests =
      record {
        added_snapshot_id = some 7;
        entries =
            map
              (λ (f : AddedFile). record {
                status = added;
                snapshot_id = some 7;
                data_file = record {
                  content = rows;
                  path = f.path;
                  file_format = "PARQUET";
                  record_count = f.record_count;
                  size_bytes = f.size_bytes;
                };
              })
              two_files;
      }
      ∷ [];
}

abbrev poll : Poll
poll = record {
  reads = record {
    logs_for_done = ok logs;
    logs_for_records = ok logs;
    metadata_read = ok tt;
    manifests_read = λ id. ok tt;
    table = present [] (commit ∷ []);
    first_seen_ms = 2_000;
    read_id_column = λ f. ok (content f.path);
    completion = λ files. files;
    line_written = λ snapshot_id. true;
  };
  at_ms = 2_100;
  new_ms = 2_100;
  check_ms = 2_200;
  end_ms = 2_300;
}

abbrev final : ScoreState ℤ
final = (run numbers numpy args (poll ∷ []) started).1

ends : run numbers numpy args (poll ∷ []) started ≡ (ok (some 0), final)
unfolding run run_polls poll_once finalize conclude explain read_inputs read_snapshots read_snapshot
    finish_snapshot tally_snapshot apply_added_files apply_reads load_table offer_ended check_done
    last_batch is_producer_bound run_valid offered_rows snapshots_in_order snapshot_by_id added_from
    added_files check_table_schema freshness_result lag_series series_by exactness_result scored
    summarize violations violations_from mismatched committed_rows add_ids add_chunks add_chunk
    advance covered read_all read_logs claim parse shards_done done_from shard_index log_names
    trailed trailed_back sort_by insert behind_ms emit_times
ends = refl

run-Concludes_example : Concludes numbers numpy args 0 final
run-Concludes_example = run-Concludes numbers numpy args (poll ∷ []) started final 0 ends

-- A table that cannot be loaded, after four failures in a row.
abbrev lost : Poll
lost = record poll { reads = record poll.reads { table = failed } }

abbrev fourth : ScoreState ℤ
fourth = record started { read_failures = 4 }

fifth_raises : (poll_once numbers numpy args lost fourth).0 ≡ err read_error
unfolding poll_once read_inputs load_table offer_ended check_done read_all read_logs claim parse
    shards_done done_from shard_index log_names trailed trailed_back
fifth_raises = refl

poll_once-Works_or_Fails_example :
    Works numbers numpy args lost fourth ⊎ Fails numbers numpy args lost fourth
poll_once-Works_or_Fails_example = poll_once-Works_or_Fails numbers numpy args lost fourth
