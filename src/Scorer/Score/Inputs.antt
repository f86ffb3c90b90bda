-- ===== src/Scorer/Score/Inputs.antt =====
-- `_apply_added_files` and `_read_inputs`: one reading of the logs and of the table. What the poll
-- finds outside comes in a record; a read or a write that raises does so with `Result`.
use text.Mathlib.Text.{◌==◌ as str_eq}
use lakehouse_ingest_bench.Prelude.Search.{member}
use lakehouse_ingest_bench.Prelude.Int.{ℤ}
use lakehouse_ingest_bench.Result.{value_error, not_found, read_error, Result, ok, err, ◌>>=◌, ◌>>◌}
use lakehouse_ingest_bench.Prelude.{
  ℕ, String, Bool, true, false, not, Option, none, some, List, [], ◌∷◌, ◌++◌, leb, if◌then◌else◌,
  length, keep, any, every, range,
}
use lakehouse_ingest_bench.Producer.PublishLog.{LogFile, shards_done, read_all}
use lakehouse_ingest_bench.Scorer.Tally.{Bincount, add_ids}
use lakehouse_ingest_bench.Scorer.Snapshots.{
  Operation, append, Snapshot, SnapshotInfo, AddedFile, SchemaField, check_table_schema,
  snapshots_in_order, added_files,
}
use lakehouse_ingest_bench.Scorer.Score.State.{ScoreArgs, ScoreState, has_mismatches}

-- Statements that change the state and may raise: the state outlives an exception.
abbrev pub Action : Type 0 → Type 0 → Type 0
Action S A = S → Result A × S

abbrev pub continue : {S A B : Type 0} → Result A → (A → Action S B) → Action S B
continue (ok a) f = f a
continue (err e) f = λ s. (err e, s)

-- What `load_table` does: raise, find no table, or return one.
pub data TableRead : Type 0 where
  failed absent : TableRead
  present : List SchemaField → List Snapshot → TableRead

-- What a poll finds: the logs at the two times they are read, the table, whether its metadata and a
-- snapshot's manifests can be read, the clock after the metadata is read, the id columns, the order in
-- which the reads complete, and whether a snapshot's line can be written.
pub record Reads : Type 0 where
  pub logs_for_done : Result (Option (List LogFile))
  pub logs_for_records : Result (Option (List LogFile))
  pub table : TableRead
  pub metadata_read : Result (Unit {0})
  pub manifests_read : ℕ → Result (Unit {0})
  pub first_seen_ms : ℕ
  pub read_id_column : AddedFile → Result (List ℤ)
  pub completion : List AddedFile → List AddedFile
  pub line_written : ℕ → Bool

abbrev pub has_path : List String → String → Bool
has_path paths path = any (λ p. str_eq p path) paths

-- The files that are not applied yet.
abbrev pub pending_of : List String → List AddedFile → List AddedFile
pending_of applied files = keep (λ f. not (has_path applied f.path)) files

-- done == set(range(expected)), after the check for surplus shards
unfoldable pub check_done : ℕ → List ℕ → Result Bool
check_done expected done =
    if any (λ n. leb expected n) done
    then err value_error
    else ok (every (λ n. member n done) (range 0 expected))

unfoldable pub offer_ended : ℕ → Option (List LogFile) → Result Bool
offer_ended expected logs = do done ← shards_done logs; check_done expected done

module _ {F : Type 0} where
  -- `_load_table`: absence is tolerated of an engine-owned table only.
  unfoldable pub load_table :
      ScoreArgs F → TableRead → Action (ScoreState F) (Option (List SchemaField × List Snapshot))
  load_table args failed s = (err read_error, s)
  load_table args absent s =
      if args.engine_owned then (ok none, record s { table_absent = true }) else (err not_found, s)
  load_table args (present schema snapshots) s =
      (ok (some (schema, snapshots)), record s { table_absent = false })

  abbrev pub checked : ScoreArgs F → List SchemaField → ScoreState F → ScoreState F
  checked args schema s = elim s.schema_mismatches [
    | none ↦ record s { schema_mismatches = some (check_table_schema schema args.columns) }
    | some found ↦ s
  ]

abbrev pub is_append : Operation → Bool
is_append append = true
is_append _ = false

-- The snapshot is looked up before its manifests are read.
abbrev pub snapshot_files : Reads → List Snapshot → SnapshotInfo → Result (List AddedFile)
snapshot_files reads snapshots info = do
  files ← added_files snapshots info.snapshot_id
  reads.manifests_read info.snapshot_id
  ok files

module _ {F : Type 0} (np : Bincount) (reads : Reads) where
  -- The files whose reads complete, in that order; a failure leaves the rest unread.
  unfoldable pub apply_reads : List AddedFile → Action (ScoreState F) Unit
  apply_reads [] s = (ok tt, s)
  apply_reads (file ∷ files) s = elim (reads.read_id_column file) [
    | err e ↦ (err e, s)
    | ok ids ↦ elim (add_ids np s.tally ids) [
      | err e ↦ (err e, s)
      | ok t ↦
          apply_reads files (record s { tally = t; applied_files = file.path ∷ s.applied_files })
    ]
  ]

  abbrev pub apply_pending : List AddedFile → Action (ScoreState F) ℕ
  apply_pending [] s = (ok 0, s)
  apply_pending (file ∷ files) s =
      let (applied, s') = apply_reads (reads.completion (file ∷ files)) s in
      continue applied (λ _ s. (ok (length (file ∷ files)), s)) s'

  unfoldable pub apply_added_files : List AddedFile → Action (ScoreState F) ℕ
  unfolding apply_reads
  apply_added_files files s = apply_pending (pending_of s.applied_files files) s

  -- Only appends are tallied, and observed.
  unfoldable pub tally_snapshot : SnapshotInfo → List AddedFile → Action (ScoreState F) ℕ
  tally_snapshot info files s = elim (is_append info.operation) [
    | false ↦ (ok 0, s)
    | true ↦
        let (applied, s') = apply_added_files files s in
        continue applied
          (λ n s. (
            ok n,
            record s {
              observations =
                  s.observations
                  ++ record {
                    timestamp_ms = info.timestamp_ms;
                    first_seen_ms = reads.first_seen_ms;
                    watermark = s.tally.watermark;
                  }
                    ∷ [];
            },
          ))
          s'
  ]

  -- The line of the snapshot is written before it counts as seen.
  unfoldable pub finish_snapshot : SnapshotInfo → ℕ → Action (ScoreState F) ℕ
  finish_snapshot info n s =
      if reads.line_written info.snapshot_id
      then (ok n, record s { seen = info.snapshot_id ∷ s.seen; applied_files = [] })
      else (err read_error, s)

  unfoldable pub read_snapshot : List Snapshot → SnapshotInfo → Action (ScoreState F) ℕ
  read_snapshot snapshots info s =
      continue (snapshot_files reads snapshots info)
        (λ files s.
          let (tallied, s') = tally_snapshot info files s in
          continue tallied (finish_snapshot info) s')
        s

  -- Whether a snapshot was new, for the loop over those in order.
  unfoldable pub read_snapshots : List Snapshot → List SnapshotInfo → Action (ScoreState F) Bool
  read_snapshots snapshots [] s = (ok false, s)
  read_snapshots snapshots (info ∷ infos) s = elim (member info.snapshot_id s.seen) [
    | true ↦ read_snapshots snapshots infos s
    | false ↦
        let (done, s') = read_snapshot snapshots info s in
        continue done
          (λ _ s.
            let (rest, s'') = read_snapshots snapshots infos s in
            continue rest (λ _ s. (ok true, s)) s'')
          s'
  ]

  abbrev pub read_table :
      ScoreArgs F → Option (List SchemaField × List Snapshot) → Action (ScoreState F) Bool
  read_table args none s = (ok false, s)
  read_table args (some (schema, snapshots)) s =
      let s' = checked args schema s in
      if has_mismatches s'
      then (ok false, s')
      else continue reads.metadata_read
          (λ _. continue (snapshots_in_order snapshots) (λ infos. read_snapshots snapshots infos))
          s'

  -- Completion is read before the records, and stored after them.
  unfoldable pub read_inputs : ScoreArgs F → Action (ScoreState F) Bool
  read_inputs args s =
      continue (reads.logs_for_done >>= offer_ended args.expected_publish_shards)
        (λ ended s.
          continue (reads.logs_for_records >>= read_all)
            (λ records s.
              let (table, s') =
                load_table args reads.table (record s { records = records; offer_ended = ended }) in
              continue table (read_table args) s')
            s)
        s
