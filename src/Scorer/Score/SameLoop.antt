-- ===== src/Scorer/Score/SameLoop.antt =====
-- What the reads of a poll leave of the loop's own state.
use lakehouse_ingest_bench.Prelude.{
  ℕ, ◌≡◌, refl, ◌∙◌, inl, inr, List, [], ◌∷◌, Bool-cases, Option-cases, Option, none, some, ◌∙◌,
}
use lakehouse_ingest_bench.Result.{Result, ok, err, ◌>>=◌, Result-cases}
use lakehouse_ingest_bench.Scorer.Snapshots.{
  AddedFile, Snapshot, SnapshotInfo, SchemaField, snapshots_in_order,
}
use lakehouse_ingest_bench.Scorer.Tally.{Bincount, add_ids}
use lakehouse_ingest_bench.Scorer.Score.State.{ScoreArgs, ScoreState, has_mismatches}
use lakehouse_ingest_bench.Scorer.Score.Inputs.{
  Action, continue, TableRead, failed, absent, present, Reads, load_table, checked, apply_reads,
  apply_pending, apply_added_files, tally_snapshot, finish_snapshot, snapshot_files, read_snapshot,
  read_snapshots, read_table, read_inputs, pending_of, is_append, offer_ended,
}
use lakehouse_ingest_bench.Prelude.Search.{member}
use lakehouse_ingest_bench.Producer.PublishLog.{read_all}

module _ {F : Type 0} where
  -- What reading does not touch: the samples and the count of failures in a row.
  pub record SameLoop (s s' : ScoreState F) : Type 0 where
    pub samples : s'.samples ≡ s.samples
    pub read_failures : s'.read_failures ≡ s.read_failures

  unchanged : (s : ScoreState F) → SameLoop s s
  unchanged s = record { samples = refl; read_failures = refl }

  SameLoop-trans : (s t u : ScoreState F) → SameLoop s t → SameLoop t u → SameLoop s u
  SameLoop-trans s t u a b = record {
    samples = b.samples ∙ a.samples;
    read_failures = b.read_failures ∙ a.read_failures;
  }

  continue-SameLoop :
      {A B : Type 0} (r : Result A) (f : A → Action (ScoreState F) B) (s s' : ScoreState F)
      → SameLoop s s'
      → ((a : A) (t : ScoreState F) → SameLoop t (f a t).1)
      → SameLoop s (continue r f s').1
  continue-SameLoop (ok a) f s s' same keeps = SameLoop-trans s s' _ same (keeps a s')
  continue-SameLoop (err e) f s s' same keeps = same

  load_table-SameLoop :
      (args : ScoreArgs F) (table : TableRead) (s : ScoreState F)
      → SameLoop s (load_table args table s).1
  unfolding load_table
  load_table-SameLoop args failed s = unchanged s
  load_table-SameLoop args absent s = elim (Bool-cases args.engine_owned) [
    | inl own ↦ rw (load_table, own) (record { samples = refl; read_failures = refl })
    | inr other ↦ rw (load_table, other) (unchanged s)
  ]
  load_table-SameLoop args (present schema snapshots) s = record {
    samples = refl;
    read_failures = refl;
  }

  checked-SameLoop :
      (args : ScoreArgs F) (schema : List SchemaField) (s : ScoreState F)
      → SameLoop s (checked args schema s)
  checked-SameLoop args schema s = elim (Option-cases s.schema_mismatches) [
    | inl none_yet ↦ rw none_yet (record { samples = refl; read_failures = refl })
    | inr (found, known) ↦ record { samples = rw known refl; read_failures = rw known refl }
  ]

module _ {F : Type 0} (np : Bincount) (reads : Reads) where
  apply_reads-SameLoop :
      (files : List AddedFile) (s : ScoreState F) → SameLoop s (apply_reads np reads files s).1
  unfolding apply_reads
  apply_reads-SameLoop [] s = unchanged s
  apply_reads-SameLoop (file ∷ files) s = elim (Result-cases (reads.read_id_column file)) [
    | inr (e, h) ↦ rw (apply_reads, h) (unchanged s)
    | inl (ids, h) ↦ elim (Result-cases (add_ids np s.tally ids)) [
      | inr (e, h') ↦ rw (apply_reads, h, h') (unchanged s)
      | inl (t, h') ↦
          let rest =
            apply_reads-SameLoop files
              (record s { tally = t; applied_files = file.path ∷ s.applied_files }) in
          rw (apply_reads, h, h')
            (record { samples = rest.samples; read_failures = rest.read_failures })
    ]
  ]

  apply_pending-SameLoop :
      (files : List AddedFile) (s : ScoreState F) → SameLoop s (apply_pending np reads files s).1
  apply_pending-SameLoop [] s = unchanged s
  apply_pending-SameLoop (file ∷ files) s =
      continue-SameLoop (apply_reads np reads (reads.completion (file ∷ files)) s).0 _ s _
        (apply_reads-SameLoop (reads.completion (file ∷ files)) s) (λ _ t. unchanged t)

  tally_snapshot-SameLoop :
      (info : SnapshotInfo) (files : List AddedFile) (s : ScoreState F)
      → SameLoop s (tally_snapshot np reads info files s).1
  unfolding tally_snapshot apply_added_files
  tally_snapshot-SameLoop info files s = elim (Bool-cases (is_append info.operation)) [
    | inr other ↦ rw (tally_snapshot, other) (unchanged s)
    | inl append ↦
        rw (tally_snapshot, append)
          (continue-SameLoop (apply_added_files np reads files s).0 _ s _
            (apply_pending-SameLoop (pending_of s.applied_files files) s)
            (λ _ t. record { samples = refl; read_failures = refl }))
  ]

  finish_snapshot-SameLoop :
      (info : SnapshotInfo) (n : ℕ) (s : ScoreState F)
      → SameLoop s (finish_snapshot np reads info n s).1
  unfolding finish_snapshot
  finish_snapshot-SameLoop info n s = elim (Bool-cases (reads.line_written info.snapshot_id)) [
    | inl written ↦ rw (finish_snapshot, written) (record { samples = refl; read_failures = refl })
    | inr lost ↦ rw (finish_snapshot, lost) (unchanged s)
  ]

  read_snapshot-SameLoop :
      (snapshots : List Snapshot) (info : SnapshotInfo) (s : ScoreState F)
      → SameLoop s (read_snapshot np reads snapshots info s).1
  unfolding read_snapshot
  read_snapshot-SameLoop snapshots info s =
      continue-SameLoop (snapshot_files reads snapshots info) _ s s (unchanged s) (λ files t.
        continue-SameLoop (tally_snapshot np reads info files t).0 _ t _
          (tally_snapshot-SameLoop info files t) (λ n u. finish_snapshot-SameLoop info n u))

  read_snapshots-SameLoop :
      (snapshots : List Snapshot) (infos : List SnapshotInfo) (s : ScoreState F)
      → SameLoop s (read_snapshots np reads snapshots infos s).1
  unfolding read_snapshots
  read_snapshots-SameLoop snapshots [] s = unchanged s
  read_snapshots-SameLoop snapshots (info ∷ infos) s =
      elim (Bool-cases (member info.snapshot_id s.seen)) [
        | inl known ↦ rw (read_snapshots, known) (read_snapshots-SameLoop snapshots infos s)
        | inr new ↦
            rw (read_snapshots, new)
              (continue-SameLoop (read_snapshot np reads snapshots info s).0 _ s _
                (read_snapshot-SameLoop snapshots info s)
                (λ _ t.
                  continue-SameLoop (read_snapshots np reads snapshots infos t).0 _ t _
                    (read_snapshots-SameLoop snapshots infos t) (λ _ u. unchanged u)))
      ]

  read_table-SameLoop :
      (args : ScoreArgs F) (table : Option (List SchemaField × List Snapshot)) (s : ScoreState F)
      → SameLoop s (read_table np reads args table s).1
  read_table-SameLoop args none s = unchanged s
  read_table-SameLoop args (some (schema, snapshots)) s =
      elim (Bool-cases (has_mismatches (checked args schema s))) [
        | inl found ↦ rw found (checked-SameLoop args schema s)
        | inr fits ↦ rw fits (
            continue-SameLoop reads.metadata_read
              (λ _.
                continue (snapshots_in_order snapshots)
                  (λ infos. read_snapshots np reads snapshots infos))
              s _ (checked-SameLoop args schema s)
              (λ _ t.
                continue-SameLoop (snapshots_in_order snapshots)
                  (λ infos. read_snapshots np reads snapshots infos) t _ (unchanged t)
                  (λ infos u. read_snapshots-SameLoop snapshots infos u)))
      ]

  pub read_inputs-SameLoop :
      (args : ScoreArgs F) (s : ScoreState F) → SameLoop s (read_inputs np reads args s).1
  unfolding read_inputs
  read_inputs-SameLoop args s =
      continue-SameLoop (reads.logs_for_done >>= offer_ended args.expected_publish_shards) _ s s
        (unchanged s)
        (λ ended t.
          continue-SameLoop (reads.logs_for_records >>= read_all) _ t t (unchanged t) (λ records u.
            continue-SameLoop
              (load_table args reads.table (record u { records = records; offer_ended = ended })).0
              _ u _
              (let same =
                  load_table-SameLoop args reads.table
                    (record u { records = records; offer_ended = ended }) in
                record { samples = same.samples; read_failures = same.read_failures })
              (λ table v. read_table-SameLoop args table v)))
