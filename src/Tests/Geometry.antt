-- ===== src/Tests/Geometry.antt =====
-- A geometry report of two commits: one offset reaches the first, another lies past the end.
use lakehouse_ingest_bench.Prelude.{◌≡◌, refl, List, [], ◌∷◌, ◌++◌, none, some, true}
use lakehouse_ingest_bench.Prelude.Sorting.{insert, sort_by}
use lakehouse_ingest_bench.Result.{Result, ok, err}
use lakehouse_ingest_bench.Tests.Run.{commit}
use lakehouse_ingest_bench.Scorer.Snapshots.{
  Snapshot, snapshots_in_order, snapshot_by_id, added_from, added_files,
}
use lakehouse_ingest_bench.Scorer.Geometry.{
  Report, data_files_at, prefix_end, live_geometry, per_commit, point, point_at, points_at,
  final_point, report_of, geometry_report,
}
use lakehouse_ingest_bench.Scorer.Geometry.Intervals.{
  commits_at, commits_of, geometry_report-commits,
}

abbrev compaction : Snapshot
compaction = record commit { snapshot_id = 8; sequence_number = some 2; timestamp_ms = 2_400 }

abbrev history : List Snapshot
history = compaction ∷ commit ∷ []

abbrev value_or : Report → Result Report → Report
value_or default (ok r) = r
value_or default (err e) = default

abbrev reported : Report
reported =
    value_or (record { epoch_ms = 0; offsets_s = []; at_offsets = []; final = none })
      (geometry_report history 1_000 (1 ∷ 9 ∷ []) true)

accepted : geometry_report history 1_000 (1 ∷ 9 ∷ []) true ≡ ok reported
unfolding geometry_report report_of final_point points_at point_at point per_commit live_geometry
    prefix_end data_files_at snapshots_in_order snapshot_by_id added_files added_from sort_by insert
accepted = refl

geometry_report-commits_example :
    snapshots_in_order history ≡ ok (commits_of reported.at_offsets ++ commits_at reported.final)
geometry_report-commits_example =
    geometry_report-commits history 1_000 (1 ∷ 9 ∷ []) reported accepted
