-- ===== src/Scorer/Geometry.antt =====
-- ingest_bench/scorer/geometry.py. The quantiles and the histogram are not modelled: a point keeps
-- the numbers that they are taken of. `prefix_end` counts commits, so that the source's `None` is 0.
pub mod Intervals
use lakehouse_ingest_bench.Prelude.{
  ℕ, suc, ◌+◌, ◌*◌, Bool, true, false, not, ◌&&◌, Option, none, some, List, [], ◌∷◌, ◌++◌, map,
  String, ltb, if◌then◌else◌, length, take, drop, keep, last?, sum_by,
}
use lakehouse_ingest_bench.Result.{Result, ok, err, value_error, ◌>>=◌}
use lakehouse_ingest_bench.Scorer.Keepup.{max_of, min_of}
use lakehouse_ingest_bench.Scorer.Snapshots.{
  ManifestEntry, Manifest, Snapshot, SnapshotInfo, AddedFile, is_rows, live_entries,
  snapshots_in_order, snapshot_by_id, added_files,
}

pub record DataFileInfo : Type 0 where
  pub path : String
  pub size_bytes : ℕ
  pub record_count : ℕ
  pub added_snapshot_id : Option ℕ

abbrev to_info : ManifestEntry → DataFileInfo
to_info e = record {
  path = e.data_file.path;
  size_bytes = e.data_file.size_bytes;
  record_count = e.data_file.record_count;
  added_snapshot_id = e.snapshot_id;
}

abbrev files_of : List Manifest → List DataFileInfo
files_of [] = []
files_of (m ∷ manifests) =
    map to_info (keep (λ e. is_rows e.data_file.content) (live_entries m)) ++ files_of manifests

-- Inherited files count too, unlike in `added_files`.
unfoldable pub data_files_at : List Snapshot → ℕ → Result (List DataFileInfo)
data_files_at snapshots snapshot_id = do
  s ← snapshot_by_id snapshots snapshot_id
  ok (files_of s.manifests)

-- The number of leading commits that are visible by `at_ms`.
unfoldable pub prefix_end : List SnapshotInfo → ℕ → ℕ
prefix_end [] at_ms = 0
prefix_end (info ∷ ordered) at_ms =
    let rest = prefix_end ordered at_ms in if ltb at_ms info.timestamp_ms then 0 else suc rest

abbrev pub mib : ℕ
mib = 1024 * 1024

pub record LiveGeometry : Type 0 where
  pub files : ℕ
  pub rows : ℕ
  pub bytes : ℕ
  pub sizes : List ℕ
  pub min_size : Option ℕ
  pub max_size : Option ℕ
  -- the numerators of the two shares, whose denominator is `files`
  pub below_32mib : ℕ
  pub below_8mib : ℕ

abbrev below : ℕ → List ℕ → ℕ
below limit sizes = length (keep (λ size. ltb size limit) sizes)

unfoldable pub live_geometry : List DataFileInfo → LiveGeometry
live_geometry files =
    let sizes = map (λ (f : DataFileInfo). f.size_bytes) files in
    record {
      files = length files;
      rows = sum_by (λ (f : DataFileInfo). f.record_count) files;
      bytes = sum_by (λ n. n) sizes;
      sizes = sizes;
      min_size = min_of sizes;
      max_size = max_of sizes;
      below_32mib = below (32 * mib) sizes;
      below_8mib = below (8 * mib) sizes;
    }

-- The counts and the sizes of the files that each commit added.
pub record PerCommit : Type 0 where
  pub commits : List SnapshotInfo
  pub added_counts : List ℕ
  pub sizes : List ℕ

unfoldable pub per_commit : List Snapshot → List SnapshotInfo → Result PerCommit
per_commit snapshots [] = ok (record { commits = []; added_counts = []; sizes = [] })
per_commit snapshots (info ∷ commits) = do
  files ← added_files snapshots info.snapshot_id
  rest ← per_commit snapshots commits
  ok (record {
    commits = info ∷ rest.commits;
    added_counts = length files ∷ rest.added_counts;
    sizes = map (λ (f : AddedFile). f.size_bytes) files ++ rest.sizes;
  })

pub record Point : Type 0 where
  pub snapshot_id : ℕ
  pub timestamp_ms : ℕ
  pub live : LiveGeometry
  pub per_commit : PerCommit

unfoldable pub point : List Snapshot → SnapshotInfo → List SnapshotInfo → Result Point
point snapshots info commits = do
  files ← data_files_at snapshots info.snapshot_id
  added ← per_commit snapshots commits
  ok (record {
    snapshot_id = info.snapshot_id;
    timestamp_ms = info.timestamp_ms;
    live = live_geometry files;
    per_commit = added;
  })

-- A point at an offset, or its absence, and the points' boundary after it.
unfoldable pub point_at :
    List Snapshot
    → List SnapshotInfo
    → (epoch_ms last_ms boundary offset_s : ℕ) → Result (Option Point × ℕ)
point_at snapshots ordered epoch_ms last_ms boundary offset_s =
    let point_ms = epoch_ms + offset_s * 1000 in
    let reached = prefix_end ordered point_ms in
    if ltb last_ms point_ms then ok (none, boundary) else elim (last? (take reached ordered)) [
      | none ↦ ok (none, boundary)
      | some info ↦ (do
        p ← point snapshots info (drop boundary (take reached ordered))
        ok (some p, reached))
    ]

unfoldable pub points_at :
    List Snapshot
    → List SnapshotInfo
    → (epoch_ms last_ms boundary : ℕ) → List ℕ
    → Result (List (Option Point) × ℕ)
points_at snapshots ordered epoch_ms last_ms boundary [] = ok ([], boundary)
points_at snapshots ordered epoch_ms last_ms boundary (offset_s ∷ offsets_s) = do
  first ← point_at snapshots ordered epoch_ms last_ms boundary offset_s
  rest ← points_at snapshots ordered epoch_ms last_ms first.1 offsets_s
  ok (first.0 ∷ rest.0, rest.1)

abbrev pub ascends : List ℕ → Bool
ascends [] = true
ascends (x ∷ []) = true
ascends (x ∷ y ∷ xs) = ltb x y && ascends (y ∷ xs)

-- `at` has an entry for each offset; `none` is the source's "absent".
pub record Report : Type 0 where
  pub epoch_ms : ℕ
  pub offsets_s : List ℕ
  pub at_offsets : List (Option Point)
  pub final : Option Point

unfoldable pub final_point :
    List Snapshot → SnapshotInfo → List SnapshotInfo → Bool → Result (Option Point)
final_point snapshots newest commits false = ok none
final_point snapshots newest commits true = do p ← point snapshots newest commits; ok (some p)

unfoldable pub report_of : List Snapshot → List SnapshotInfo → ℕ → List ℕ → Bool → Result Report
report_of snapshots ordered epoch_ms offsets_s final = elim (last? ordered) [
  | none ↦ ok (record {
    epoch_ms = epoch_ms;
    offsets_s = offsets_s;
    at_offsets = map (λ offset_s. none) offsets_s;
    final = none;
  })
  | some newest ↦ (do
    points ← points_at snapshots ordered epoch_ms newest.timestamp_ms 0 offsets_s
    end ← final_point snapshots newest (drop points.1 ordered) final
    ok (record { epoch_ms = epoch_ms; offsets_s = offsets_s; at_offsets = points.0; final = end }))
]

unfoldable pub geometry_report : List Snapshot → ℕ → List ℕ → Bool → Result Report
geometry_report snapshots epoch_ms offsets_s final =
    if not (ascends offsets_s) then err value_error else (do
      ordered ← snapshots_in_order snapshots
      report_of snapshots ordered epoch_ms offsets_s final)
