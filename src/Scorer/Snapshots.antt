-- ===== src/Scorer/Snapshots.antt =====
-- ingest_bench/scorer/snapshots.py. The catalog, the metadata document and the manifests are what
-- pyiceberg hands over, as records of the fields that the source reads.
use text.Mathlib.Text.{◌==◌ as str_eq}
use lakehouse_ingest_bench.Prelude.Strings.{codes, lower}
use lakehouse_ingest_bench.Prelude.Sorting.{sort_by}
use lakehouse_ingest_bench.Result.{value_error, Result, ok, err, ◌>>=◌}
use lakehouse_ingest_bench.Prelude.{
  ℕ, String, Bool, true, false, not, ◌&&◌, Option, none, some, List, [], ◌∷◌, ◌++◌, map, ◌==◌,
  if◌then◌else◌, keep,
}

pub data Operation : Type 0 where
  append replace overwrite delete : Operation

pub data EntryStatus : Type 0 where
  existing added deleted : EntryStatus

pub data Content : Type 0 where
  rows position_deletes equality_deletes : Content

pub record DataFile : Type 0 where
  pub content : Content
  pub path : String
  pub file_format : String
  pub record_count : ℕ
  pub size_bytes : ℕ

pub record ManifestEntry : Type 0 where
  pub status : EntryStatus
  pub snapshot_id : Option ℕ
  pub data_file : DataFile

pub record Manifest : Type 0 where
  pub added_snapshot_id : Option ℕ
  pub entries : List ManifestEntry

-- `operation` is missing when the snapshot carries no summary.
pub record Snapshot : Type 0 where
  pub snapshot_id : ℕ
  pub parent_id : Option ℕ
  pub sequence_number : Option ℕ
  pub timestamp_ms : ℕ
  pub operation : Option Operation
  pub manifests : List Manifest

pub record SnapshotInfo : Type 0 where
  pub snapshot_id : ℕ
  pub parent_id : Option ℕ
  pub timestamp_ms : ℕ
  pub operation : Operation

pub record AddedFile : Type 0 where
  pub path : String
  pub file_format : List ℕ
  pub record_count : ℕ
  pub size_bytes : ℕ

pub record SchemaField : Type 0 where
  pub name : String
  pub field_type : String
  pub required : Bool

pub data Mismatch : Type 0 where
  no_column retyped optional : String → Mismatch

-- `{field.name: field ...}[name]`: a later field of a name wins.
abbrev pub held : List SchemaField → String → Option SchemaField
held [] name = none
held (f ∷ fields) name = elim (held fields name) [
  | some found ↦ some found
  | none ↦ if str_eq f.name name then some f else none
]

abbrev pub mismatches_of : String → String → Option SchemaField → List Mismatch
mismatches_of name published none = no_column name ∷ []
mismatches_of name published (some field) =
    (if str_eq field.field_type published then [] else retyped name ∷ [])
    ++ (if field.required then [] else optional name ∷ [])

-- The corpus's columns with the types that it publishes for them.
unfoldable pub check_table_schema : List SchemaField → List (String × String) → List Mismatch
check_table_schema schema [] = []
check_table_schema schema ((name, published) ∷ columns) =
    mismatches_of name published (held schema name) ++ check_table_schema schema columns

abbrev pub sequence : Snapshot → ℕ
sequence s = elim s.sequence_number [ none ↦ 0 | some n ↦ n ]

abbrev infos_of : List Snapshot → Result (List SnapshotInfo)
infos_of [] = ok []
infos_of (s ∷ snapshots) = elim s.operation [
  | none ↦ err value_error
  | some operation ↦ (do
    rest ← infos_of snapshots
    ok (
        record {
          snapshot_id = s.snapshot_id;
          parent_id = s.parent_id;
          timestamp_ms = s.timestamp_ms;
          operation = operation;
        }
        ∷ rest))
]

-- The sort by the pair (sequence number, timestamp), as two stable sorts.
unfoldable pub snapshots_in_order : List Snapshot → Result (List SnapshotInfo)
snapshots_in_order snapshots = infos_of (sort_by sequence (sort_by (λ s. s.timestamp_ms) snapshots))

unfoldable pub snapshot_by_id : List Snapshot → ℕ → Result Snapshot
snapshot_by_id [] snapshot_id = err value_error
snapshot_by_id (s ∷ snapshots) snapshot_id =
    if s.snapshot_id == snapshot_id then ok s else snapshot_by_id snapshots snapshot_id

abbrev pub is_id : ℕ → Option ℕ → Bool
is_id snapshot_id none = false
is_id snapshot_id (some n) = n == snapshot_id

abbrev pub is_added : EntryStatus → Bool
is_added added = true
is_added _ = false

abbrev pub is_rows : Content → Bool
is_rows rows = true
is_rows _ = false

abbrev is_live : EntryStatus → Bool
is_live deleted = false
is_live _ = true

-- fetch_manifest_entry(io, discard_deleted=True)
abbrev pub live_entries : Manifest → List ManifestEntry
live_entries m = keep (λ e. is_live e.status) m.entries

abbrev pub skipped : ℕ → Manifest → Bool
skipped snapshot_id m = elim m.added_snapshot_id [ none ↦ false | some n ↦ not (n == snapshot_id) ]

abbrev pub to_added : ManifestEntry → AddedFile
to_added e = record {
  path = e.data_file.path;
  file_format = map lower (codes e.data_file.file_format);
  record_count = e.data_file.record_count;
  size_bytes = e.data_file.size_bytes;
}

-- ADDED by this snapshot, and a file of rows
abbrev pub is_own : ℕ → ManifestEntry → Bool
is_own snapshot_id e =
    is_added e.status && is_id snapshot_id e.snapshot_id && is_rows e.data_file.content

unfoldable pub added_from : ℕ → List Manifest → List AddedFile
added_from snapshot_id [] = []
added_from snapshot_id (m ∷ manifests) =
    (if skipped snapshot_id m
      then []
      else map to_added (keep (is_own snapshot_id) (live_entries m)))
    ++ added_from snapshot_id manifests

unfoldable pub added_files : List Snapshot → ℕ → Result (List AddedFile)
unfolding added_from snapshot_by_id
added_files snapshots snapshot_id = do
  s ← snapshot_by_id snapshots snapshot_id
  ok (added_from snapshot_id s.manifests)
