-- ===== src/Corpus/Columns/Build.antt =====
-- The columns of a schema of ingest_bench/corpus/columns.py: `validate_columns`, `build_columns`, `role_column`
-- and `schema_fields`.
use text.Mathlib.Text.{◌==◌ as str_eq}
use lakehouse_ingest_bench.Prelude.Int.{pos, ltb_ℤ}
use lakehouse_ingest_bench.Result.{
  from_some, value_error, runtime_error, Result, ok, err, ◌>>=◌, ◌>>◌, refuse,
}
use lakehouse_ingest_bench.Prelude.{
  String, Bool, not, ◌&&◌, ◌||◌, List, [], ◌∷◌, ◌++◌, map, if◌then◌else◌, take, drop, keep,
}
use lakehouse_ingest_bench.Prelude.Strings.{among, lookup, keys}
use lakehouse_ingest_bench.Corpus.Columns.{
  ColumnNumbers, ColumnDistribution, AvroType, reserved_fields, avro_type_by_kind, column_roles,
  is_empty_list, repeats, same_texts,
}
use lakehouse_ingest_bench.Corpus.Columns.Spaces.{validate_value_space}

module _ (numbers : ColumnNumbers) (isidentifier : String → Bool) where
  open numbers use {Number, nothing, less}

  abbrev pub sole : List String → List (ColumnDistribution Number) → Result (Unit {0})
  sole kinds (holder ∷ []) = refuse (not (among holder.kind kinds))
  sole kinds _ = err value_error

  abbrev pub holders : String → List (ColumnDistribution Number) → List (ColumnDistribution Number)
  holders role columns = keep (λ column. str_eq column.role role) columns

  unfoldable pub validate_roles : List (ColumnDistribution Number) → Result (Unit {0})
  validate_roles generated = do
    sole ("timestamp" ∷ []) (holders "event_time" generated)
    sole ("categorical" ∷ []) (holders "entity" generated)
    sole ("integer" ∷ "decimal" ∷ []) (holders "sum_measure" generated)
    sole ("blob" ∷ []) (holders "payload" generated)

  unfoldable pub validate_column : ColumnDistribution Number → Result (Unit {0})
  unfolding validate_value_space
  validate_column column = do
    refuse (among column.name (keys reserved_fields) || str_eq column.kind "reserved")
    refuse (not (isidentifier column.name))
    refuse (not (among column.kind (keys avro_type_by_kind)))
    refuse (not (among column.role column_roles))
    refuse (ltb_ℤ column.cardinality (pos 0))
    refuse (less column.alpha nothing)
    refuse (str_eq column.kind "timestamp" && not (str_eq column.role "event_time"))
    validate_value_space numbers column

  unfoldable pub validate_each : List (ColumnDistribution Number) → Result (Unit {0})
  unfolding validate_column
  validate_each [] = ok tt
  validate_each (column ∷ columns) = do validate_column column; validate_each columns

  unfoldable pub validate_columns : List (ColumnDistribution Number) → Result (Unit {0})
  unfolding validate_roles validate_each
  validate_columns columns = do
    refuse (not (same_texts (map (λ column. column.name) (take 2 columns)) (keys reserved_fields)))
    let generated = drop 2 columns
    refuse (is_empty_list generated)
    refuse (repeats (map (λ column. column.name) generated))
    validate_roles generated
    validate_each generated

  abbrev pub reserved_column : String → ColumnDistribution Number
  reserved_column name = record {
    name = name;
    kind = "reserved";
    role = "generic";
    cardinality = pos 0;
    alpha = nothing;
    vocabulary = [];
    minimum = nothing;
    maximum = nothing;
    width = pos 0;
  }

  unfoldable pub build_columns :
      List (ColumnDistribution Number) → Result (List (ColumnDistribution Number))
  unfolding validate_columns
  build_columns configured = do
    let columns = map reserved_column (keys reserved_fields) ++ configured
    validate_columns columns
    ok columns

  -- The first one; without any, StopIteration is raised.
  unfoldable pub role_column :
      List (ColumnDistribution Number) → String → Result (ColumnDistribution Number)
  role_column [] role = err runtime_error
  role_column (column ∷ columns) role =
      if str_eq column.role role then ok column else role_column columns role

  unfoldable pub generated_fields :
      List (ColumnDistribution Number) → Result (List (String × AvroType))
  generated_fields [] = ok []
  generated_fields (column ∷ columns) =
      if str_eq column.kind "reserved" then generated_fields columns else (do
        type ← from_some (lookup column.kind avro_type_by_kind)
        rest ← generated_fields columns
        ok ((column.name, type) ∷ rest))

  unfoldable pub schema_fields :
      List (ColumnDistribution Number) → Result (List (String × AvroType))
  unfolding generated_fields
  schema_fields columns = do generated ← generated_fields columns; ok (reserved_fields ++ generated)
