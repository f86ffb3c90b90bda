-- ===== src/Corpus/Columns.antt =====
-- ingest_bench/corpus/columns.py: the columns of a schema, their validation and their types. Floats and
-- `str.isidentifier` are parameters.
pub mod Spaces
pub mod Build
pub mod Schema
use text.Mathlib.Text.{◌==◌ as str_eq}
use lakehouse_ingest_bench.Prelude.Int.{ℤ, pos}
use lakehouse_ingest_bench.Result.{found, value_error, Result, ok, err}
use lakehouse_ingest_bench.Prelude.{
  String, Bool, true, false, ◌&&◌, ◌||◌, List, [], ◌∷◌, if◌then◌else◌,
}
use lakehouse_ingest_bench.Prelude.Strings.{among, lookup}

-- What is asked of the floats of a column: bool(x), x < y, int(x), int(round((x - y) * 100)).
pub record ColumnNumbers : Type 1 where
  pub Number : Type 0
  pub nothing : Number
  pub is_nonzero : Number → Bool
  pub less : Number → Number → Bool
  pub whole : Number → Result ℤ
  pub cents : Number → Number → Result ℤ

pub record ColumnDistribution (N : Type 0) : Type 0 where
  pub name : String
  pub kind : String
  pub role : String
  pub cardinality : ℤ
  pub alpha : N
  pub vocabulary : List String
  pub minimum : N
  pub maximum : N
  pub width : ℤ

-- A type of Avro: a name, or a logical type over another.
pub data AvroType : Type 0 where
  plain logical : String → AvroType

abbrev pub reserved_fields : List (String × AvroType)
reserved_fields = ("id", plain "long") ∷ ("partition_key", plain "string") ∷ []

abbrev pub avro_type_by_kind : List (String × AvroType)
avro_type_by_kind =
    ("categorical", plain "string")
    ∷ ("integer", plain "long")
    ∷ ("decimal", plain "double")
    ∷ ("boolean", plain "boolean")
    ∷ ("timestamp", logical "timestamp-millis")
    ∷ ("blob", plain "bytes")
    ∷ []

abbrev pub column_roles : List String
column_roles = "generic" ∷ "event_time" ∷ "entity" ∷ "sum_measure" ∷ "payload" ∷ []

abbrev pub zipf_max_cardinality : ℤ
zipf_max_cardinality = pos 1_000_000

abbrev pub min_unbounded_token_width : ℤ
min_unbounded_token_width = pos 16

abbrev pub is_empty_list : {A : Type 0} → List A → Bool
is_empty_list [] = true
is_empty_list (a ∷ rest) = false

-- len(set(names)) != len(names)
abbrev pub repeats : List String → Bool
repeats [] = false
repeats (name ∷ names) = among name names || repeats names

abbrev pub same_texts : List String → List String → Bool
same_texts [] [] = true
same_texts (x ∷ xs) (y ∷ ys) = str_eq x y && same_texts xs ys
same_texts _ _ = false

abbrev pub iceberg_types : List (String × String)
iceberg_types =
    ("int", "long")
    ∷ ("long", "long")
    ∷ ("double", "double")
    ∷ ("boolean", "boolean")
    ∷ ("string", "string")
    ∷ ("bytes", "binary")
    ∷ []

unfoldable pub iceberg_type_name : AvroType → Result String
iceberg_type_name (plain name) = found (lookup name iceberg_types)
iceberg_type_name (logical name) =
    if str_eq name "timestamp-millis" then ok "timestamp" else err value_error
