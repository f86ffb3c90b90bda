-- ===== src/Engines/Flink/Sql.antt =====
-- engines/flink/knobs.py: the SQL of a Flink run, as characters, and `table_identifier` of
-- ingest_bench/catalog.py. The decimal text of a number is a parameter.
pub mod Literals
use lakehouse_ingest_bench.Prelude.Int.{ℤ}
use lakehouse_ingest_bench.Result.{
  from_some, found, value_error, Result, ok, err, ◌>>=◌, ◌>>◌, refuse,
}
use lakehouse_ingest_bench.Prelude.{
  ℕ, String, Bool, true, false, List, [], ◌∷◌, ◌++◌, map, ◌==◌, if◌then◌else◌, any,
}
use lakehouse_ingest_bench.Prelude.Floats.{Floats}
use lakehouse_ingest_bench.Prelude.Strings.{codes, lookup, update}
use lakehouse_ingest_bench.Specs.Yaml.{Block}
use lakehouse_ingest_bench.Specs.Blocks.{KafkaSpec}
use lakehouse_ingest_bench.Specs.Site.{SiteConfig}
use lakehouse_ingest_bench.Engines.JavaProperties.{Props, kafka_properties, catalog_properties}
use lakehouse_ingest_bench.Engines.Settings.{Setting, written, decimal, megabytes}
use lakehouse_ingest_bench.Engines.Flink.{Knobs, read, ddl_types, format_options, insert_hints}
use lakehouse_ingest_bench.Engines.Flink.Script.{onto_first, join_statements}

abbrev pub quote : ℕ
quote = 39

-- value.replace("'", "''")
unfoldable pub doubled : List ℕ → List ℕ
doubled [] = []
doubled (c ∷ value) = if c == quote then quote ∷ quote ∷ doubled value else c ∷ doubled value

unfoldable pub literal : List ℕ → List ℕ
unfolding doubled
literal value = (quote ∷ doubled value) ++ (quote ∷ [])

abbrev pub TextOption : Type 0
TextOption = List ℕ × List ℕ

unfoldable pub option_text : TextOption → List ℕ
unfolding literal
option_text (key, value) = codes "  " ++ (literal key ++ (codes " = " ++ literal value))

-- ",\n".join and ", ".join
abbrev pub separated : List ℕ → List (List ℕ) → List ℕ
separated separator [] = []
separated separator (text ∷ []) = text
separated separator (text ∷ next ∷ texts) =
    text ++ (separator ++ separated separator (next ∷ texts))

abbrev pub line_end : List ℕ
line_end = b',' ∷ 10 ∷ []

unfoldable pub with_clause : List TextOption → List ℕ
unfolding option_text
with_clause options = separated line_end (map option_text options)

-- The columns of a corpus: their names, and their Iceberg types.
unfoldable pub column_ddl : List (String × String) → String → Result (List ℕ)
unfolding found
column_ddl iceberg_types name = do
  published ← from_some (lookup name iceberg_types)
  type ← found (lookup published ddl_types)
  ok (codes "  " ++ codes name ++ codes " " ++ codes type ++ codes " NOT NULL")

unfoldable pub columns_ddl : List (String × String) → List String → Result (List (List ℕ))
unfolding column_ddl
columns_ddl iceberg_types [] = ok []
columns_ddl iceberg_types (name ∷ names) = do
  column ← column_ddl iceberg_types name
  columns ← columns_ddl iceberg_types names
  ok (column ∷ columns)

abbrev pub in_codes : Props → List TextOption
in_codes props = map (λ entry. (codes entry.0, codes entry.1)) props

abbrev pub as_property : String × String → TextOption
as_property (key, value) = (codes "properties." ++ codes key, codes value)

unfoldable pub kafka_options : Props → Result (List TextOption)
unfolding kafka_properties
kafka_options security = do props ← kafka_properties security; ok (map as_property props)

-- The parts of the names that a run has, and the corpus a run sends.
pub record Derived : Type 0 where
  pub run_id : String
  pub topic : String
  pub table : String

pub record Columns : Type 0 where
  pub field_names : List String
  pub iceberg_types : List (String × String)

unfoldable pub source_ddl :
    {F : Type 0} → KafkaSpec → SiteConfig F → Derived → Columns → Result (List ℕ)
unfolding columns_ddl kafka_options format_options with_clause
source_ddl kafka site derived meta = do
  columns ← columns_ddl meta.iceberg_types meta.field_names
  of_kafka ← kafka_options site.kafka_security
  of_format ← format_options kafka site
  let options =
      in_codes (
        ("connector", "kafka")
        ∷ ("topic", derived.topic)
        ∷ ("properties.bootstrap.servers", site.kafka_bootstrap)
        ∷ ("properties.group.id", derived.run_id)
        ∷ ("scan.startup.mode", "earliest-offset")
        ∷ [])
      ++ of_kafka
      ++ in_codes of_format
  ok (
      codes "CREATE TABLE kafka_source (\n"
      ++ separated line_end columns
      ++ codes "\n) WITH (\n"
      ++ with_clause options
      ++ codes "\n)")

unfoldable pub catalog_ddl : {F : Type 0} → SiteConfig F → Result (List ℕ)
unfolding catalog_properties with_clause
catalog_ddl site = do
  props ← catalog_properties site.catalog_props site.warehouse
  let options = in_codes (update (("type", "iceberg") ∷ ("catalog-type", "rest") ∷ []) props)
  ok (codes "CREATE CATALOG ice WITH (\n" ++ with_clause options ++ codes "\n)")

-- name.split(".")
unfoldable pub parts : List ℕ → List (List ℕ)
parts [] = [] ∷ []
parts (c ∷ name) = let rest = parts name in if c == b'.' then [] ∷ rest else onto_first c rest

abbrev pub is_empty : List ℕ → Bool
is_empty [] = true
is_empty (c ∷ text) = false

abbrev pub namespace_and_name : List (List ℕ) → Result (List ℕ × List ℕ)
namespace_and_name (namespace ∷ name ∷ []) = ok (namespace, name)
namespace_and_name (catalog ∷ namespace ∷ name ∷ []) = ok (namespace, name)
namespace_and_name _ = err value_error

unfoldable pub table_identifier : List ℕ → Result (List ℕ × List ℕ)
unfolding parts
table_identifier name = do refuse (any is_empty (parts name)); namespace_and_name (parts name)

module _ (str_of : ℤ → List ℕ) where
  abbrev pub setting_text : Setting → List ℕ
  setting_text (written text) = codes text
  setting_text (decimal n) = str_of n
  setting_text (megabytes n) = str_of n ++ codes "m"

  unfoldable pub hint_text : String × Setting → List ℕ
  unfolding literal
  hint_text (key, value) = literal (codes key) ++ codes " = " ++ literal (setting_text value)

  unfoldable pub insert : {F : Type 0} → Derived → Columns → Knobs F → Result (List ℕ)
  unfolding table_identifier insert_hints hint_text
  insert derived meta knobs = do
    identifier ← table_identifier (codes derived.table)
    ok (
        codes "INSERT INTO ice.`"
        ++ identifier.0
        ++ codes "`.`"
        ++ identifier.1
        ++ codes "` /*+ OPTIONS("
        ++ separated (codes ", ") (map hint_text (insert_hints knobs))
        ++ codes ") */\nSELECT "
        ++ separated (codes ", ") (map codes meta.field_names)
        ++ codes " FROM kafka_source")

  unfoldable pub render_sql :
      (fl : Floats)
      → Block (Floats.Float fl)
      → KafkaSpec
      → SiteConfig (Floats.Float fl)
      → Derived
      → Columns
      → Result (List ℕ)
  unfolding read source_ddl catalog_ddl insert join_statements
  render_sql fl engine_block kafka site derived meta = do
    knobs ← read fl engine_block
    source ← source_ddl kafka site derived meta
    catalog ← catalog_ddl site
    insertion ← insert derived meta knobs
    ok (join_statements (source ∷ catalog ∷ insertion ∷ []))
