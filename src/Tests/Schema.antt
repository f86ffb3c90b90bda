-- ===== src/Tests/Schema.antt =====
-- A schema of four columns.
-- Numbers without fractions.
use lakehouse_ingest_bench.Prelude.Int.{ℤ, pos, pos_part, ltb_ℤ, eq_ℤ, ◌-ℤ◌}
use lakehouse_ingest_bench.Result.{Result, ok, err, Ensures}
use lakehouse_ingest_bench.Prelude.{◌*◌, String, ◌≡◌, refl, Bool, true, false, not, List, [], ◌∷◌}
use lakehouse_ingest_bench.Corpus.Columns.{ColumnNumbers, ColumnDistribution}
use lakehouse_ingest_bench.Corpus.Columns.Spaces.{
  validate_value_space, space_of_kind, categorical_space, numeric_space, span_of, boolean_space,
  blob_space,
}
use lakehouse_ingest_bench.Corpus.Columns.Build.{
  build_columns, validate_columns, validate_roles, validate_each, validate_column,
}
use lakehouse_ingest_bench.Corpus.Columns.Schema.{IsSchema, build_columns-IsSchema}

abbrev whole_numbers : ColumnNumbers
whole_numbers = record {
  Number = ℤ;
  nothing = pos 0;
  is_nonzero = λ x. not (eq_ℤ x (pos 0));
  less = ltb_ℤ;
  whole = ok;
  cents = λ x y. ok (pos (100 * pos_part (x -ℤ y)));
}

abbrev column_example : String → String → String → ColumnDistribution ℤ
column_example name kind role = record {
  name = name;
  kind = kind;
  role = role;
  cardinality = pos 0;
  alpha = pos 0;
  vocabulary = [];
  minimum = pos 0;
  maximum = pos 0;
  width = pos 0;
}

abbrev configured_example : List (ColumnDistribution ℤ)
configured_example =
    column_example "at" "timestamp" "event_time"
    ∷ record (column_example "user" "categorical" "entity") {
      cardinality = pos 2;
      vocabulary = "a" ∷ "b" ∷ [];
    }
    ∷ record (column_example "amount" "decimal" "sum_measure") { maximum = pos 9 }
    ∷ column_example "body" "blob" "payload"
    ∷ []

abbrev returns : {A : Type 0} → Result A → Bool
returns (ok value) = true
returns (err e) = false

schema-built : returns (build_columns whole_numbers (λ name. true) configured_example) ≡ true
unfolding build_columns validate_columns validate_roles validate_each validate_column
    validate_value_space space_of_kind categorical_space numeric_space span_of boolean_space
    blob_space
schema-built = refl

build_columns-IsSchema_example :
    Ensures
      (IsSchema whole_numbers (λ name. true) configured_example)
      (build_columns whole_numbers (λ name. true) configured_example)
build_columns-IsSchema_example =
    build_columns-IsSchema whole_numbers (λ name. true) configured_example
