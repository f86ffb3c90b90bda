-- ===== src/Corpus/Columns/Spaces.antt =====
-- The value space of a column of ingest_bench/corpus/columns.py: `validate_value_space`.
use text.Mathlib.Text.{◌==◌ as str_eq}
use lakehouse_ingest_bench.Prelude.Int.{ℤ, pos, ltb_ℤ, eq_ℤ, ◌+ℤ◌, ◌-ℤ◌}
use lakehouse_ingest_bench.Result.{Result, ok, ◌>>=◌, ◌>>◌, refuse}
use lakehouse_ingest_bench.Prelude.{Bool, not, ◌&&◌, ◌||◌, [], ◌∷◌, if◌then◌else◌}
use lakehouse_ingest_bench.Prelude.Strings.{among}
use lakehouse_ingest_bench.Corpus.Columns.{
  ColumnNumbers, ColumnDistribution, is_empty_list, zipf_max_cardinality, min_unbounded_token_width,
}

module _ (numbers : ColumnNumbers) where
  open numbers use {Number, nothing, is_nonzero, less, whole, cents}

  abbrev pub bounded : ColumnDistribution Number → Bool
  bounded column = not (eq_ℤ column.cardinality (pos 0))

  abbrev pub has_width : ColumnDistribution Number → Bool
  has_width column = not (eq_ℤ column.width (pos 0))

  abbrev pub has_range : ColumnDistribution Number → Bool
  has_range column = is_nonzero column.minimum || is_nonzero column.maximum

  abbrev pub has_vocabulary : ColumnDistribution Number → Bool
  has_vocabulary column = not (is_empty_list column.vocabulary)

  unfoldable pub categorical_space : ColumnDistribution Number → Result (Unit {0})
  categorical_space column = do
    refuse (has_range column)
    if bounded column
        then (do refuse (not (has_vocabulary column)); refuse (has_width column))
        else (do
          refuse (has_vocabulary column)
          refuse (ltb_ℤ column.width min_unbounded_token_width))

  -- How many values the numeric range holds.
  unfoldable pub span_of : ColumnDistribution Number → Result ℤ
  span_of column =
      if str_eq column.kind "integer"
      then (do high ← whole column.maximum; low ← whole column.minimum; ok ((high -ℤ low) +ℤ pos 1))
      else (do steps ← cents column.maximum column.minimum; ok (steps +ℤ pos 1))

  unfoldable pub numeric_space : ColumnDistribution Number → Result (Unit {0})
  unfolding span_of
  numeric_space column = do
    refuse (has_vocabulary column || has_width column)
    refuse (less column.maximum column.minimum)
    span ← span_of column
    let needed = if bounded column then column.cardinality else pos 2
    refuse (not (eq_ℤ column.cardinality (pos 1)) && ltb_ℤ span needed)

  unfoldable pub boolean_space : ColumnDistribution Number → Result (Unit {0})
  boolean_space column = do
    refuse (has_vocabulary column || has_width column || has_range column)
    refuse (not (eq_ℤ column.cardinality (pos 1) || eq_ℤ column.cardinality (pos 2)))

  unfoldable pub blob_space : ColumnDistribution Number → Result (Unit {0})
  blob_space column = do
    refuse (has_vocabulary column || has_range column)
    if str_eq column.role "payload"
        then refuse (has_width column)
        else refuse (not (ltb_ℤ (pos 0) column.width))

  unfoldable pub space_of_kind : ColumnDistribution Number → Result (Unit {0})
  unfolding categorical_space numeric_space boolean_space blob_space
  space_of_kind column =
      if str_eq column.kind "categorical"
      then categorical_space column
      else if among column.kind ("integer" ∷ "decimal" ∷ [])
      then numeric_space column
      else if str_eq column.kind "boolean"
      then boolean_space column
      else if str_eq column.kind "timestamp"
      then refuse (has_vocabulary column || has_width column || has_range column)
      else if str_eq column.kind "blob"
      then blob_space column
      else ok tt

  unfoldable pub validate_value_space : ColumnDistribution Number → Result (Unit {0})
  unfolding space_of_kind
  validate_value_space column = do
    refuse (less nothing column.alpha && not (bounded column))
    refuse (less nothing column.alpha && ltb_ℤ zipf_max_cardinality column.cardinality)
    space_of_kind column
