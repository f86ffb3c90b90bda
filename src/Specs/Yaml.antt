-- ===== src/Specs/Yaml.antt =====
-- The readers of YAML values at the head of ingest_bench/specs/model.py. A parsed document is a
-- value of `Yaml`; a mapping lists its entries, with their keys as text and each key once.
use lakehouse_ingest_bench.Prelude.Int.{ℤ}
use lakehouse_ingest_bench.Result.{value_error, Result, ok, err, ◌>>=◌, refuse}
use lakehouse_ingest_bench.Prelude.{String, Bool, not, Option, none, some, List, [], ◌∷◌, any}
use lakehouse_ingest_bench.Prelude.Strings.{among, lookup, keys, codes, begins_with}

-- A float of a document. `F` has the finite ones.
pub data Real (F : Type 0) : Type 0 where
  finite : F → Real F
  infinite negative_infinite not_a_number : Real F

mutual
  pub data Yaml (F : Type 0) : Type 0 where
    null : Yaml F
    boolean : Bool → Yaml F
    integer : ℤ → Yaml F
    number : Real F → Yaml F
    quoted : String → Yaml F
    sequence : Items F → Yaml F
    mapping : Fields F → Yaml F

  pub data Items (F : Type 0) : Type 0 where
    no_items : Items F
    item : Yaml F → Items F → Items F

  pub data Fields (F : Type 0) : Type 0 where
    no_fields : Fields F
    field : String → Yaml F → Fields F → Fields F

abbrev pub Block : Type 0 → Type 0
Block F = List (String × Yaml F)

module _ {F : Type 0} where
  abbrev pub items_of : Items F → List (Yaml F)
  items_of no_items = []
  items_of (item value items) = value ∷ items_of items

  abbrev pub block_of : Fields F → Block F
  block_of no_fields = []
  block_of (field key value fields) = (key, value) ∷ block_of fields

  unfoldable pub as_mapping : Yaml F → Result (Block F)
  as_mapping (mapping fields) = ok (block_of fields)
  as_mapping _ = err value_error

  unfoldable pub as_str : Yaml F → Result String
  as_str (quoted value) = ok value
  as_str _ = err value_error

  -- A boolean is refused, although Python counts it as an integer.
  unfoldable pub as_int : Yaml F → Result ℤ
  as_int (integer n) = ok n
  as_int _ = err value_error

  -- float(value), by `of_int`
  unfoldable pub as_float : (ℤ → F) → Yaml F → Result (Real F)
  as_float of_int (integer n) = ok (finite (of_int n))
  as_float of_int (number x) = ok x
  as_float of_int _ = err value_error

  unfoldable pub as_strings : Block F → Result (List (String × String))
  as_strings [] = ok []
  as_strings ((key, value) ∷ block) = do
    first ← as_str value
    rest ← as_strings block
    ok ((key, first) ∷ rest)

  unfoldable pub as_string_map : Yaml F → Result (List (String × String))
  unfolding as_mapping as_strings
  as_string_map value = do block ← as_mapping value; as_strings block

  unfoldable pub as_maps : List (Yaml F) → Result (List (List (String × String)))
  as_maps [] = ok []
  as_maps (value ∷ values) = do
    first ← as_string_map value
    rest ← as_maps values
    ok (first ∷ rest)

  unfoldable pub as_string_maps : Yaml F → Result (List (List (String × String)))
  as_string_maps (sequence items) = as_maps (items_of items)
  as_string_maps _ = err value_error

  unfoldable pub as_ints : List (Yaml F) → Result (List ℤ)
  as_ints [] = ok []
  as_ints (value ∷ values) = do first ← as_int value; rest ← as_ints values; ok (first ∷ rest)

  -- `_refuse_unknown`
  unfoldable pub refuse_unknown : Block F → List String → Result (Unit {0})
  refuse_unknown block allowed = refuse (any (λ key. not (among key allowed)) (keys block))

  -- `_block`: an optional block is empty when it is left out.
  unfoldable pub block_at : Block F → String → Result (Block F)
  unfolding as_mapping
  block_at raw key = elim (lookup key raw) [ none ↦ ok [] | some value ↦ as_mapping value ]

  -- `_required`
  unfoldable pub required : Block F → String → Result (Yaml F)
  required raw key = elim (lookup key raw) [ none ↦ err value_error | some value ↦ ok value ]

  -- read(_required(raw, key, where)), and `default if key not in raw else read(raw[key])`
  abbrev pub required_as : {A : Type 0} → (Yaml F → Result A) → Block F → String → Result A
  required_as read raw key = do value ← required raw key; read value

  abbrev pub optional_as : {A : Type 0} → A → (Yaml F → Result A) → Block F → String → Result A
  optional_as default read raw key = elim (lookup key raw) [
    | none ↦ ok default
    | some value ↦ read value
  ]

  abbrev pub some_of : {A : Type 0} → (Yaml F → Result A) → Yaml F → Result (Option A)
  some_of read value = do a ← read value; ok (some a)

-- refuse_compression_props
unfoldable pub refuse_compression_props : {V : Type 0} → List (String × V) → Result (Unit {0})
refuse_compression_props props =
    refuse (any (λ key. begins_with (codes key) (codes "compression.")) (keys props))
