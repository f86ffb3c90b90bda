-- ===== src/Corpus/Columns/Schema.antt =====
-- What a schema that is built offers to the corpus and to the engines.
use text.Mathlib.TextEquality.{eq_iff}
use text.Mathlib.Text.{◌==◌ as str_eq}
use lakehouse_ingest_bench.Prelude.Int.{pos, ltb_ℤ}
use lakehouse_ingest_bench.Result.{
  found, ok, Ensures, returned, raises, ◌⊳◌, Ensures-implies, returns_it, passes,
}
use lakehouse_ingest_bench.Prelude.{
  String, ◌≡◌, ◌≢◌, refl, ap, inl, inr, Bool, true, false, not, ◌&&◌, ◌||◌, some, List, [], ◌∷◌,
  ◌++◌, map, arith, Bool-cases, not-false, All,
}
use lakehouse_ingest_bench.Prelude.Strings.{among, lookup, keys}
use lakehouse_ingest_bench.Engines.Flink.{flink_ddl_type}
use lakehouse_ingest_bench.Corpus.Columns.{
  ColumnNumbers, ColumnDistribution, AvroType, reserved_fields, avro_type_by_kind, repeats,
  is_empty_list, iceberg_type_name, column_roles,
}
use lakehouse_ingest_bench.Corpus.Columns.Spaces.{validate_value_space}
use lakehouse_ingest_bench.Corpus.Columns.Build.{
  sole, holders, validate_roles, validate_column, validate_each, validate_columns, reserved_column,
  build_columns, role_column, generated_fields, schema_fields,
}

or-false : (a b : Bool) → a || b ≡ false → b ≡ false
or-false a b h = ground arith

or-left : (a b : Bool) → a || b ≡ false → a ≡ false
or-left a b h = ground arith

-- A type that the table and a Flink source have a name for.
abbrev pub IsTyped : AvroType → Type 0
IsTyped type =
    (published ddl : String) × (iceberg_type_name type ≡ ok published)
    × (flink_ddl_type published ≡ ok ddl)

lookup-IsTyped :
    (entries : List (String × AvroType)) (kind : String)
    → All (λ (entry : String × AvroType). IsTyped entry.1) entries
    → among kind (keys entries) ≡ true
    → (type : AvroType) × (lookup kind entries ≡ some type) × IsTyped type
lookup-IsTyped [] kind typed h = absurd (cc h)
lookup-IsTyped ((k, type) ∷ entries) kind (first, rest) h = elim (Bool-cases (str_eq k kind)) [
  | inl same ↦ (type, rw same refl, first)
  | inr other ↦
      let later : among kind (keys entries) ≡ true = ground (arith, eq_iff k kind, eq_iff kind k) in
      rw other (lookup-IsTyped entries kind rest later)
]

kinds-IsTyped : All (λ (entry : String × AvroType). IsTyped entry.1) avro_type_by_kind
unfolding iceberg_type_name flink_ddl_type found
kinds-IsTyped = (
  ("string", "STRING", refl, refl),
  (
    ("long", "BIGINT", refl, refl),
    (
      ("double", "DOUBLE", refl, refl),
      (
        ("boolean", "BOOLEAN", refl, refl),
        (("timestamp", "TIMESTAMP(3)", refl, refl), (("binary", "BYTES", refl, refl), tt)),
      ),
    ),
  ),
)

reserved-IsTyped : All (λ (entry : String × AvroType). IsTyped entry.1) reserved_fields
unfolding iceberg_type_name flink_ddl_type found
reserved-IsTyped = (("long", "BIGINT", refl, refl), (("string", "STRING", refl, refl), tt))

module _ (numbers : ColumnNumbers) (isidentifier : String → Bool) where
  open numbers use {Number}

  -- The one column of a role.
  abbrev pub HasRole :
      String
      → List String
      → List (ColumnDistribution Number)
      → List (ColumnDistribution Number)
      → Type 0
  HasRole role kinds configured columns =
      (column : ColumnDistribution Number) × (holders numbers isidentifier role configured
        ≡ column ∷ [])
      × (among column.kind kinds ≡ true)
      × (role_column numbers isidentifier columns role ≡ ok column)

  -- The one holder of a role.
  abbrev Sole : List String → List (ColumnDistribution Number) → Type 0
  Sole kinds columns =
      (column : ColumnDistribution Number) × (columns ≡ column ∷ [])
      × (among column.kind kinds ≡ true)

  sole-Sole :
      (kinds : List String) (columns : List (ColumnDistribution Number))
      → Ensures (λ _. Sole kinds columns) (sole numbers isidentifier kinds columns)
  sole-Sole kinds [] = raises
  sole-Sole kinds (column ∷ []) =
      Ensures-implies (λ _ h. (column, refl, not-false _ h))
        (passes (not (among column.kind kinds)))
  sole-Sole kinds (column ∷ other ∷ columns) = raises

  role_column-holders :
      (role : String) (columns : List (ColumnDistribution Number))
      (holder : ColumnDistribution Number)
      → holders numbers isidentifier role columns ≡ holder ∷ []
      → role_column numbers isidentifier columns role ≡ ok holder
  unfolding role_column
  role_column-holders role [] holder h = absurd (cc h)
  role_column-holders role (column ∷ columns) holder h =
      elim (Bool-cases (str_eq column.role role)) [
        | inl same ↦ rw same (cc (rw same at h))
        | inr other ↦ rw other (role_column-holders role columns holder (rw other at h))
      ]

  abbrev HasKind : ColumnDistribution Number → Type 0
  HasKind column =
      (among column.kind (keys avro_type_by_kind) ≡ true)
      × (str_eq column.kind "reserved" ≡ false)
      × (among column.name (keys reserved_fields) ≡ false)

  validate_column-HasKind :
      (column : ColumnDistribution Number)
      → Ensures (λ _. HasKind column) (validate_column numbers isidentifier column)
  unfolding validate_column
  validate_column-HasKind column =
      passes (among column.name (keys reserved_fields) || str_eq column.kind "reserved") ⊳ λ _ own.
      passes (not (isidentifier column.name)) ⊳ λ _ _.
      passes (not (among column.kind (keys avro_type_by_kind))) ⊳ λ _ known.
      passes (not (among column.role column_roles)) ⊳ λ _ _.
      passes (ltb_ℤ column.cardinality (pos 0)) ⊳ λ _ _.
      passes (numbers.less column.alpha numbers.nothing) ⊳ λ _ _.
      passes (str_eq column.kind "timestamp" && not (str_eq column.role "event_time")) ⊳ λ _ _.
      Ensures-implies (λ _ _. (not-false _ known, or-false _ _ own, or-left _ _ own))
        (returns_it (validate_value_space numbers column))

  validate_each-HasKind :
      (columns : List (ColumnDistribution Number))
      → Ensures (λ _. All HasKind columns) (validate_each numbers isidentifier columns)
  unfolding validate_each
  validate_each-HasKind [] = returned tt
  validate_each-HasKind (column ∷ columns) = validate_column-HasKind column ⊳ λ _ first.
      Ensures-implies (λ _ rest. (first, rest)) (validate_each-HasKind columns)

  -- No two columns have one name.
  abbrev pub AreDistinct : List (ColumnDistribution Number) → Type 0
  AreDistinct [] = Unit
  AreDistinct (column ∷ columns) =
      All (λ (other : ColumnDistribution Number). column.name ≢ other.name) columns
      × AreDistinct columns

  not_among :
      (name : String) (columns : List (ColumnDistribution Number))
      → among name (map (λ column. column.name) columns) ≡ false
      → All (λ (other : ColumnDistribution Number). name ≢ other.name) columns
  not_among name [] h = tt
  not_among name (column ∷ columns) h = (
    (λ same. absurd (ground (arith, eq_iff name column.name, eq_iff column.name name))),
    not_among name columns (ground arith),
  )

  repeats-AreDistinct :
      (columns : List (ColumnDistribution Number))
      → repeats (map (λ column. column.name) columns) ≡ false
      → AreDistinct columns
  repeats-AreDistinct [] h = tt
  repeats-AreDistinct (column ∷ columns) h =
      (not_among column.name columns (ground arith), repeats-AreDistinct columns (ground arith))

  -- A reserved name is none of the columns'.
  reserved-differs :
      (name : String) (columns : List (ColumnDistribution Number))
      → among name (keys reserved_fields) ≡ true
      → All HasKind columns
      → All (λ (other : ColumnDistribution Number). name ≢ other.name) columns
  reserved-differs name [] reserved h = tt
  reserved-differs name (column ∷ columns) reserved (first, rest) =
      ((λ same. absurd (cc (reserved, first.2, same))), reserved-differs name columns reserved rest)

  -- The fields of columns, each with a type, under the columns' names.
  abbrev pub AreTyped : List String → List (String × AvroType) → Type 0
  AreTyped names fields =
      (map (λ (field : String × AvroType). field.0) fields ≡ names)
      × All (λ (field : String × AvroType). IsTyped field.1) fields

  generated_fields-AreTyped :
      (columns : List (ColumnDistribution Number))
      → All HasKind columns
      → (fields : List (String × AvroType)) × (generated_fields numbers isidentifier columns
          ≡ ok fields)
        × AreTyped (map (λ column. column.name) columns) fields
  unfolding generated_fields
  generated_fields-AreTyped [] h = ([], refl, (refl, tt))
  generated_fields-AreTyped (column ∷ columns) ((known, own, _), others) =
      let (type, at, typed) = lookup-IsTyped avro_type_by_kind column.kind kinds-IsTyped known in
      let (fields, made, (names, rest)) = generated_fields-AreTyped columns others in
      (
        (column.name, type) ∷ fields,
        rw (own, at, made) refl,
        (ap (λ l. column.name ∷ l) names, (typed, rest)),
      )

  -- What a built schema offers.
  pub record IsSchema (configured columns : List (ColumnDistribution Number)) : Type 0 where
    pub event_time : HasRole "event_time" ("timestamp" ∷ []) configured columns
    pub entity : HasRole "entity" ("categorical" ∷ []) configured columns
    pub sum_measure : HasRole "sum_measure" ("integer" ∷ "decimal" ∷ []) configured columns
    pub payload : HasRole "payload" ("blob" ∷ []) configured columns
    pub unique : AreDistinct columns
    pub typed :
        (fields : List (String × AvroType)) × (schema_fields numbers isidentifier columns
          ≡ ok fields)
        × AreTyped (keys reserved_fields ++ map (λ column. column.name) configured) fields

  schema_fields-AreTyped :
      (configured : List (ColumnDistribution Number))
      → All HasKind configured
      → (fields : List (String × AvroType)) × (schema_fields numbers isidentifier
            (map (reserved_column numbers isidentifier) (keys reserved_fields) ++ configured)
          ≡ ok fields)
        × AreTyped (keys reserved_fields ++ map (λ column. column.name) configured) fields
  unfolding schema_fields generated_fields
  schema_fields-AreTyped configured h =
      let (fields, made, (names, typed)) = generated_fields-AreTyped configured h in
      (
        reserved_fields ++ fields,
        rw made refl,
        (
          ap (λ l. "id" ∷ "partition_key" ∷ l) names,
          (reserved-IsTyped.0, (reserved-IsTyped.1.0, typed)),
        ),
      )

  abbrev AreSole : List (ColumnDistribution Number) → Type 0
  AreSole configured =
      Sole ("timestamp" ∷ []) (holders numbers isidentifier "event_time" configured)
      × Sole ("categorical" ∷ []) (holders numbers isidentifier "entity" configured)
      × Sole ("integer" ∷ "decimal" ∷ []) (holders numbers isidentifier "sum_measure" configured)
      × Sole ("blob" ∷ []) (holders numbers isidentifier "payload" configured)

  validate_roles-AreSole :
      (configured : List (ColumnDistribution Number))
      → Ensures (λ _. AreSole configured) (validate_roles numbers isidentifier configured)
  unfolding validate_roles
  validate_roles-AreSole configured =
      sole-Sole ("timestamp" ∷ []) (holders numbers isidentifier "event_time" configured)
      ⊳ λ _ time.
          sole-Sole ("categorical" ∷ []) (holders numbers isidentifier "entity" configured)
          ⊳ λ _ entity.
              sole-Sole ("integer" ∷ "decimal" ∷ [])
                (holders numbers isidentifier "sum_measure" configured)
              ⊳ λ _ measure.
                  Ensures-implies (λ _ payload. (time, entity, measure, payload))
                    (sole-Sole ("blob" ∷ []) (holders numbers isidentifier "payload" configured))

  validated-IsSchema :
      (configured : List (ColumnDistribution Number))
      → repeats (map (λ column. column.name) configured) ≡ false
      → AreSole configured
      → All HasKind configured
      → IsSchema configured
          (map (reserved_column numbers isidentifier) (keys reserved_fields) ++ configured)
  unfolding role_column
  validated-IsSchema configured unique (time, entity, measure, payload) kinds = record {
    event_time =
        (time.0, time.1, time.2, role_column-holders "event_time" configured time.0 time.1);
    entity =
        (entity.0, entity.1, entity.2, role_column-holders "entity" configured entity.0 entity.1);
    sum_measure = (
      measure.0,
      measure.1,
      measure.2,
      role_column-holders "sum_measure" configured measure.0 measure.1,
    );
    payload = (
      payload.0,
      payload.1,
      payload.2,
      role_column-holders "payload" configured payload.0 payload.1,
    );
    unique = (
      (λ same. absurd (cc same), reserved-differs "id" configured refl kinds),
      (
        reserved-differs "partition_key" configured refl kinds,
        repeats-AreDistinct configured unique,
      ),
    );
    typed = schema_fields-AreTyped configured kinds;
  }

  validate_columns-IsSchema :
      (configured : List (ColumnDistribution Number))
      → Ensures
          (λ _.
            IsSchema configured
              (map (reserved_column numbers isidentifier) (keys reserved_fields) ++ configured))
          (validate_columns numbers isidentifier
            (map (reserved_column numbers isidentifier) (keys reserved_fields) ++ configured))
  unfolding validate_columns
  validate_columns-IsSchema configured = passes false ⊳ λ _ _.
      passes (is_empty_list configured) ⊳ λ _ _.
      passes (repeats (map (λ column. column.name) configured)) ⊳ λ _ unique.
      validate_roles-AreSole configured ⊳ λ _ roles.
      Ensures-implies (λ _ kinds. validated-IsSchema configured unique roles kinds)
        (validate_each-HasKind configured)

  -- A schema that is built has exactly one column of each role that queries and generation go by, of a kind
  -- that the role allows, and looking the role up returns it. No two of its columns, the reserved ones in
  -- front among them, have one name, and every field has a type that the table and a Flink source have a name for.
  pub build_columns-IsSchema :
      (configured : List (ColumnDistribution Number))
      → Ensures (IsSchema configured) (build_columns numbers isidentifier configured)
  unfolding build_columns
  build_columns-IsSchema configured =
      validate_columns-IsSchema configured ⊳ λ _ schema. returned schema
