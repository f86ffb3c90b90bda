-- ===== src/Specs/Run/Valid.antt =====
-- What a loaded run specification satisfies.
use text.Mathlib.Text.{◌==◌ as str_eq}
use lakehouse_ingest_bench.Prelude.Int.{ℤ, pos, negsuc, pos_part, ◌≤ℤ◌}
use lakehouse_ingest_bench.Result.{ok, Ensures, returned, ◌⊳◌, returns_it, passes}
use lakehouse_ingest_bench.Prelude.{
  ℕ, String, ◌≡◌, refl, ap, ◌⊎◌, inl, inr, Bool, true, false, not, ◌&&◌, ◌||◌, Option, none, some,
  List, [], ◌∷◌, map, arith, if◌then◌else◌, any, not-false,
}
use lakehouse_ingest_bench.Prelude.Floats.{Floats}
use lakehouse_ingest_bench.Prelude.Strings.{among, has_key, keys}
use lakehouse_ingest_bench.Scorer.Geometry.{ascends}
use lakehouse_ingest_bench.Specs.Yaml.{
  optional_as, required_as, some_of, as_int, as_str, as_float, as_string_map, Real, finite,
  infinite, negative_infinite, not_a_number, Yaml, Block, as_mapping,
}
use lakehouse_ingest_bench.Specs.Blocks.{
  of_int, offsets_in, default_geometry_offsets_s, ProducerSpec, ScoringSpec, FleetRole,
  ExternalSpec, table_spec, kafka_spec, producer_spec, scoring_spec, external_spec, fleet, harness,
  engine_owned, value_encodings, compressions, not_positive, negative, if_given, fails_to_ascend,
  not_finite_positive,
}
use lakehouse_ingest_bench.Specs.Run.{
  name_matches, managed_engines, external_engine, spec_keys, RunSpec, engine_side, load_run_spec,
}
use lakehouse_ingest_bench.Specs.Run.Known.{
  IsKnown, KnownUnder, refuse_unknown-IsKnown, block_at-KnownUnder, required-KnownUnder,
}

-- An optional integer is at least `low` where it is given.
abbrev GivenFrom : ℤ → Option ℤ → Type 0
GivenFrom low none = Unit
GivenFrom low (some n) = low ≤ℤ n

-- The offsets are natural numbers in the order that a geometry report takes.
abbrev AreOffsets : List ℤ → Type 0
AreOffsets offsets = (seconds : List ℕ) × (offsets ≡ map pos seconds) × (ascends seconds ≡ true)

not_positive-from : (n : ℤ) → not_positive n ≡ false → pos 1 ≤ℤ n
not_positive-from n h = ground arith

negative-from : (n : ℤ) → negative n ≡ false → pos 0 ≤ℤ n
negative-from n h = ground arith

given-from :
    (test : ℤ → Bool) (low : ℤ) (n : Option ℤ)
    → ((k : ℤ) → test k ≡ false → low ≤ℤ k)
    → if_given test n ≡ false
    → GivenFrom low n
given-from test low none from h = tt
given-from test low (some n) from h = from n h

map-pos_part :
    (offsets : List ℤ) → any negative offsets ≡ false → offsets ≡ map pos (map pos_part offsets)
map-pos_part [] h = refl
map-pos_part (pos n ∷ offsets) h = ap (λ l. pos n ∷ l) (map-pos_part offsets (ground arith))
map-pos_part (negsuc n ∷ offsets) h = absurd (ground arith)

ascends-pos_part :
    (offsets : List ℤ)
    → any negative offsets ≡ false
    → fails_to_ascend offsets ≡ false
    → ascends (map pos_part offsets) ≡ true
ascends-pos_part [] h up = refl
ascends-pos_part (n ∷ []) h up = refl
ascends-pos_part (n ∷ m ∷ offsets) h up =
    let rest = ascends-pos_part (m ∷ offsets) (ground arith) (ground arith) in
    ascends-step n m offsets h up rest
  where
    ascends-step :
        (n m : ℤ) (offsets : List ℤ)
        → any negative (n ∷ m ∷ offsets) ≡ false
        → fails_to_ascend (n ∷ m ∷ offsets) ≡ false
        → ascends (map pos_part (m ∷ offsets)) ≡ true
        → ascends (map pos_part (n ∷ m ∷ offsets)) ≡ true
    ascends-step (negsuc n) m offsets h up rest = absurd (ground arith)
    ascends-step (pos n) (negsuc m) offsets h up rest = absurd (ground arith)
    ascends-step (pos n) (pos m) offsets h up rest = ground (arith, rest)

offsets-AreOffsets :
    (offsets : List ℤ)
    → any negative offsets ≡ false
    → fails_to_ascend offsets ≡ false
    → AreOffsets offsets
offsets-AreOffsets offsets h up =
    (map pos_part offsets, map-pos_part offsets h, ascends-pos_part offsets h up)

module _ (fl : Floats) where
  open fl use {Float, le, origin}

  abbrev IsPositive : Real Float → Type 0
  IsPositive x = (value : Float) × (x ≡ finite value) × (le value origin ≡ false)

  IsPositive-from : (x : Real Float) → not_finite_positive fl x ≡ false → IsPositive x
  IsPositive-from (finite x) h = (x, refl, h)
  IsPositive-from infinite h = absurd (cc h)
  IsPositive-from negative_infinite h = absurd (cc h)
  IsPositive-from not_a_number h = absurd (cc h)

  pub record IsProducer (p : ProducerSpec Float) : Type 0 where
    pub speed : IsPositive p.speed
    pub seconds : GivenFrom (pos 1) p.seconds
    pub shards : pos 1 ≤ℤ p.shards
    pub behind_max_ms : pos 0 ≤ℤ p.behind_max_ms
    pub compression : among p.compression compressions ≡ true

  pub record IsScoring (s : ScoringSpec Float) : Type 0 where
    pub freshness_bound_s : IsPositive s.freshness_bound_s
    pub warmup_s : pos 0 ≤ℤ s.warmup_s
    pub gate_adaptation_s : GivenFrom (pos 0) s.gate_adaptation_s
    pub gate_window_s : GivenFrom (pos 1) s.gate_window_s
    pub geometry_offsets_s : AreOffsets s.geometry_offsets_s

  abbrev producer_keys : List String
  producer_keys = "speed" ∷ "seconds" ∷ "shards" ∷ "behind_max_ms" ∷ "compression" ∷ []

  abbrev scoring_keys : List String
  scoring_keys =
      "freshness_bound_s" ∷ "warmup_s" ∷ "geometry_offsets_s" ∷ "gate_adaptation_s"
      ∷ "gate_window_s" ∷ []

  abbrev kafka_keys : List String
  kafka_keys = "partitions" ∷ "key" ∷ "value_encoding" ∷ []

  abbrev table_keys : List String
  table_keys = "managed_by" ∷ "partition" ∷ "properties" ∷ []

  abbrev external_keys : List String
  external_keys = "name" ∷ "version" ∷ "notes" ∷ []

  producer_spec-IsProducer :
      (raw : Block Float)
      → Ensures (λ p. IsProducer p × KnownUnder raw "producer" producer_keys) (producer_spec fl raw)
  unfolding producer_spec
  producer_spec-IsProducer raw = block_at-KnownUnder raw "producer" producer_keys ⊳ λ block under.
      refuse_unknown-IsKnown block producer_keys ⊳ λ _ names.
      returns_it (optional_as "zstd" as_str block "compression") ⊳ λ compression _.
      passes (not (among compression compressions)) ⊳ λ _ known.
      returns_it (optional_as _ (as_float (of_int fl)) block "speed") ⊳ λ speed _.
      returns_it (optional_as none (some_of as_int) block "seconds") ⊳ λ seconds _.
      returns_it (optional_as (pos 1) as_int block "shards") ⊳ λ shards _.
      returns_it (optional_as (pos 5_000) as_int block "behind_max_ms") ⊳ λ behind _.
      passes (not_finite_positive fl speed) ⊳ λ _ a. passes (if_given not_positive seconds) ⊳ λ _ b.
      passes (not_positive shards) ⊳ λ _ c. passes (negative behind) ⊳ λ _ d. returned (
        record {
          speed = IsPositive-from speed a;
          seconds = given-from not_positive (pos 1) seconds not_positive-from b;
          shards = not_positive-from shards c;
          behind_max_ms = negative-from behind d;
          compression = not-false (among compression compressions) known;
        },
        under names,
      )

  scoring_spec-IsScoring :
      (raw : Block Float)
      → Ensures (λ s. IsScoring s × KnownUnder raw "scoring" scoring_keys) (scoring_spec fl raw)
  unfolding scoring_spec
  scoring_spec-IsScoring raw = block_at-KnownUnder raw "scoring" scoring_keys ⊳ λ block under.
      refuse_unknown-IsKnown block scoring_keys ⊳ λ _ names.
      returns_it (optional_as default_geometry_offsets_s offsets_in block "geometry_offsets_s")
      ⊳ λ offsets _.
          returns_it (optional_as _ (as_float (of_int fl)) block "freshness_bound_s") ⊳ λ bound _.
          returns_it (optional_as (pos 120) as_int block "warmup_s") ⊳ λ warmup _.
          returns_it (optional_as none (some_of as_int) block "gate_adaptation_s") ⊳ λ adaptation _.
          returns_it (optional_as none (some_of as_int) block "gate_window_s") ⊳ λ window _.
          passes (not_finite_positive fl bound) ⊳ λ _ a. passes (negative warmup) ⊳ λ _ b.
          passes (if_given negative adaptation) ⊳ λ _ c.
          passes (if_given not_positive window) ⊳ λ _ d. passes (any negative offsets) ⊳ λ _ e.
          passes (fails_to_ascend offsets) ⊳ λ _ f. returned (
            record {
              freshness_bound_s = IsPositive-from bound a;
              warmup_s = negative-from warmup b;
              gate_adaptation_s = given-from negative (pos 0) adaptation negative-from c;
              gate_window_s = given-from not_positive (pos 1) window not_positive-from d;
              geometry_offsets_s = offsets-AreOffsets offsets e f;
            },
            under names,
          )

  -- How the engine's side of a specification fits its engine.
  abbrev FitsEngine :
      Block Float → String → Option ExternalSpec → List (FleetRole Float) → Block Float → Type 0
  FitsEngine raw engine external roles block =
      ((among engine managed_engines ≡ true) × (external ≡ none) × (roles ≡ []))
      ⊎ ((str_eq engine external_engine ≡ true)
          × ((e : ExternalSpec) × (external ≡ some e))
          × KnownUnder raw "external" external_keys
          × (block ≡ []))

  pub record IsRunSpec (document : Yaml Float) (s : RunSpec Float) : Type 0 where
    pub raw : Block Float
    pub is_raw : as_mapping document ≡ ok raw
    pub known :
        IsKnown
          (if among s.engine managed_engines then s.engine ∷ spec_keys else spec_keys)
          (keys raw)
    pub kafka_known : KnownUnder raw "kafka" kafka_keys
    pub table_known : KnownUnder raw "table" table_keys
    pub producer_known : KnownUnder raw "producer" producer_keys
    pub scoring_known : KnownUnder raw "scoring" scoring_keys
    pub name : name_matches s.name ≡ true
    pub engine_side : FitsEngine raw s.engine s.external s.fleet s.engine_block
    pub managed_by : among s.table.managed_by (harness ∷ engine_owned ∷ []) ≡ true
    pub value_encoding : among s.kafka.value_encoding value_encodings ≡ true
    pub producer : IsProducer s.producer
    pub scoring : IsScoring s.scoring

  external_spec-known :
      (raw : Block Float)
      → Ensures (λ _. KnownUnder raw "external" external_keys) (external_spec raw)
  unfolding external_spec
  external_spec-known raw = required-KnownUnder raw "external" external_keys ⊳ λ block under.
      refuse_unknown-IsKnown block external_keys ⊳ λ _ names.
      returns_it (required_as as_str block "name") ⊳ λ name _.
      returns_it (required_as as_str block "version") ⊳ λ version _.
      returns_it (required_as as_str block "notes") ⊳ λ notes _. returned (under names)

  engine_side-FitsEngine :
      (raw : Block Float) (engine : String) (managed : Bool)
      → among engine managed_engines ≡ managed
      → not managed && not (str_eq engine external_engine) ≡ false
      → Ensures
          (λ side. FitsEngine raw engine side.external side.fleet side.block)
          (engine_side fl raw engine managed)
  unfolding engine_side
  engine_side-FitsEngine raw engine true same one_of =
      passes (has_key "external" raw || has_key "fleet" raw) ⊳ λ _ _.
      returns_it (required_as as_mapping raw engine) ⊳ λ block _. returned (inl (same, refl, refl))
  engine_side-FitsEngine raw engine false same one_of = external_spec-known raw ⊳ λ e under.
      returns_it (fleet fl raw) ⊳ λ roles _.
      returned (inr (not-false (str_eq engine external_engine) one_of, (e, refl), under, refl))

  table_spec-managed_by :
      (raw : Block Float) (default : String)
      → Ensures
          (λ t.
            (among t.managed_by (harness ∷ engine_owned ∷ []) ≡ true)
            × KnownUnder raw "table" table_keys)
          (table_spec raw default)
  unfolding table_spec
  table_spec-managed_by raw default = block_at-KnownUnder raw "table" table_keys ⊳ λ block under.
      refuse_unknown-IsKnown block table_keys ⊳ λ _ names.
      returns_it (optional_as harness as_str block "managed_by") ⊳ λ managed_by _.
      passes (not (among managed_by (harness ∷ engine_owned ∷ []))) ⊳ λ _ known.
      returns_it (optional_as default as_str block "partition") ⊳ λ partition _.
      returns_it (optional_as [] as_string_map block "properties") ⊳ λ properties _.
      returned (not-false (among managed_by (harness ∷ engine_owned ∷ [])) known, under names)

  kafka_spec-value_encoding :
      (raw : Block Float)
      → Ensures
          (λ k. (among k.value_encoding value_encodings ≡ true) × KnownUnder raw "kafka" kafka_keys)
          (kafka_spec raw)
  unfolding kafka_spec
  kafka_spec-value_encoding raw = required-KnownUnder raw "kafka" kafka_keys ⊳ λ block under.
      refuse_unknown-IsKnown block kafka_keys ⊳ λ _ names.
      returns_it (optional_as "avro" as_str block "value_encoding") ⊳ λ encoding _.
      passes (not (among encoding value_encodings)) ⊳ λ _ known.
      returns_it (required_as as_int block "partitions") ⊳ λ partitions _.
      returns_it (required_as as_str block "key") ⊳ λ key _.
      returned (not-false (among encoding value_encodings) known, under names)

  -- A run specification that loads has no key that is not read, nor has its Kafka, table, producer or
  -- scoring block, nor the external one of an external engine. Its speed and its freshness bound
  -- are finite and positive, its counts and times lie in their ranges, and its geometry offsets
  -- are natural numbers in strictly ascending order, as a geometry report requires. Its encodings
  -- and its table's owner are among the known ones. It is either of a managed engine, with no
  -- external side, or of an external one, with no knobs.
  pub load_run_spec-IsRunSpec :
      (document : Yaml Float) → Ensures (IsRunSpec document) (load_run_spec fl document)
  unfolding load_run_spec
  load_run_spec-IsRunSpec document = returns_it (as_mapping document) ⊳ λ raw is_raw.
      returns_it (required_as as_str raw "engine") ⊳ λ engine _.
      passes (not (among engine managed_engines) && not (str_eq engine external_engine))
      ⊳ λ _ one_of.
          refuse_unknown-IsKnown raw
            (if among engine managed_engines then engine ∷ spec_keys else spec_keys)
          ⊳ λ _ known. returns_it (required_as as_str raw "name") ⊳ λ name _.
              passes (not (name_matches name)) ⊳ λ _ named.
              returns_it (required_as as_str raw "corpus") ⊳ λ corpus _.
              kafka_spec-value_encoding raw ⊳ λ kafka encoding.
              table_spec-managed_by raw "identity(partition_key)" ⊳ λ table managed_by.
              engine_side-FitsEngine raw engine (among engine managed_engines) refl one_of
              ⊳ λ side fits. producer_spec-IsProducer raw ⊳ λ producer is_producer.
                  scoring_spec-IsScoring raw ⊳ λ scoring is_scoring. returned (record {
                    raw = raw;
                    is_raw = is_raw;
                    known = known;
                    name = not-false (name_matches name) named;
                    engine_side = fits;
                    managed_by = managed_by.0;
                    value_encoding = encoding.0;
                    producer = is_producer.0;
                    scoring = is_scoring.0;
                    kafka_known = encoding.1;
                    table_known = managed_by.1;
                    producer_known = is_producer.1;
                    scoring_known = is_scoring.1;
                  })
