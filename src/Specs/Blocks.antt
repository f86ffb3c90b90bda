-- ===== src/Specs/Blocks.antt =====
-- The blocks of a run specification, in ingest_bench/specs/model.py: `TableSpec` to `ExternalSpec`
-- and the functions that read them. 180.0 and 1.0 are the floats of those integers.
use lakehouse_ingest_bench.Prelude.Int.{ℤ, pos, ltb_ℤ}
use lakehouse_ingest_bench.Result.{value_error, Result, ok, err, ◌>>=◌, ◌>>◌, refuse}
use lakehouse_ingest_bench.Prelude.{
  String, Bool, true, false, not, ◌||◌, Option, none, some, List, [], ◌∷◌, any,
}
use lakehouse_ingest_bench.Prelude.Floats.{Floats}
use lakehouse_ingest_bench.Prelude.Strings.{among}
use lakehouse_ingest_bench.Specs.Yaml.{
  Real, finite, Yaml, sequence, Block, items_of, as_mapping, as_str, as_int, as_float,
  as_string_map, as_ints, refuse_unknown, block_at, required_as, optional_as, some_of,
}

abbrev pub harness : String
harness = "harness"

abbrev pub engine_owned : String
engine_owned = "engine"

abbrev pub value_encodings : List String
value_encodings = "avro" ∷ "confluent" ∷ []

abbrev pub compressions : List String
compressions = "gzip" ∷ "lz4" ∷ "none" ∷ "snappy" ∷ "zstd" ∷ []

abbrev pub default_geometry_offsets_s : List ℤ
default_geometry_offsets_s = pos 600 ∷ pos 1_200 ∷ pos 1_800 ∷ pos 2_700 ∷ pos 3_600 ∷ []

pub record TableSpec : Type 0 where
  pub managed_by : String
  pub partition : String
  pub properties : List (String × String)

pub record KafkaSpec : Type 0 where
  pub partitions : ℤ
  pub key : String
  pub value_encoding : String

pub record ProducerSpec (F : Type 0) : Type 0 where
  pub speed : Real F
  pub seconds : Option ℤ
  pub shards : ℤ
  pub behind_max_ms : ℤ
  pub compression : String

pub record ScoringSpec (F : Type 0) : Type 0 where
  pub freshness_bound_s : Real F
  pub warmup_s : ℤ
  pub geometry_offsets_s : List ℤ
  pub gate_adaptation_s : Option ℤ
  pub gate_window_s : Option ℤ

pub record FleetRole (F : Type 0) : Type 0 where
  pub role : String
  pub count : ℤ
  pub vcpu : Real F
  pub gib : Real F
  pub machine_type : String

pub record ExternalSpec : Type 0 where
  pub name : String
  pub version : String
  pub notes : String

-- n <= 0, n < 0, and the same of an optional value
abbrev pub not_positive : ℤ → Bool
not_positive n = not (ltb_ℤ (pos 0) n)

abbrev pub negative : ℤ → Bool
negative n = ltb_ℤ n (pos 0)

abbrev pub if_given : (ℤ → Bool) → Option ℤ → Bool
if_given test none = false
if_given test (some n) = test n

-- right <= left for some neighbours
abbrev pub fails_to_ascend : List ℤ → Bool
fails_to_ascend [] = false
fails_to_ascend (left ∷ []) = false
fails_to_ascend (left ∷ right ∷ offsets) =
    not (ltb_ℤ left right) || fails_to_ascend (right ∷ offsets)

module _ {F : Type 0} where
  unfoldable pub table_spec : Block F → String → Result TableSpec
  table_spec raw partition_default = do
    block ← block_at raw "table"
    refuse_unknown block ("managed_by" ∷ "partition" ∷ "properties" ∷ [])
    managed_by ← optional_as harness as_str block "managed_by"
    refuse (not (among managed_by (harness ∷ engine_owned ∷ [])))
    partition ← optional_as partition_default as_str block "partition"
    properties ← optional_as [] as_string_map block "properties"
    ok (record { managed_by = managed_by; partition = partition; properties = properties })

  unfoldable pub kafka_spec : Block F → Result KafkaSpec
  kafka_spec raw = do
    block ← required_as as_mapping raw "kafka"
    refuse_unknown block ("partitions" ∷ "key" ∷ "value_encoding" ∷ [])
    encoding ← optional_as "avro" as_str block "value_encoding"
    refuse (not (among encoding value_encodings))
    partitions ← required_as as_int block "partitions"
    key ← required_as as_str block "key"
    ok (record { partitions = partitions; key = key; value_encoding = encoding })

  unfoldable pub external_spec : Block F → Result ExternalSpec
  external_spec raw = do
    block ← required_as as_mapping raw "external"
    refuse_unknown block ("name" ∷ "version" ∷ "notes" ∷ [])
    name ← required_as as_str block "name"
    version ← required_as as_str block "version"
    notes ← required_as as_str block "notes"
    ok (record { name = name; version = version; notes = notes })

  -- raw["geometry_offsets_s"], which has to be a list
  abbrev pub offsets_in : Yaml F → Result (List ℤ)
  offsets_in (sequence items) = as_ints (items_of items)
  offsets_in _ = err value_error

module _ (fl : Floats) where
  open fl use {Float, le, origin, div}

  abbrev pub of_int : ℤ → Float
  of_int n = div n 1

  -- not math.isfinite(x) or x <= 0
  abbrev pub not_finite_positive : Real Float → Bool
  not_finite_positive (finite x) = le x origin
  not_finite_positive _ = true

  unfoldable pub producer_spec : Block Float → Result (ProducerSpec Float)
  producer_spec raw = do
    block ← block_at raw "producer"
    refuse_unknown block ("speed" ∷ "seconds" ∷ "shards" ∷ "behind_max_ms" ∷ "compression" ∷ [])
    compression ← optional_as "zstd" as_str block "compression"
    refuse (not (among compression compressions))
    speed ← optional_as (finite (of_int (pos 1))) (as_float of_int) block "speed"
    seconds ← optional_as none (some_of as_int) block "seconds"
    shards ← optional_as (pos 1) as_int block "shards"
    behind_max_ms ← optional_as (pos 5_000) as_int block "behind_max_ms"
    refuse (not_finite_positive speed)
    refuse (if_given not_positive seconds)
    refuse (not_positive shards)
    refuse (negative behind_max_ms)
    ok (record {
      speed = speed;
      seconds = seconds;
      shards = shards;
      behind_max_ms = behind_max_ms;
      compression = compression;
    })

  unfoldable pub scoring_spec : Block Float → Result (ScoringSpec Float)
  scoring_spec raw = do
    block ← block_at raw "scoring"
    refuse_unknown block (
        "freshness_bound_s" ∷ "warmup_s" ∷ "geometry_offsets_s" ∷ "gate_adaptation_s"
        ∷ "gate_window_s" ∷ [])
    offsets ← optional_as default_geometry_offsets_s offsets_in block "geometry_offsets_s"
    bound ← optional_as (finite (of_int (pos 180))) (as_float of_int) block "freshness_bound_s"
    warmup_s ← optional_as (pos 120) as_int block "warmup_s"
    adaptation ← optional_as none (some_of as_int) block "gate_adaptation_s"
    window ← optional_as none (some_of as_int) block "gate_window_s"
    refuse (not_finite_positive bound)
    refuse (negative warmup_s)
    refuse (if_given negative adaptation)
    refuse (if_given not_positive window)
    refuse (any negative offsets)
    refuse (fails_to_ascend offsets)
    ok (record {
      freshness_bound_s = bound;
      warmup_s = warmup_s;
      geometry_offsets_s = offsets;
      gate_adaptation_s = adaptation;
      gate_window_s = window;
    })

  unfoldable pub fleet_role : Yaml Float → Result (FleetRole Float)
  fleet_role value = do
    block ← as_mapping value
    refuse_unknown block ("role" ∷ "count" ∷ "vcpu" ∷ "gib" ∷ "machine_type" ∷ [])
    role ← required_as as_str block "role"
    count ← required_as as_int block "count"
    vcpu ← required_as (as_float of_int) block "vcpu"
    gib ← required_as (as_float of_int) block "gib"
    machine_type ← required_as as_str block "machine_type"
    ok (record { role = role; count = count; vcpu = vcpu; gib = gib; machine_type = machine_type })

  unfoldable pub fleet_roles : List (Yaml Float) → Result (List (FleetRole Float))
  fleet_roles [] = ok []
  fleet_roles (value ∷ values) = do
    first ← fleet_role value
    rest ← fleet_roles values
    ok (first ∷ rest)

  -- An empty list is refused.
  abbrev pub fleet_in : Yaml Float → Result (List (FleetRole Float))
  fleet_in (sequence items) = elim (items_of items) [
    | [] ↦ err value_error
    | value ∷ values ↦ fleet_roles (value ∷ values)
  ]
  fleet_in _ = err value_error

  unfoldable pub fleet : Block Float → Result (List (FleetRole Float))
  fleet raw = required_as fleet_in raw "fleet"
