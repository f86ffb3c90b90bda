-- ===== src/Engines/Spark.antt =====
-- engines/spark/knobs.py: the knobs of a Spark run, their validation, and its settings; and `join` of
-- ingest_bench/uri.py. White space and digits are those of ASCII.
pub mod Resolved
use lakehouse_ingest_bench.Prelude.Int.{ℤ, pos}
use lakehouse_ingest_bench.Result.{Result, ok, ◌>>=◌, ◌>>◌, refuse}
use lakehouse_ingest_bench.Prelude.{
  ℕ, String, Bool, false, not, ◌&&◌, ◌||◌, Option, none, some, List, [], ◌∷◌, ◌++◌, map, leb, ◌==◌,
  if◌then◌else◌, drop, any,
}
use Prim.Native.String.{◌++◌ as ◌text_append◌}
use lakehouse_ingest_bench.Prelude.Strings.{codes, among, begins_with, update}
use lakehouse_ingest_bench.Specs.Yaml.{Block, refuse_unknown, required_as, optional_as, some_of}
use lakehouse_ingest_bench.Specs.Env.{has_placeholder}
use lakehouse_ingest_bench.Specs.Blocks.{KafkaSpec, if_given}
use lakehouse_ingest_bench.Specs.Run.{without_newline}
use lakehouse_ingest_bench.Specs.Site.{SiteConfig, KubernetesConfig}
use lakehouse_ingest_bench.Scorer.Tally.{same_numbers}
use lakehouse_ingest_bench.Engines.JavaProperties.{needed, catalog_properties}
use lakehouse_ingest_bench.Engines.Settings.{
  Setting, written, decimal, megabytes, int_at, str_at, bool_at, conf_at, refuse_missing, below_one,
  ◌*ℤ◌, as_settings, distribution_modes,
}
use lakehouse_ingest_bench.Engines.Flink.Script.{right_stripped, stripped}

-- A Spark run's knobs, the defaults applied.
pub record SparkKnobs : Type 0 where
  pub executors : ℤ
  pub executor_cores : ℤ
  pub executor_mem_mb : ℤ
  pub driver_cores : ℤ
  pub driver_mem_mb : ℤ
  pub trigger_interval : String
  pub max_offsets_per_trigger : Option ℤ
  pub distribution_mode : String
  pub fanout : Bool
  pub machine_type : Option String
  pub extra_spark_conf : List (String × String)

abbrev pub spark_knob_keys : List String
spark_knob_keys =
    "executors" ∷ "executor_cores" ∷ "executor_mem_mb" ∷ "driver_cores" ∷ "driver_mem_mb"
    ∷ "trigger_interval" ∷ "max_offsets_per_trigger" ∷ "distribution_mode" ∷ "fanout"
    ∷ "machine_type" ∷ "extra_spark_conf" ∷ []

abbrev pub required_spark_knobs : List String
required_spark_knobs =
    "executors" ∷ "executor_cores" ∷ "executor_mem_mb" ∷ "trigger_interval" ∷ "distribution_mode"
    ∷ []

-- _TRIGGER_RE
abbrev pub is_digit : ℕ → Bool
is_digit c = leb b'0' c && leb c b'9'

abbrev pub is_blank_space : ℕ → Bool
is_blank_space c = c == b' ' || leb 9 c && leb c 13 || leb 28 c && leb c 31

abbrev pub time_units : List String
time_units =
    "millisecond" ∷ "milliseconds" ∷ "second" ∷ "seconds" ∷ "minute" ∷ "minutes" ∷ "hour" ∷ "hours"
    ∷ []

abbrev pub ends_in_unit : List ℕ → Bool
ends_in_unit text = any (λ unit. same_numbers text (codes unit)) time_units

abbrev pub spaces_and_unit : List ℕ → Bool
spaces_and_unit [] = false
spaces_and_unit (c ∷ text) = is_blank_space c && (spaces_and_unit text || ends_in_unit text)

abbrev pub digits_on : List ℕ → Bool
digits_on [] = false
digits_on (c ∷ text) = is_digit c && (digits_on text || spaces_and_unit text)

unfoldable pub is_trigger : String → Bool
is_trigger interval = digits_on (without_newline (codes interval))

unfoldable pub cores_total : SparkKnobs → ℤ
cores_total knobs = knobs.executors *ℤ knobs.executor_cores

module _ {F : Type 0} where
  unfoldable pub read_spark : Block F → Result SparkKnobs
  unfolding is_trigger
  read_spark block = do
    refuse_unknown block spark_knob_keys
    refuse_missing block required_spark_knobs
    executors ← required_as int_at block "executors"
    executor_cores ← required_as int_at block "executor_cores"
    driver_cores ← optional_as (pos 1) int_at block "driver_cores"
    refuse (below_one executors)
    refuse (below_one executor_cores)
    refuse (below_one driver_cores)
    trigger_interval ← required_as str_at block "trigger_interval"
    refuse (not (is_trigger trigger_interval))
    distribution_mode ← required_as str_at block "distribution_mode"
    refuse (not (among distribution_mode distribution_modes))
    max_offsets ← optional_as none (some_of int_at) block "max_offsets_per_trigger"
    refuse (if_given below_one max_offsets)
    executor_mem_mb ← required_as int_at block "executor_mem_mb"
    driver_mem_mb ← optional_as (pos 2_048) int_at block "driver_mem_mb"
    fanout ← optional_as false bool_at block "fanout"
    machine_type ← optional_as none (some_of str_at) block "machine_type"
    extra_spark_conf ← optional_as [] conf_at block "extra_spark_conf"
    ok (record {
      executors = executors;
      executor_cores = executor_cores;
      executor_mem_mb = executor_mem_mb;
      driver_cores = driver_cores;
      driver_mem_mb = driver_mem_mb;
      trigger_interval = trigger_interval;
      max_offsets_per_trigger = max_offsets;
      distribution_mode = distribution_mode;
      fanout = fanout;
      machine_type = machine_type;
      extra_spark_conf = extra_spark_conf;
    })

  -- VALUE_EXPRESSIONS has the two encodings.
  unfoldable pub validate_spark : Block F → KafkaSpec → Result (Unit {0})
  unfolding read_spark
  validate_spark block kafka = do
    read_spark block
    refuse (not (among kafka.value_encoding ("avro" ∷ "confluent" ∷ [])))

abbrev pub catalog_prefix : String
catalog_prefix = "spark.sql.catalog.ice"

abbrev pub under_catalog : String × String → String × Setting
under_catalog (key, value) = ((catalog_prefix text_append ".") text_append key, written value)

unfoldable pub catalog_conf : {F : Type 0} → SiteConfig F → Result (List (String × Setting))
unfolding catalog_properties
catalog_conf site = do
  props ← catalog_properties site.catalog_props site.warehouse
  ok (
      update
        ((catalog_prefix, written "org.apache.iceberg.spark.SparkCatalog")
          ∷ (catalog_prefix text_append ".type", written "rest")
          ∷ [])
        (map under_catalog props))

-- uri.join, on characters
abbrev pub slash : ℕ → Bool
slash c = c == b'/'

abbrev pub uri_join : List ℕ → List (List ℕ) → List ℕ
uri_join uri [] = right_stripped slash uri
uri_join uri (part ∷ parts) =
    right_stripped slash uri ++ (b'/' ∷ uri_join (stripped slash part) parts)

unfoldable pub checkpoint_uri : {F : Type 0} → SiteConfig F → String → List ℕ
checkpoint_uri site run_id =
    let location = uri_join (codes site.runs_root) (codes run_id ∷ codes "checkpoints" ∷ []) in
    if begins_with location (codes "s3://") then codes "s3a://" ++ drop 5 location else location

abbrev pub s3a_from_catalog_prop : List (String × String)
s3a_from_catalog_prop =
    ("s3.endpoint", "spark.hadoop.fs.s3a.endpoint")
    ∷ ("s3.path-style-access", "spark.hadoop.fs.s3a.path.style.access")
    ∷ ("s3.access-key-id", "spark.hadoop.fs.s3a.access.key")
    ∷ ("s3.secret-access-key", "spark.hadoop.fs.s3a.secret.key")
    ∷ []

unfoldable pub taken_props :
    List (String × String) → List (String × String) → Result (List (String × Setting))
unfolding needed
taken_props catalog_props [] = ok []
taken_props catalog_props ((prop, setting) ∷ pairs) = do
  value ← needed catalog_props prop
  rest ← taken_props catalog_props pairs
  ok ((setting, written value) ∷ rest)

unfoldable pub local_store_conf :
    {F : Type 0} → SiteConfig F → String → Result (List (String × Setting))
unfolding checkpoint_uri taken_props
local_store_conf site run_id =
    if begins_with (checkpoint_uri site run_id) (codes "s3a://")
    then taken_props site.catalog_props s3a_from_catalog_prop
    else ok []

-- Digits hold no reference.
abbrev pub is_reference : Setting → Bool
is_reference (written value) = has_placeholder value
is_reference (decimal n) = false
is_reference (megabytes n) = false

abbrev pub session_conf : SparkKnobs → String → List (String × Setting)
session_conf knobs run_id =
    ("spark.executor.cores", decimal knobs.executor_cores)
    ∷ ("spark.executor.memory", megabytes knobs.executor_mem_mb)
    ∷ ("spark.driver.cores", decimal knobs.driver_cores)
    ∷ ("spark.driver.memory", megabytes knobs.driver_mem_mb)
    ∷ ("spark.sql.shuffle.partitions", decimal (cores_total knobs))
    ∷ ("spark.app.name", written run_id)
    ∷ []

abbrev pub extensions_conf : List (String × Setting)
extensions_conf =
    (
      "spark.sql.extensions",
      written "org.apache.iceberg.spark.extensions.IcebergSparkSessionExtensions",
    )
    ∷ []

abbrev pub unless_cluster :
    Option KubernetesConfig → Result (List (String × Setting)) → Result (List (String × Setting))
unless_cluster none conf = conf
unless_cluster (some cluster) conf = ok []

unfoldable pub render_spark_conf :
    {F : Type 0} → Block F → SiteConfig F → String → Result (List (String × Setting))
unfolding read_spark catalog_conf local_store_conf
render_spark_conf engine_block site run_id = do
  knobs ← read_spark engine_block
  catalog ← catalog_conf site
  store ← unless_cluster site.kubernetes (local_store_conf site run_id)
  let conf =
      update (update (update (update extensions_conf catalog) (session_conf knobs run_id)) store)
        (as_settings knobs.extra_spark_conf)
  refuse (any (λ entry. is_reference entry.1) conf)
  ok conf
