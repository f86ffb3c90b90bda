-- ===== src/Engines/Flink.antt =====
-- engines/flink/knobs.py: the knobs of a Flink run, their validation, and its settings.
pub mod Sizing
pub mod Conf
pub mod Script
pub mod Sql
use text.Mathlib.Text.{◌==◌ as str_eq}
use lakehouse_ingest_bench.Prelude.Int.{ℤ, pos, ltb_ℤ, eq_ℤ}
use lakehouse_ingest_bench.Result.{found, value_error, Result, ok, err, ◌>>=◌, ◌>>◌, refuse}
use lakehouse_ingest_bench.Prelude.{
  String, Bool, false, not, Option, none, some, List, [], ◌∷◌, ◌++◌, if◌then◌else◌,
}
use lakehouse_ingest_bench.Prelude.Floats.{Floats}
use lakehouse_ingest_bench.Prelude.Strings.{among, lookup, update}
use lakehouse_ingest_bench.Specs.Yaml.{
  Real, finite, Block, refuse_unknown, required_as, optional_as, some_of,
}
use lakehouse_ingest_bench.Specs.Blocks.{KafkaSpec, of_int}
use lakehouse_ingest_bench.Specs.Site.{SiteConfig, SchemaRegistryConfig}
use lakehouse_ingest_bench.Engines.JavaProperties.{Props}
use lakehouse_ingest_bench.Engines.Settings.{
  Setting, written, decimal, megabytes, int_at, float_at, str_at, bool_at, conf_at, refuse_missing,
  below_one, ◌*ℤ◌, flag, as_settings, distribution_modes,
}

-- A Flink run's knobs, the defaults applied.
pub record Knobs (F : Type 0) : Type 0 where
  pub taskmanagers : ℤ
  pub slots : ℤ
  pub tm_cpu : Real F
  pub tm_mem_mb : ℤ
  pub jm_cpu : Real F
  pub jm_mem_mb : ℤ
  pub checkpoint_interval : String
  pub min_pause : String
  pub unaligned_checkpoints : Bool
  pub source_parallelism : ℤ
  pub max_parallelism : ℤ
  pub distribution_mode : String
  pub machine_type : Option String
  pub extra_flink_conf : List (String × String)

abbrev pub knob_keys : List String
knob_keys =
    "taskmanagers" ∷ "slots" ∷ "tm_cpu" ∷ "tm_mem_mb" ∷ "jm_cpu" ∷ "jm_mem_mb"
    ∷ "checkpoint_interval" ∷ "min_pause" ∷ "unaligned_checkpoints" ∷ "source_parallelism"
    ∷ "max_parallelism" ∷ "distribution_mode" ∷ "machine_type" ∷ "extra_flink_conf" ∷ []

abbrev pub required_knobs : List String
required_knobs =
    "taskmanagers" ∷ "slots" ∷ "tm_cpu" ∷ "tm_mem_mb" ∷ "checkpoint_interval" ∷ "distribution_mode"
    ∷ []

abbrev pub max_parallelism_factor : ℤ
max_parallelism_factor = pos 4

-- A Flink SQL type of a corpus type.
abbrev pub ddl_types : List (String × String)
ddl_types =
    ("long", "BIGINT")
    ∷ ("string", "STRING")
    ∷ ("double", "DOUBLE")
    ∷ ("boolean", "BOOLEAN")
    ∷ ("timestamp", "TIMESTAMP(3)")
    ∷ ("binary", "BYTES")
    ∷ []

abbrev pub source_formats : List (String × String)
source_formats = ("avro", "avro") ∷ ("confluent", "avro-confluent") ∷ []

abbrev pub format_options_of : List (String × List (String × String))
format_options_of =
    ("avro", ("avro.timestamp_mapping.legacy", "false") ∷ []) ∷ ("confluent", []) ∷ []

-- The task slots of the fleet, and the parallelism that the Kafka readers inherit.
unfoldable pub slots_total : {F : Type 0} → Knobs F → ℤ
slots_total knobs = knobs.taskmanagers *ℤ knobs.slots

abbrev pub parallelism_default : {F : Type 0} → Knobs F → ℤ
parallelism_default knobs = knobs.source_parallelism

module _ (fl : Floats) where
  open fl use {Float}

  unfoldable pub read : Block Float → Result (Knobs Float)
  read block = do
    refuse_unknown block knob_keys
    refuse_missing block required_knobs
    taskmanagers ← required_as int_at block "taskmanagers"
    slots ← required_as int_at block "slots"
    source_parallelism ← optional_as (pos 1) int_at block "source_parallelism"
    max_parallelism ←
        optional_as ((max_parallelism_factor *ℤ taskmanagers) *ℤ slots) int_at block
          "max_parallelism"
    refuse (below_one taskmanagers)
    refuse (below_one slots)
    refuse (below_one source_parallelism)
    refuse (below_one max_parallelism)
    distribution_mode ← required_as str_at block "distribution_mode"
    refuse (not (among distribution_mode distribution_modes))
    tm_cpu ← required_as (float_at (of_int fl)) block "tm_cpu"
    tm_mem_mb ← required_as int_at block "tm_mem_mb"
    jm_cpu ← optional_as (finite (of_int fl (pos 1))) (float_at (of_int fl)) block "jm_cpu"
    jm_mem_mb ← optional_as (pos 2_048) int_at block "jm_mem_mb"
    checkpoint_interval ← required_as str_at block "checkpoint_interval"
    min_pause ← optional_as "0s" str_at block "min_pause"
    unaligned_checkpoints ← optional_as false bool_at block "unaligned_checkpoints"
    machine_type ← optional_as none (some_of str_at) block "machine_type"
    extra_flink_conf ← optional_as [] conf_at block "extra_flink_conf"
    ok (record {
      taskmanagers = taskmanagers;
      slots = slots;
      tm_cpu = tm_cpu;
      tm_mem_mb = tm_mem_mb;
      jm_cpu = jm_cpu;
      jm_mem_mb = jm_mem_mb;
      checkpoint_interval = checkpoint_interval;
      min_pause = min_pause;
      unaligned_checkpoints = unaligned_checkpoints;
      source_parallelism = source_parallelism;
      max_parallelism = max_parallelism;
      distribution_mode = distribution_mode;
      machine_type = machine_type;
      extra_flink_conf = extra_flink_conf;
    })

unfoldable pub flink_ddl_type : String → Result String
unfolding found
flink_ddl_type iceberg_type = found (lookup iceberg_type ddl_types)

unfoldable pub source_format : KafkaSpec → Result String
unfolding found
source_format kafka = found (lookup kafka.value_encoding source_formats)

-- The registry's options, of the Confluent encoding.
unfoldable pub registry_options : Option SchemaRegistryConfig → Result Props
registry_options none = err value_error
registry_options (some registry) = ok (
    ("avro-confluent.url", registry.url) ∷ (elim registry.basic_auth_user_info [
      | none ↦ []
      | some user_info ↦
          ("avro-confluent.basic-auth.credentials-source", "USER_INFO")
          ∷ ("avro-confluent.basic-auth.user-info", user_info)
          ∷ []
    ]))

unfoldable pub format_options : {F : Type 0} → KafkaSpec → SiteConfig F → Result Props
unfolding found source_format registry_options
format_options kafka site = do
  format ← source_format kafka
  static ← found (lookup kafka.value_encoding format_options_of)
  of_registry ←
      if str_eq kafka.value_encoding "confluent"
      then registry_options site.schema_registry
      else ok []
  ok (("format", format) ∷ static ++ of_registry)

-- The settings of the job, with the run's name.
unfoldable pub rendered_conf : {F : Type 0} → Knobs F → String → List (String × Setting)
rendered_conf knobs run_id =
    update
      (("execution.checkpointing.interval", written knobs.checkpoint_interval)
        ∷ ("execution.checkpointing.min-pause", written knobs.min_pause)
        ∷ ("execution.checkpointing.unaligned.enabled", written (flag knobs.unaligned_checkpoints))
        ∷ ("execution.checkpointing.mode", written "EXACTLY_ONCE")
        ∷ ("parallelism.default", decimal (parallelism_default knobs))
        ∷ ("pipeline.max-parallelism", decimal knobs.max_parallelism)
        ∷ ("taskmanager.numberOfTaskSlots", decimal knobs.slots)
        ∷ ("taskmanager.memory.process.size", megabytes knobs.tm_mem_mb)
        ∷ ("jobmanager.memory.process.size", megabytes knobs.jm_mem_mb)
        ∷ ("pipeline.name", written run_id)
        ∷ [])
      (as_settings knobs.extra_flink_conf)

-- The hints of the INSERT statement.
unfoldable pub insert_hints : {F : Type 0} → Knobs F → List (String × Setting)
unfolding slots_total
insert_hints knobs =
    ("distribution-mode", written knobs.distribution_mode)
    ∷ (if eq_ℤ (slots_total knobs) (parallelism_default knobs)
        then []
        else ("write-parallelism", decimal (slots_total knobs)) ∷ [])

module _ (fl : Floats) where
  open fl use {Float}

  -- The corpus is not looked at.
  unfoldable pub validate : Block Float → KafkaSpec → Result (Unit {0})
  unfolding read slots_total source_format found
  validate block kafka = do
    knobs ← read fl block
    source_format kafka
    refuse (ltb_ℤ kafka.partitions knobs.source_parallelism)
    refuse (ltb_ℤ (slots_total knobs) knobs.source_parallelism)
    refuse (ltb_ℤ knobs.max_parallelism (slots_total knobs))

  unfoldable pub render_conf : Block Float → String → Result (List (String × Setting))
  unfolding read rendered_conf
  render_conf engine_block run_id = do knobs ← read fl engine_block; ok (rendered_conf knobs run_id)
