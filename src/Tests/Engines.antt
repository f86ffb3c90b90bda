-- ===== src/Tests/Engines.antt =====
-- A Flink run's knobs, settings and SQL, and Java clients' properties.
use lakehouse_ingest_bench.Prelude.Int.{ℤ, pos}
use lakehouse_ingest_bench.Result.{found, ok, Ensures, Result, err}
use lakehouse_ingest_bench.Prelude.{
  String, ◌≡◌, refl, ◌⊎◌, true, false, ◌||◌, none, some, List, [], ◌∷◌, ◌++◌, arith, ◌==◌, Bool,
}
use lakehouse_ingest_bench.Specs.Yaml.{
  as_mapping, as_str, as_int, as_float, as_strings, as_string_map, as_maps, as_string_maps, as_ints,
  refuse_unknown, block_at, required, refuse_compression_props, finite,
}
use lakehouse_ingest_bench.Engines.Settings.{
  KeepsOverrides, Setting, int_at, float_at, str_at, bool_at, conf_at, refuse_missing,
}
use lakehouse_ingest_bench.Engines.Flink.{
  Knobs, slots_total, read, flink_ddl_type, source_format, registry_options, format_options,
  rendered_conf, insert_hints, validate, render_conf,
}
use lakehouse_ingest_bench.Engines.JavaProperties.{
  Props, signals_iam, insert_key, sorted_by_key, needed, catalog_properties, has_explicit_oauth,
  refuse_java_oauth, kafka_properties,
}
use lakehouse_ingest_bench.Engines.JavaProperties.Iam.{translated, kafka_properties-translated}
use lakehouse_ingest_bench.Engines.Flink.Sizing.{IsValidated, validate-IsValidated, Fits}
use lakehouse_ingest_bench.Engines.Flink.Conf.{render_conf-fills_fleet, ReadersRun, WritersRun}
use lakehouse_ingest_bench.Engines.Flink.Sql.{TextOption, with_clause}
use lakehouse_ingest_bench.Engines.Flink.Sql.Literals.{
  read_options, clause_end, read_options-with_clause,
}
use lakehouse_ingest_bench.Engines.Flink.Script.{split_statements, join_statements}
use lakehouse_ingest_bench.Engines.Flink.Script.RoundTrip.{split_statements-join_statements}
use lakehouse_ingest_bench.Prelude.Strings.{codes, lookup}
use lakehouse_ingest_bench.Tests.Numbers.{numbers}
use lakehouse_ingest_bench.Tests.Documents.{kafka_example, flink_knobs}
use lakehouse_ingest_bench.Specs.Yaml.{Yaml, integer, quoted}
use lakehouse_ingest_bench.Specs.Site.{SiteConfig}
use lakehouse_ingest_bench.Engines.Spark.{
  is_trigger, cores_total, read_spark, validate_spark, catalog_conf, checkpoint_uri, taken_props,
  local_store_conf, render_spark_conf,
}
use lakehouse_ingest_bench.Engines.Spark.Resolved.{IsResolved, render_spark_conf-IsResolved}
use lakehouse_ingest_bench.Specs.Env.{
  name_end, name_start, reference, placeholder_in, has_placeholder, names_a_secret,
  refuse_literal_secrets, substituted_from, substituted, resolve_env_placeholders,
}

abbrev knobs_example : Knobs ℤ
knobs_example = record {
  taskmanagers = pos 2;
  slots = pos 3;
  tm_cpu = finite (pos 4_000);
  tm_mem_mb = pos 4096;
  jm_cpu = finite (pos 1_000);
  jm_mem_mb = pos 2_048;
  checkpoint_interval = "10s";
  min_pause = "0s";
  unaligned_checkpoints = false;
  source_parallelism = pos 4;
  max_parallelism = pos 24;
  distribution_mode = "hash";
  machine_type = none;
  extra_flink_conf = ("pipeline.name", "own") ∷ [];
}

knobs-read : read numbers flink_knobs ≡ ok knobs_example
unfolding as_mapping as_str as_int as_float as_strings as_string_map as_maps as_string_maps as_ints
    refuse_unknown block_at required refuse_compression_props int_at float_at str_at bool_at conf_at
    refuse_missing slots_total read found flink_ddl_type source_format registry_options
    format_options rendered_conf insert_hints validate render_conf
knobs-read = refl

validate-IsValidated_example :
    Ensures
      (λ _. IsValidated numbers flink_knobs kafka_example)
      (validate numbers flink_knobs kafka_example)
validate-IsValidated_example = validate-IsValidated numbers flink_knobs kafka_example

knobs-fit : Fits kafka_example knobs_example
unfolding slots_total
knobs-fit = (ground arith, ground arith, ground arith, ground arith)

render_conf-fills_fleet_example :
    (conf : List (String × Setting)) × (render_conf numbers flink_knobs "run-1" ≡ ok conf)
    × KeepsOverrides knobs_example.extra_flink_conf conf
    × ReadersRun knobs_example conf
    × WritersRun knobs_example conf
render_conf-fills_fleet_example =
    render_conf-fills_fleet numbers flink_knobs "run-1" knobs_example knobs-read

abbrev security_example : Props
security_example =
    ("sasl.mechanism", "OAUTHBEARER") ∷ ("aws.region", "eu-west-1") ∷ ("client.id", "bench") ∷ []

abbrev translated_example : Props
translated_example =
    ("security.protocol", "SASL_SSL")
    ∷ ("sasl.mechanism", "AWS_MSK_IAM")
    ∷ ("sasl.jaas.config", "software.amazon.msk.auth.iam.IAMLoginModule required;")
    ∷ (
      "sasl.client.callback.handler.class", "software.amazon.msk.auth.iam.IAMClientCallbackHandler",
    )
    ∷ ("client.id", "bench")
    ∷ []

kafka_properties-translated_example :
    (has_explicit_oauth security_example ≡ false)
    × (((signals_iam security_example ≡ true)
          × ((key : String) → lookup key translated_example ≡ translated security_example key))
        ⊎ ((signals_iam security_example ≡ false) × (translated_example ≡ security_example)))
unfolding insert_key sorted_by_key needed catalog_properties has_explicit_oauth refuse_java_oauth
    kafka_properties
kafka_properties-translated_example =
    kafka_properties-translated security_example translated_example refl

abbrev password_option : TextOption
password_option = (codes "properties.sasl.jaas.config", codes "it's, 'x'=;\n")

read_options-with_clause_example :
    read_options 3 (with_clause (password_option ∷ password_option ∷ []) ++ clause_end)
    ≡ some (password_option ∷ password_option ∷ [], clause_end)
read_options-with_clause_example =
    read_options-with_clause password_option (password_option ∷ []) 2 (ground arith)

split_statements-join_statements_example :
    split_statements
      (λ c. c == 10 || c == b' ')
      (join_statements (codes "A;" ∷ codes "B\n ;C" ∷ []))
    ≡ codes "A;" ∷ codes "B\n ;C" ∷ []
split_statements-join_statements_example =
    split_statements-join_statements (λ c. c == 10 || c == b' ') (codes "A;" ∷ codes "B\n ;C" ∷ [])
      refl ((refl, (λ e. absurd (cc e)), refl), ((refl, (λ e. absurd (cc e)), refl), tt))

abbrev spark_knobs : List (String × Yaml ℤ)
spark_knobs =
    ("executors", integer (pos 2))
    ∷ ("executor_cores", integer (pos 4))
    ∷ ("executor_mem_mb", integer (pos 4096))
    ∷ ("trigger_interval", quoted "10 seconds")
    ∷ ("distribution_mode", quoted "none")
    ∷ []

abbrev local_site : SiteConfig ℤ
local_site = record {
  corpus_root = "s3://bucket/corpora";
  runs_root = "s3://bucket/runs/";
  warehouse = "s3://bucket/warehouse";
  kafka_bootstrap = "broker:9092";
  kafka_security = [];
  schema_registry = none;
  catalog_props =
      ("uri", "http://catalog")
      ∷ ("warehouse", "bench")
      ∷ ("s3.endpoint", "http://store")
      ∷ ("s3.path-style-access", "true")
      ∷ ("s3.access-key-id", "key")
      ∷ ("s3.secret-access-key", "word")
      ∷ [];
  kubernetes = none;
  pricing_vcpu_hour_usd = finite (pos 0);
  pricing_gib_hour_usd = finite (pos 0);
  kafka_deployment = none;
}

abbrev returns : {A : Type 0} → Result A → Bool
returns (ok value) = true
returns (err e) = false

spark_conf-rendered : returns (render_spark_conf spark_knobs local_site "run-1") ≡ true
unfolding as_mapping as_str as_int as_float as_strings as_string_map as_maps as_string_maps as_ints
    refuse_unknown block_at required refuse_compression_props int_at float_at str_at bool_at conf_at
    refuse_missing is_trigger cores_total read_spark validate_spark catalog_conf checkpoint_uri
    taken_props local_store_conf render_spark_conf insert_key sorted_by_key needed
    catalog_properties has_explicit_oauth refuse_java_oauth kafka_properties name_end name_start
    reference placeholder_in has_placeholder names_a_secret refuse_literal_secrets substituted_from
    substituted resolve_env_placeholders
spark_conf-rendered = refl

render_spark_conf-IsResolved_example :
    Ensures (IsResolved spark_knobs) (render_spark_conf spark_knobs local_site "run-1")
render_spark_conf-IsResolved_example = render_spark_conf-IsResolved spark_knobs local_site "run-1"
