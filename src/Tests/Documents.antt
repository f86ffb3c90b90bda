-- ===== src/Tests/Documents.antt =====
-- Documents of a run and a site, and what the loaders and the engines make of them.
use lakehouse_ingest_bench.Prelude.Int.{ℤ, pos}
use lakehouse_ingest_bench.Result.{found, Result, ok, err, ◌>>=◌, Ensures}
use lakehouse_ingest_bench.Prelude.{
  ℕ, String, ◌≡◌, refl, Bool, true, false, Option, none, some, List, ◌++◌, arith, if◌then◌else◌,
}
use lakehouse_ingest_bench.Specs.Yaml.{
  Yaml, Fields, no_fields, field, quoted, integer, mapping, block_of,
}
use lakehouse_ingest_bench.Specs.Blocks.{KafkaSpec}
use lakehouse_ingest_bench.Specs.Run.{load_run_spec}
use lakehouse_ingest_bench.Specs.Run.Valid.{IsRunSpec, load_run_spec-IsRunSpec}
use lakehouse_ingest_bench.Specs.Site.{load_site}
use lakehouse_ingest_bench.Specs.Site.Secrets.{IsSite, load_site-IsSite}
use lakehouse_ingest_bench.Engines.Flink.{read, validate}
use lakehouse_ingest_bench.Tests.Numbers.{numbers}
use lakehouse_ingest_bench.Specs.Yaml.{
  as_mapping, as_str, as_int, as_float, as_strings, as_string_map, as_maps, as_string_maps, as_ints,
  refuse_unknown, block_at, required, refuse_compression_props,
}
use lakehouse_ingest_bench.Specs.Blocks.{
  table_spec, kafka_spec, external_spec, producer_spec, scoring_spec, fleet_role, fleet_roles,
  fleet,
}
use lakehouse_ingest_bench.Specs.Run.{name_matches, engine_side}
use lakehouse_ingest_bench.Specs.Site.{
  as_filled, read_kubernetes, kubernetes_config, read_registry, schema_registry_config,
  as_deployment, refuse_mechanism_alias, refuse_secrets, placeholders, placeholders_of,
  placeholders_in,
}
use lakehouse_ingest_bench.Specs.Env.{
  name_end, name_start, reference, placeholder_in, has_placeholder, names_a_secret,
  refuse_literal_secrets, substituted_from, substituted, resolve_env_placeholders,
}
use lakehouse_ingest_bench.Engines.Settings.{
  int_at, float_at, str_at, bool_at, conf_at, refuse_missing,
}
use lakehouse_ingest_bench.Engines.Flink.{
  slots_total, flink_ddl_type, source_format, registry_options, format_options, rendered_conf,
  insert_hints, render_conf,
}
use lakehouse_ingest_bench.Prelude.Strings.{codes}
use lakehouse_ingest_bench.Scorer.Tally.{same_numbers}
use lakehouse_ingest_bench.Specs.Env.{of_variable}
use lakehouse_ingest_bench.Specs.Names.{derive}
use lakehouse_ingest_bench.Specs.Names.Fit.{AreFit, derive-AreFit}
use lakehouse_ingest_bench.Specs.Env.Matches.{NoReference, referring}
use lakehouse_ingest_bench.Specs.Env.References.{substituted-reference, unmatched}

abbrev word : String → Yaml ℤ
word = quoted

abbrev flink_block : Fields ℤ
flink_block = field "taskmanagers" (integer (pos 2)) (
    field "slots" (integer (pos 3)) (
      field "tm_cpu" (integer (pos 4)) (
        field "tm_mem_mb" (integer (pos 4096)) (
          field "checkpoint_interval" (word "10s") (
            field "distribution_mode" (word "hash") (
              field "source_parallelism" (integer (pos 4)) (
                field "extra_flink_conf" (mapping (field "pipeline.name" (word "own") no_fields))
                  no_fields)))))))

abbrev pub flink_knobs : List (String × Yaml ℤ)
flink_knobs = block_of flink_block

abbrev pub run_document : Yaml ℤ
run_document = mapping (
    field "name" (word "smoke-1") (
      field "engine" (word "flink") (
        field "corpus" (word "tiny") (
          field "kafka"
            (mapping (field "partitions" (integer (pos 6)) (field "key" (word "entity") no_fields)))
            (field "flink" (mapping flink_block) no_fields)))))

abbrev pub site_document : Yaml ℤ
site_document = mapping (
    field "corpus_root" (word "s3://c") (
      field "runs_root" (word "s3://r") (
        field "warehouse" (word "s3://w") (
          field "kafka"
            (mapping (
              field "bootstrap_servers" (word "broker:9092") (
                field "security"
                  (mapping (field "sasl.password" (word "${env:PASSWORD}") no_fields)) no_fields)))
            (field "catalog"
              (mapping
                (field "props" (mapping (field "uri" (word "http://catalog") no_fields)) no_fields))
              (field "pricing"
                (mapping (
                  field "vcpu_hour_usd" (integer (pos 1))
                    (field "gib_hour_usd" (integer (pos 2)) no_fields)))
                (field "kubernetes"
                  (mapping (
                    field "context" (word "c") (
                      field "namespace" (word "n") (
                        field "harness_service_account" (word "a") (
                          field "flink_service_account" (word "b") (
                            field "spark_service_account" (word "d")
                              (field "registry" (word "r") no_fields)))))))
                  no_fields)))))))

abbrev pub kafka_example : KafkaSpec
kafka_example = record { partitions = pos 6; key = "entity"; value_encoding = "avro" }

-- Whether a result is a value.
abbrev returns : {A : Type 0} → Result A → Bool
returns (ok value) = true
returns (err e) = false

run_document-loads : returns (load_run_spec numbers run_document) ≡ true
unfolding as_mapping as_str as_int as_float as_strings as_string_map as_maps as_string_maps as_ints
    refuse_unknown block_at required refuse_compression_props table_spec kafka_spec external_spec
    producer_spec scoring_spec fleet_role fleet_roles fleet name_matches engine_side load_run_spec
run_document-loads = refl

site_document-loads : returns (load_site numbers site_document) ≡ true
unfolding as_mapping as_str as_int as_float as_strings as_string_map as_maps as_string_maps as_ints
    refuse_unknown block_at required refuse_compression_props as_filled read_kubernetes
    kubernetes_config read_registry schema_registry_config as_deployment refuse_mechanism_alias
    refuse_secrets load_site placeholders placeholders_of placeholders_in name_end name_start
    reference placeholder_in has_placeholder names_a_secret refuse_literal_secrets substituted_from
    substituted resolve_env_placeholders
site_document-loads = refl

flink_block-is_read : returns (validate numbers (block_of flink_block) kafka_example) ≡ true
unfolding as_mapping as_str as_int as_float as_strings as_string_map as_maps as_string_maps as_ints
    refuse_unknown block_at required refuse_compression_props int_at float_at str_at bool_at conf_at
    refuse_missing slots_total read found flink_ddl_type source_format registry_options
    format_options rendered_conf insert_hints validate render_conf
flink_block-is_read = refl

load_run_spec-IsRunSpec_example :
    Ensures (IsRunSpec numbers run_document) (load_run_spec numbers run_document)
load_run_spec-IsRunSpec_example = load_run_spec-IsRunSpec numbers run_document

load_site-IsSite_example : Ensures (IsSite site_document) (load_site numbers site_document)
load_site-IsSite_example = load_site-IsSite numbers site_document

abbrev environ_example : List ℕ → Option (List ℕ)
environ_example name = if same_numbers name (codes "USER") then some (codes "me") else none

-- A dollar sign before the reference begins none.
unreferenced : NoReference (codes "$a ") (referring (codes "USER") (codes " now"))
unfolding reference name_start name_end
unreferenced = (unmatched _ refl, (unmatched _ refl, (unmatched _ refl, tt)))

substituted-reference_example :
    substituted_from environ_example 100 (codes "$a " ++ referring (codes "USER") (codes " now"))
    ≡ (do
      value ← of_variable (environ_example (codes "USER"))
      rest ← substituted environ_example (codes " now")
      ok (codes "$a " ++ (value ++ rest)))
substituted-reference_example =
    substituted-reference environ_example (codes "$a ") (codes "USER") (codes " now") 100
      unreferenced (refl, refl) (ground arith)

derive-AreFit_example : AreFit (
    derive
      (codes "smoke-1")
      (codes "s3://r/")
      (codes "s3://c")
      (codes "20260102T030405Z")
      (codes "tiny-0a1b"))
derive-AreFit_example =
    derive-AreFit (codes "smoke-1") (codes "20260102T030405Z") (codes "s3://r/") (codes "s3://c")
      (codes "tiny-0a1b") refl (refl, refl)
