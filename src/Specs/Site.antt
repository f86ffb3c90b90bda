-- ===== src/Specs/Site.antt =====
-- The site configuration: `KubernetesConfig` to `load_site` of ingest_bench/specs/model.py, and
-- `refuse_mechanism_alias` of ingest_bench/kafka_auth.py.
pub mod Referenced
pub mod Secrets
use lakehouse_ingest_bench.Result.{Result, ok, ◌>>=◌, ◌>>◌, refuse}
use lakehouse_ingest_bench.Prelude.{
  String, Bool, true, false, not, ◌||◌, Option, none, some, List, [], ◌∷◌, if◌then◌else◌,
}
use lakehouse_ingest_bench.Prelude.Floats.{Floats}
use lakehouse_ingest_bench.Prelude.Strings.{codes, among, contains, has_key}
use lakehouse_ingest_bench.Specs.Env.{refuse_literal_secrets}
use lakehouse_ingest_bench.Specs.Blocks.{of_int}
use lakehouse_ingest_bench.Specs.Yaml.{
  Real, Yaml, null, boolean, integer, number, quoted, sequence, mapping, Items, no_items, item,
  Fields, no_fields, field, Block, as_mapping, as_str, as_float, as_string_map, as_string_maps,
  refuse_unknown, block_at, required_as, optional_as, some_of, refuse_compression_props,
}

abbrev pub site_keys : List String
site_keys =
    "corpus_root" ∷ "runs_root" ∷ "warehouse" ∷ "kafka" ∷ "catalog" ∷ "kubernetes" ∷ "pricing" ∷ []

abbrev pub kubernetes_keys : List String
kubernetes_keys =
    "context" ∷ "namespace" ∷ "harness_service_account" ∷ "flink_service_account"
    ∷ "spark_service_account" ∷ "service_account_annotations" ∷ "registry" ∷ "aws_region"
    ∷ "secret_name" ∷ "node_selector" ∷ "tolerations" ∷ []

abbrev pub deployments : List String
deployments = "managed" ∷ "in-cluster" ∷ "external" ∷ []

pub record KubernetesConfig : Type 0 where
  pub context : String
  pub namespace : String
  pub harness_service_account : String
  pub flink_service_account : String
  pub spark_service_account : String
  pub service_account_annotations : List (String × String)
  pub registry : String
  pub aws_region : Option String
  pub secret_name : Option String
  pub node_selector : List (String × String)
  pub tolerations : List (List (String × String))

pub record SchemaRegistryConfig : Type 0 where
  pub url : String
  pub basic_auth_user_info : Option String

pub record SiteConfig (F : Type 0) : Type 0 where
  pub corpus_root : String
  pub runs_root : String
  pub warehouse : String
  pub kafka_bootstrap : String
  pub kafka_security : List (String × String)
  pub schema_registry : Option SchemaRegistryConfig
  pub catalog_props : List (String × String)
  pub kubernetes : Option KubernetesConfig
  pub pricing_vcpu_hour_usd : Real F
  pub pricing_gib_hour_usd : Real F
  pub kafka_deployment : Option String

-- PLACEHOLDER in value
abbrev pub is_placeholder : String → Bool
is_placeholder value = contains (codes value) (codes "YOUR_")

-- Whether `_refuse_placeholders` finds one, in a value or in a key.
unfoldable mutual
  pub placeholders : {F : Type 0} → Yaml F → Bool
  placeholders (quoted value) = is_placeholder value
  placeholders (mapping fields) = placeholders_in fields
  placeholders (sequence items) = placeholders_of items
  placeholders null = false
  placeholders (boolean b) = false
  placeholders (integer n) = false
  placeholders (number x) = false

  pub placeholders_of : {F : Type 0} → Items F → Bool
  placeholders_of no_items = false
  placeholders_of (item value items) = placeholders value || placeholders_of items

  pub placeholders_in : {F : Type 0} → Fields F → Bool
  placeholders_in no_fields = false
  placeholders_in (field key value fields) =
      is_placeholder key || placeholders value || placeholders_in fields

-- A string that is empty is refused.
abbrev pub is_blank : String → Bool
is_blank String.[] = true
is_blank (String.◌∷◌ c s) = false

abbrev pub is_bare : {F : Type 0} → Block F → Bool
is_bare [] = true
is_bare (entry ∷ block) = false

module _ {F : Type 0} where
  unfoldable pub as_filled : Yaml F → Result String
  as_filled value = do text ← as_str value; refuse (is_blank text); ok text

  unfoldable pub read_kubernetes : Block F → Result KubernetesConfig
  read_kubernetes block = do
    refuse_unknown block kubernetes_keys
    aws_region ← optional_as none (some_of as_filled) block "aws_region"
    secret_name ← optional_as none (some_of as_filled) block "secret_name"
    context ← required_as as_str block "context"
    namespace ← required_as as_str block "namespace"
    harness_account ← required_as as_str block "harness_service_account"
    flink_account ← required_as as_str block "flink_service_account"
    spark_account ← optional_as "ingest-bench-spark" as_str block "spark_service_account"
    annotations ← optional_as [] as_string_map block "service_account_annotations"
    registry ← required_as as_str block "registry"
    node_selector ← optional_as [] as_string_map block "node_selector"
    tolerations ← optional_as [] as_string_maps block "tolerations"
    ok (record {
      context = context;
      namespace = namespace;
      harness_service_account = harness_account;
      flink_service_account = flink_account;
      spark_service_account = spark_account;
      service_account_annotations = annotations;
      registry = registry;
      aws_region = aws_region;
      secret_name = secret_name;
      node_selector = node_selector;
      tolerations = tolerations;
    })

  -- An absent or an empty block is no cluster.
  unfoldable pub kubernetes_config : Block F → Result (Option KubernetesConfig)
  kubernetes_config raw = do
    block ← block_at raw "kubernetes"
    if is_bare block then ok none else (do config ← read_kubernetes block; ok (some config))

  unfoldable pub read_registry : Block F → Result SchemaRegistryConfig
  read_registry block = do
    refuse_unknown block ("url" ∷ "basic_auth_user_info" ∷ [])
    user_info ← optional_as none (some_of as_filled) block "basic_auth_user_info"
    url ← required_as as_str block "url"
    ok (record { url = url; basic_auth_user_info = user_info })

  unfoldable pub schema_registry_config : Block F → Result (Option SchemaRegistryConfig)
  schema_registry_config kafka = do
    block ← block_at kafka "schema_registry"
    if is_bare block then ok none else (do config ← read_registry block; ok (some config))

  unfoldable pub as_deployment : Yaml F → Result String
  as_deployment value = do name ← as_str value; refuse (not (among name deployments)); ok name

unfoldable pub refuse_mechanism_alias : List (String × String) → Result (Unit {0})
refuse_mechanism_alias security = refuse (has_key "sasl.mechanisms" security)

-- {"basic_auth_user_info": ...} of a registry that has one, for the check of its secrets
abbrev pub user_info_of : Option SchemaRegistryConfig → List (String × String)
user_info_of none = []
user_info_of (some registry) = elim registry.basic_auth_user_info [
  | none ↦ []
  | some info ↦ ("basic_auth_user_info", info) ∷ []
]

-- The checks of a site with a cluster.
unfoldable pub refuse_secrets :
    Option KubernetesConfig
    → (security catalog_props : List (String × String)) → Option SchemaRegistryConfig
    → Result (Unit {0})
refuse_secrets none security catalog_props registry = ok tt
refuse_secrets (some cluster) security catalog_props registry = do
  refuse_literal_secrets security
  refuse_literal_secrets catalog_props
  refuse_literal_secrets (user_info_of registry)

module _ (fl : Floats) where
  open fl use {Float}

  unfoldable pub load_site : Yaml Float → Result (SiteConfig Float)
  load_site document = do
    raw ← as_mapping document
    refuse (placeholders document)
    refuse_unknown raw site_keys
    kafka ← required_as as_mapping raw "kafka"
    refuse_unknown kafka ("deployment" ∷ "bootstrap_servers" ∷ "security" ∷ "schema_registry" ∷ [])
    deployment ← optional_as none (some_of as_deployment) kafka "deployment"
    security ← optional_as [] as_string_map kafka "security"
    refuse_mechanism_alias security
    refuse_compression_props security
    catalog ← required_as as_mapping raw "catalog"
    refuse_unknown catalog ("props" ∷ [])
    pricing ← required_as as_mapping raw "pricing"
    refuse_unknown pricing ("vcpu_hour_usd" ∷ "gib_hour_usd" ∷ [])
    catalog_props ← required_as as_string_map catalog "props"
    kubernetes ← kubernetes_config raw
    registry ← schema_registry_config kafka
    refuse_secrets kubernetes security catalog_props registry
    corpus_root ← required_as as_str raw "corpus_root"
    runs_root ← required_as as_str raw "runs_root"
    warehouse ← required_as as_str raw "warehouse"
    bootstrap ← required_as as_str kafka "bootstrap_servers"
    vcpu ← required_as (as_float (of_int fl)) pricing "vcpu_hour_usd"
    gib ← required_as (as_float (of_int fl)) pricing "gib_hour_usd"
    ok (record {
      corpus_root = corpus_root;
      runs_root = runs_root;
      warehouse = warehouse;
      kafka_bootstrap = bootstrap;
      kafka_security = security;
      schema_registry = registry;
      catalog_props = catalog_props;
      kubernetes = kubernetes;
      pricing_vcpu_hour_usd = vcpu;
      pricing_gib_hour_usd = gib;
      kafka_deployment = deployment;
    })
