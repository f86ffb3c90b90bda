-- ===== src/Specs/Site/Secrets.antt =====
-- What a loaded site keeps out of rendered files.
use lakehouse_ingest_bench.Result.{Ensures, returned, ◌⊳◌, Ensures-implies, returns_it, passes}
use lakehouse_ingest_bench.Prelude.{
  ℕ, inl, inr, Bool-cases, String, ◌≡◌, ◌≢◌, ◌++◌, All-append, true, false, Option, none, some,
  List, [], ◌∷◌, arith, any, All,
}
use lakehouse_ingest_bench.Prelude.Floats.{Floats}
use lakehouse_ingest_bench.Prelude.Strings.{codes, begins_with, keys, has_key}
use lakehouse_ingest_bench.Prelude.Parts.{Begins, Holds, begins_with-append}
use text.Mathlib.TextEquality.{eq_iff}
use text.Mathlib.Text.{◌==◌ as str_eq}
use lakehouse_ingest_bench.Specs.Blocks.{of_int}
use lakehouse_ingest_bench.Specs.Yaml.{
  Yaml, null, boolean, integer, number, quoted, sequence, mapping, Items, no_items, item, Fields,
  no_fields, field, as_mapping, as_str, as_float, as_string_map, refuse_unknown, required_as,
  optional_as, some_of, refuse_compression_props,
}
use lakehouse_ingest_bench.Specs.Site.{
  KubernetesConfig, SchemaRegistryConfig, SiteConfig, site_keys, is_placeholder, placeholders,
  placeholders_of, placeholders_in, kubernetes_config, schema_registry_config, as_deployment,
  refuse_mechanism_alias, user_info_of, refuse_secrets, load_site,
}
use lakehouse_ingest_bench.Specs.Site.Referenced.{
  IsReferenced, contains-false, literal-IsReferenced,
}

-- The keys and the texts of a document, at any depth.
abbrev mutual
  texts : {F : Type 0} → Yaml F → List String
  texts (quoted value) = value ∷ []
  texts (mapping fields) = texts_in fields
  texts (sequence items) = texts_of items
  texts null = []
  texts (boolean b) = []
  texts (integer n) = []
  texts (number x) = []

  texts_of : {F : Type 0} → Items F → List String
  texts_of no_items = []
  texts_of (item value items) = texts value ++ texts_of items

  texts_in : {F : Type 0} → Fields F → List String
  texts_in no_fields = []
  texts_in (field key value fields) = key ∷ (texts value ++ texts_in fields)

-- The text holds no placeholder of the examples.
abbrev IsReplaced : String → Type 0
IsReplaced text = ¬ Holds (codes "YOUR_") (codes text)

is_placeholder-IsReplaced : (text : String) → is_placeholder text ≡ false → IsReplaced text
is_placeholder-IsReplaced text h = contains-false (codes "YOUR_") (codes text) h

mutual
  unfolding placeholders placeholders_of placeholders_in

  texts-IsReplaced :
      {F : Type 0} (value : Yaml F) → placeholders value ≡ false → All IsReplaced (texts value)
  texts-IsReplaced (quoted value) h = (is_placeholder-IsReplaced value h, tt)
  texts-IsReplaced (mapping fields) h = texts_in-IsReplaced fields h
  texts-IsReplaced (sequence items) h = texts_of-IsReplaced items h
  texts-IsReplaced null h = tt
  texts-IsReplaced (boolean b) h = tt
  texts-IsReplaced (integer n) h = tt
  texts-IsReplaced (number x) h = tt

  texts_of-IsReplaced :
      {F : Type 0} (items : Items F)
      → placeholders_of items ≡ false
      → All IsReplaced (texts_of items)
  texts_of-IsReplaced no_items h = tt
  texts_of-IsReplaced (item value items) h =
      All-append IsReplaced (texts value) (texts_of items) (texts-IsReplaced value (ground arith))
        (texts_of-IsReplaced items (ground arith))

  texts_in-IsReplaced :
      {F : Type 0} (fields : Fields F)
      → placeholders_in fields ≡ false
      → All IsReplaced (texts_in fields)
  texts_in-IsReplaced no_fields h = tt
  texts_in-IsReplaced (field key value fields) h = (
    is_placeholder-IsReplaced key (ground arith),
    All-append IsReplaced (texts value) (texts_in fields) (texts-IsReplaced value (ground arith))
        (texts_in-IsReplaced fields (ground arith)),
  )

-- The properties that reach rendered files, of a site with a cluster: those of Kafka, of the catalog and of
-- the registry.
abbrev Sealed :
    Option KubernetesConfig
    → (security catalog_props : List (String × String)) → Option SchemaRegistryConfig
    → Type 0
Sealed none security catalog_props registry = Unit
Sealed (some cluster) security catalog_props registry =
    All IsReferenced security
    × All IsReferenced catalog_props
    × All IsReferenced (user_info_of registry)

refuse_secrets-Sealed :
    (kubernetes : Option KubernetesConfig) (security catalog_props : List (String × String))
    (registry : Option SchemaRegistryConfig)
    → Ensures
        (λ u. Sealed kubernetes security catalog_props registry)
        (refuse_secrets kubernetes security catalog_props registry)
unfolding refuse_secrets
refuse_secrets-Sealed none security catalog_props registry = returned tt
refuse_secrets-Sealed (some config) security catalog_props registry =
    literal-IsReferenced security ⊳ λ _ a. literal-IsReferenced catalog_props ⊳ λ _ b.
    Ensures-implies (λ u c. (a, b, c)) (literal-IsReferenced (user_info_of registry))

-- What a loaded site satisfies.
pub record IsSite {F : Type 0} (document : Yaml F) (s : SiteConfig F) : Type 0 where
  replaced : All IsReplaced (texts document)
  one_codec : All (λ key. ¬ Begins (codes "compression.") (codes key)) (keys s.kafka_security)
  no_alias : All (λ key. key ≢ "sasl.mechanisms") (keys s.kafka_security)
  no_literal_secret : Sealed s.kubernetes s.kafka_security s.catalog_props s.schema_registry

absent-keys :
    (key : String) (props : List (String × String))
    → has_key key props ≡ false
    → All (λ other. other ≢ key) (keys props)
absent-keys key [] h = tt
absent-keys key ((other, value) ∷ props) h = elim (Bool-cases (str_eq other key)) [
  | inl same ↦ absurd (cc (rw (has_key, same) at h))
  | inr differs ↦ (
    (λ e. absurd (cc ((eq_iff other key).1 e, differs))),
    absent-keys key props (rw (has_key, differs) at h),
  )
]

no_alias-passes :
    (security : List (String × String))
    → Ensures
        (λ u. All (λ key. key ≢ "sasl.mechanisms") (keys security))
        (refuse_mechanism_alias security)
unfolding refuse_mechanism_alias
no_alias-passes security =
    Ensures-implies (λ u. absent-keys "sasl.mechanisms" security)
      (passes (has_key "sasl.mechanisms" security))

none-begin :
    (part : List ℕ) (names : List String)
    → any (λ key. begins_with (codes key) part) names ≡ false
    → All (λ key. ¬ Begins part (codes key)) names
none-begin part [] h = tt
none-begin part (key ∷ names) h = (
  (λ (after, same).
      let found : begins_with (codes key) part ≡ true = rw same (begins_with-append part after) in
      let other : begins_with (codes key) part ≡ false = ground arith in
      absurd (cc (found, other))),
  none-begin part names (ground arith),
)

compression-passes :
    (security : List (String × String))
    → Ensures
        (λ u. All (λ key. ¬ Begins (codes "compression.") (codes key)) (keys security))
        (refuse_compression_props security)
unfolding refuse_compression_props
compression-passes security =
    Ensures-implies (λ u. none-begin (codes "compression.") (keys security))
      (passes (any (λ key. begins_with (codes key) (codes "compression.")) (keys security)))

module _ (fl : Floats) where
  open fl use {Float}

  -- In a site that loads, no key and no text at any depth holds the placeholder of the examples. Its Kafka
  -- properties choose no codec and do not use the alias of the mechanism. If it has a cluster, each
  -- property of Kafka, of the catalog and of the registry has none of the words of credentials in its name,
  -- in either case, or a reference to the environment in its value.
  pub load_site-IsSite : (document : Yaml Float) → Ensures (IsSite document) (load_site fl document)
  unfolding load_site
  load_site-IsSite document = returns_it (as_mapping document) ⊳ λ raw _.
      passes (placeholders document) ⊳ λ _ replaced.
      returns_it (refuse_unknown raw site_keys) ⊳ λ _ _.
      returns_it (required_as as_mapping raw "kafka") ⊳ λ kafka _.
      returns_it (refuse_unknown kafka _) ⊳ λ _ _.
      returns_it (optional_as none (some_of as_deployment) kafka "deployment") ⊳ λ deployment _.
      returns_it (optional_as [] as_string_map kafka "security") ⊳ λ security _.
      no_alias-passes security ⊳ λ _ no_alias. compression-passes security ⊳ λ _ one_codec.
      returns_it (required_as as_mapping raw "catalog") ⊳ λ catalog _.
      returns_it (refuse_unknown catalog _) ⊳ λ _ _.
      returns_it (required_as as_mapping raw "pricing") ⊳ λ pricing _.
      returns_it (refuse_unknown pricing _) ⊳ λ _ _.
      returns_it (required_as as_string_map catalog "props") ⊳ λ catalog_props _.
      returns_it (kubernetes_config raw) ⊳ λ kubernetes _.
      returns_it (schema_registry_config kafka) ⊳ λ registry _.
      refuse_secrets-Sealed kubernetes security catalog_props registry ⊳ λ _ checked.
      returns_it (required_as as_str raw "corpus_root") ⊳ λ corpus_root _.
      returns_it (required_as as_str raw "runs_root") ⊳ λ runs_root _.
      returns_it (required_as as_str raw "warehouse") ⊳ λ warehouse _.
      returns_it (required_as as_str kafka "bootstrap_servers") ⊳ λ bootstrap _.
      returns_it (required_as (as_float (of_int fl)) pricing "vcpu_hour_usd") ⊳ λ vcpu _.
      returns_it (required_as (as_float (of_int fl)) pricing "gib_hour_usd") ⊳ λ gib _.
      returned (record {
        replaced = texts-IsReplaced document replaced;
        one_codec = one_codec;
        no_alias = no_alias;
        no_literal_secret = checked;
      })
