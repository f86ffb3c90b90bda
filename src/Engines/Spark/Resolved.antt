-- ===== src/Engines/Spark/Resolved.antt =====
-- What a Spark run's settings are: none refers to the environment, and the overrides come last.
use mathlib.Core.Option
use text.Mathlib.Text.{◌==◌ as str_eq}
use lakehouse_ingest_bench.Result.{ok, Ensures, returned, ◌⊳◌, returns_it, passes}
use lakehouse_ingest_bench.Prelude.{
  String, ◌≡◌, refl, ◌∙◌, Bool, true, false, Option, none, some, List, [], ◌∷◌, arith,
  if◌then◌else◌, any, All, Option-cases, inl, inr,
}
use lakehouse_ingest_bench.Prelude.Strings.{
  codes, begins_with, lookup, last_value, update, lookup-update,
}
use lakehouse_ingest_bench.Specs.Yaml.{Block}
use lakehouse_ingest_bench.Specs.Site.{SiteConfig, KubernetesConfig}
use lakehouse_ingest_bench.Engines.JavaProperties.{needed}
use lakehouse_ingest_bench.Engines.Settings.{
  Setting, written, decimal, ◌*ℤ◌, as_settings, last_value-as_settings, first_of, KeepsOverrides,
  update-KeepsOverrides,
}
use lakehouse_ingest_bench.Engines.Spark.{
  SparkKnobs, read_spark, catalog_conf, checkpoint_uri, taken_props, s3a_from_catalog_prop,
  local_store_conf, is_reference, session_conf, extensions_conf, unless_cluster, render_spark_conf,
  cores_total,
}

abbrev pub Conf : Type 0
Conf = List (String × Setting)

abbrev pub partitions_key : String
partitions_key = "spark.sql.shuffle.partitions"

any-none :
    (conf : Conf)
    → any (λ entry. is_reference entry.1) conf ≡ false
    → All (λ (entry : String × Setting). is_reference entry.1 ≡ false) conf
any-none [] h = tt
any-none (entry ∷ conf) h = (ground arith, any-none conf (ground arith))

second_of : List (String × String) → List String
second_of [] = []
second_of ((prop, setting) ∷ pairs) = setting ∷ second_of pairs

taken_props-absent :
    (catalog_props pairs : List (String × String)) (key : String)
    → any (λ setting. str_eq setting key) (second_of pairs) ≡ false
    → Ensures (λ conf. last_value key conf ≡ none) (taken_props catalog_props pairs)
unfolding taken_props second_of
taken_props-absent catalog_props [] key h = returned refl
taken_props-absent catalog_props ((prop, setting) ∷ pairs) key h =
    let other : str_eq setting key ≡ false = ground arith in
    returns_it (needed catalog_props prop) ⊳ λ value _.
    taken_props-absent catalog_props pairs key (ground arith) ⊳ λ rest absent.
    returned (rw (absent, other) refl)

store-absent :
    {F : Type 0} (site : SiteConfig F) (run_id : String)
    → Ensures
        (λ conf. last_value partitions_key conf ≡ none)
        (unless_cluster site.kubernetes (local_store_conf site run_id))
unfolding local_store_conf second_of
store-absent site run_id = go site.kubernetes
  where
    here :
        (test : Bool)
        → Ensures
            (λ conf. last_value partitions_key conf ≡ none)
            (if test then taken_props site.catalog_props s3a_from_catalog_prop else ok [])
    here true = taken_props-absent site.catalog_props s3a_from_catalog_prop partitions_key refl
    here false = returned refl

    go :
        (cluster : Option KubernetesConfig)
        → Ensures
            (λ conf. last_value partitions_key conf ≡ none)
            (unless_cluster cluster (local_store_conf site run_id))
    go none = here (begins_with (checkpoint_uri site run_id) (codes "s3a://"))
    go (some cluster) = returned refl

-- What the rendered settings are, for the knobs that were read.
abbrev pub IsResolved : {F : Type 0} → Block F → Conf → Type 0
IsResolved block conf =
    (knobs : SparkKnobs) × (read_spark block ≡ ok knobs)
    × All (λ (entry : String × Setting). is_reference entry.1 ≡ false) conf
    × KeepsOverrides knobs.extra_spark_conf conf
    × (lookup partitions_key conf
        ≡ first_of (Option.map written (last_value partitions_key knobs.extra_spark_conf))
            (some (decimal (knobs.executors *ℤ knobs.executor_cores))))

partitions_of :
    (knobs : SparkKnobs) (run_id : String) (conf store : Conf)
    → last_value partitions_key store ≡ none
    → lookup partitions_key (
        update
          (update (update conf (session_conf knobs run_id)) store)
          (as_settings knobs.extra_spark_conf))
      ≡ first_of
          (Option.map written (last_value partitions_key knobs.extra_spark_conf))
          (some (decimal (knobs.executors *ℤ knobs.executor_cores)))
unfolding cores_total
partitions_of knobs run_id conf store h =
    let before = update (update conf (session_conf knobs run_id)) store in
    let own : lookup partitions_key before ≡ some (decimal (cores_total knobs)) =
      lookup-update partitions_key (update conf (session_conf knobs run_id)) store
      ∙ rw h (lookup-update partitions_key conf (session_conf knobs run_id)) in
    elim (Option-cases (last_value partitions_key knobs.extra_spark_conf)) [
      | inl none_given ↦
          lookup-update partitions_key before (as_settings knobs.extra_spark_conf)
          ∙ rw (last_value-as_settings partitions_key knobs.extra_spark_conf, none_given) own
      | inr (value, given) ↦
          lookup-update partitions_key before (as_settings knobs.extra_spark_conf)
          ∙ rw (last_value-as_settings partitions_key knobs.extra_spark_conf, given) refl
    ]

-- The settings of a Spark run that are not refused: no value refers to the environment, which nothing
-- would resolve in a setting; each override has its last value; and unless one sets it, there is a shuffle
-- partition for each core of the executors.
pub render_spark_conf-IsResolved :
    {F : Type 0} (block : Block F) (site : SiteConfig F) (run_id : String)
    → Ensures (IsResolved block) (render_spark_conf block site run_id)
unfolding render_spark_conf
render_spark_conf-IsResolved block site run_id = returns_it (read_spark block) ⊳ λ knobs known.
    returns_it (catalog_conf site) ⊳ λ catalog _. store-absent site run_id ⊳ λ store absent.
    let before = update extensions_conf catalog in
    let session = update (update before (session_conf knobs run_id)) store in
    let conf = update session (as_settings knobs.extra_spark_conf) in
    passes (any (λ entry. is_reference entry.1) conf) ⊳ λ _ none_refers. returned (
      knobs,
      known,
      any-none _ none_refers,
      update-KeepsOverrides knobs.extra_spark_conf _,
      partitions_of knobs run_id (update extensions_conf catalog) store absent,
    )
