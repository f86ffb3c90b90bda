-- ===== src/Specs/Run.antt =====
-- `RunSpec` and `load_run_spec` of ingest_bench/specs/model.py, on the document that `yaml` parses.
pub mod Known
pub mod Valid
use text.Mathlib.Text.{◌==◌ as str_eq}
use lakehouse_ingest_bench.Result.{Result, ok, ◌>>=◌, ◌>>◌, refuse}
use lakehouse_ingest_bench.Prelude.{
  ℕ, String, Bool, true, false, not, ◌&&◌, ◌||◌, Option, none, some, List, [], ◌∷◌, leb, ◌==◌,
  if◌then◌else◌, length, every,
}
use lakehouse_ingest_bench.Prelude.Floats.{Floats}
use lakehouse_ingest_bench.Prelude.Strings.{codes, among, has_key}
use lakehouse_ingest_bench.Specs.Yaml.{Yaml, Block, as_mapping, as_str, refuse_unknown, required_as}
use lakehouse_ingest_bench.Specs.Blocks.{
  TableSpec, KafkaSpec, ProducerSpec, ScoringSpec, FleetRole, ExternalSpec, table_spec, kafka_spec,
  producer_spec, scoring_spec, external_spec, fleet,
}

-- text without the newline at its end, if there is one: `$` matches in front of it
abbrev pub without_newline : List ℕ → List ℕ
without_newline [] = []
without_newline (c ∷ []) = if c == 10 then [] else c ∷ []
without_newline (c ∷ d ∷ text) = c ∷ without_newline (d ∷ text)

-- [a-z0-9] and [a-z0-9-]
abbrev pub is_first : ℕ → Bool
is_first c = leb b'a' c && leb c b'z' || leb b'0' c && leb c b'9'

abbrev pub is_later : ℕ → Bool
is_later c = is_first c || c == b'-'

abbrev pub is_name : List ℕ → Bool
is_name [] = false
is_name (c ∷ text) =
    is_first c && every is_later text && leb 2 (length text) && leb (length text) 34

-- NAME_RE.match
unfoldable pub name_matches : String → Bool
name_matches name = is_name (without_newline (codes name))

abbrev pub managed_engines : List String
managed_engines = "flink" ∷ "spark" ∷ []

abbrev pub external_engine : String
external_engine = "external"

abbrev pub spec_keys : List String
spec_keys =
    "name" ∷ "engine" ∷ "corpus" ∷ "table" ∷ "kafka" ∷ "producer" ∷ "scoring" ∷ "external" ∷ "fleet"
    ∷ []

pub record RunSpec (F : Type 0) : Type 0 where
  pub name : String
  pub engine : String
  pub corpus : String
  pub table : TableSpec
  pub kafka : KafkaSpec
  pub producer : ProducerSpec F
  pub scoring : ScoringSpec F
  pub engine_block : Block F
  pub external : Option ExternalSpec
  pub fleet : List (FleetRole F)

-- What an engine of its own kind adds: the `external` and `fleet` blocks, or its knobs.
pub record EngineSide (F : Type 0) : Type 0 where
  pub block : Block F
  pub external : Option ExternalSpec
  pub fleet : List (FleetRole F)

module _ (fl : Floats) where
  open fl use {Float}

  unfoldable pub engine_side : Block Float → String → Bool → Result (EngineSide Float)
  engine_side raw engine true = do
    refuse (has_key "external" raw || has_key "fleet" raw)
    block ← required_as as_mapping raw engine
    ok (record { block = block; external = none; fleet = [] })
  engine_side raw engine false = do
    external ← external_spec raw
    roles ← fleet fl raw
    ok (record { block = []; external = some external; fleet = roles })

  unfoldable pub load_run_spec : Yaml Float → Result (RunSpec Float)
  load_run_spec document = do
    raw ← as_mapping document
    engine ← required_as as_str raw "engine"
    let managed = among engine managed_engines
    refuse (not managed && not (str_eq engine external_engine))
    refuse_unknown raw (if managed then engine ∷ spec_keys else spec_keys)
    name ← required_as as_str raw "name"
    refuse (not (name_matches name))
    corpus ← required_as as_str raw "corpus"
    kafka ← kafka_spec raw
    table ← table_spec raw "identity(partition_key)"
    side ← engine_side raw engine managed
    producer ← producer_spec fl raw
    scoring ← scoring_spec fl raw
    ok (record {
      name = name;
      engine = engine;
      corpus = corpus;
      table = table;
      kafka = kafka;
      producer = producer;
      scoring = scoring;
      engine_block = side.block;
      external = side.external;
      fleet = side.fleet;
    })
