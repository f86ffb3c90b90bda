-- ===== src/Engines/Flink/Sizing.antt =====
-- The fleet that a Flink run validates.
use lakehouse_ingest_bench.Prelude.Int.{ℤ, pos, ◌≤ℤ◌, ltb_ℤ}
use lakehouse_ingest_bench.Result.{
  found, ok, Ensures, returned, raises, ◌⊳◌, refuse, Ensures-implies, returns_it, passes,
  Ensures-at,
}
use lakehouse_ingest_bench.Prelude.{String, ◌≡◌, refl, false, not, Option, none, some, [], arith}
use lakehouse_ingest_bench.Prelude.Floats.{Floats}
use lakehouse_ingest_bench.Prelude.Strings.{lookup}
use lakehouse_ingest_bench.Specs.Yaml.{Block, refuse_unknown, required_as, optional_as}
use lakehouse_ingest_bench.Specs.Blocks.{KafkaSpec}
use lakehouse_ingest_bench.Engines.Settings.{
  refuse_missing, below_one, int_at, bool_at, str_at, float_at, conf_at, distribution_modes, ◌*ℤ◌,
}
use lakehouse_ingest_bench.Engines.Flink.{
  Knobs, read, slots_total, validate, source_format, source_formats, max_parallelism_factor,
  knob_keys, required_knobs, str_at, among, distribution_modes, float_at, of_int, finite, some_of,
}

-- What `read` accepts.
abbrev pub IsPositive : {F : Type 0} → Knobs F → Type 0
IsPositive knobs =
    (pos 1 ≤ℤ knobs.taskmanagers) × (pos 1 ≤ℤ knobs.slots) × (pos 1 ≤ℤ knobs.source_parallelism)

below_one-from : (n : ℤ) → below_one n ≡ false → pos 1 ≤ℤ n
below_one-from n h = ground arith

ltb-from : (a b : ℤ) → ltb_ℤ a b ≡ false → b ≤ℤ a
ltb-from a b h = ground arith

source_format-found :
    (kafka : KafkaSpec)
    → Ensures
        (λ _. (format : String) × (lookup kafka.value_encoding source_formats ≡ some format))
        (source_format kafka)
unfolding source_format found
source_format-found kafka = go (lookup kafka.value_encoding source_formats) refl
  where
    go :
        (entry : Option String)
        → lookup kafka.value_encoding source_formats ≡ entry
        → Ensures
            (λ _. (format : String) × (lookup kafka.value_encoding source_formats ≡ some format))
            (found entry)
    go none h = raises
    go (some format) h = returned (format, h)

pub read-IsPositive :
    (fl : Floats) (block : Block (Floats.Float fl)) → Ensures IsPositive (read fl block)
unfolding read refuse_unknown refuse_missing
read-IsPositive fl block = returns_it (refuse_unknown block knob_keys) ⊳ λ _ _.
    returns_it (refuse_missing block required_knobs) ⊳ λ _ _.
    returns_it (required_as int_at block "taskmanagers") ⊳ λ taskmanagers _.
    returns_it (required_as int_at block "slots") ⊳ λ slots _.
    returns_it (optional_as (pos 1) int_at block "source_parallelism") ⊳ λ source_parallelism _.
    returns_it (
      optional_as ((max_parallelism_factor *ℤ taskmanagers) *ℤ slots) int_at block
        "max_parallelism")
    ⊳ λ max_parallelism _. passes (below_one taskmanagers) ⊳ λ _ t.
        passes (below_one slots) ⊳ λ _ s. passes (below_one source_parallelism) ⊳ λ _ p.
        passes (below_one max_parallelism) ⊳ λ _ _.
        returns_it (required_as str_at block "distribution_mode") ⊳ λ mode _.
        returns_it (refuse (not (among mode distribution_modes))) ⊳ λ _ _.
        returns_it (required_as (float_at (of_int fl)) block "tm_cpu") ⊳ λ _ _.
        returns_it (required_as int_at block "tm_mem_mb") ⊳ λ _ _.
        returns_it (optional_as (finite (of_int fl (pos 1))) (float_at (of_int fl)) block "jm_cpu")
        ⊳ λ _ _. returns_it (optional_as (pos 2_048) int_at block "jm_mem_mb") ⊳ λ _ _.
            returns_it (required_as str_at block "checkpoint_interval") ⊳ λ _ _.
            returns_it (optional_as "0s" str_at block "min_pause") ⊳ λ _ _.
            returns_it (optional_as false bool_at block "unaligned_checkpoints") ⊳ λ _ _.
            returns_it (optional_as none (some_of str_at) block "machine_type") ⊳ λ _ _.
            returns_it (optional_as [] conf_at block "extra_flink_conf") ⊳ λ _ _. returned (
              below_one-from taskmanagers t,
              below_one-from slots s,
              below_one-from source_parallelism p,
            )

-- The fleet of a Flink run that `validate` accepts: every reader has a partition and a slot, and the job
-- can take all slots.
abbrev pub Fits : {F : Type 0} → KafkaSpec → Knobs F → Type 0
Fits kafka knobs =
    (pos 1 ≤ℤ knobs.source_parallelism)
    × (knobs.source_parallelism ≤ℤ kafka.partitions)
    × (knobs.source_parallelism ≤ℤ slots_total knobs)
    × (slots_total knobs ≤ℤ knobs.max_parallelism)

-- What a validation says of a run: its knobs can be read, Flink has a source format for the values, and
-- the fleet fits.
abbrev pub IsValidated : (fl : Floats) → Block (Floats.Float fl) → KafkaSpec → Type 0
IsValidated fl block kafka =
    (knobs : Knobs (Floats.Float fl)) × (read fl block ≡ ok knobs)
    × Fits kafka knobs
    × ((format : String) × (lookup kafka.value_encoding source_formats ≡ some format))

-- A Flink run that is not refused has at least one reader, a partition and a slot for every reader, and a
-- largest parallelism that covers all slots of the fleet; and its wire encoding has a source format.
pub validate-IsValidated :
    (fl : Floats) (block : Block (Floats.Float fl)) (kafka : KafkaSpec)
    → Ensures (λ _. IsValidated fl block kafka) (validate fl block kafka)
unfolding validate source_format found
validate-IsValidated fl block kafka = returns_it (read fl block) ⊳ λ knobs known.
    source_format-found kafka ⊳ λ _ format.
    passes (ltb_ℤ kafka.partitions knobs.source_parallelism) ⊳ λ _ p.
    passes (ltb_ℤ (slots_total knobs) knobs.source_parallelism) ⊳ λ _ s.
    Ensures-implies
      (λ _ m. (
        knobs,
        known,
        (
          (Ensures-at (read-IsPositive fl block) known).2,
          ltb-from kafka.partitions knobs.source_parallelism p,
          ltb-from (slots_total knobs) knobs.source_parallelism s,
          ltb-from knobs.max_parallelism (slots_total knobs) m,
        ),
        format,
      ))
      (passes (ltb_ℤ knobs.max_parallelism (slots_total knobs)))
