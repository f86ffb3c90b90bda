-- ===== src/Engines/Flink/Conf.antt =====
-- The settings of a Flink job.
use mathlib.Core.Option
use lakehouse_ingest_bench.Prelude.Int.{ℤ, pos, negsuc, eq_ℤ}
use lakehouse_ingest_bench.Result.{ok}
use lakehouse_ingest_bench.Prelude.{
  String, ◌≡◌, refl, ap, ◌∙◌, inl, inr, true, Option, some, List, arith, Bool-cases, ◌⊎◌,
  Option-cases,
}
use lakehouse_ingest_bench.Prelude.Floats.{Floats}
use lakehouse_ingest_bench.Prelude.Strings.{lookup, last_value, lookup-update}
use lakehouse_ingest_bench.Specs.Yaml.{Block}
use lakehouse_ingest_bench.Engines.Settings.{
  Setting, written, decimal, ◌*ℤ◌, as_settings, last_value-as_settings, first_of, KeepsOverrides,
  update-KeepsOverrides,
}
use lakehouse_ingest_bench.Engines.Flink.{
  Knobs, read, slots_total, parallelism_default, rendered_conf, render_conf, insert_hints,
}

abbrev pub default_key : String
default_key = "parallelism.default"

eq_ℤ-same : (a b : ℤ) → eq_ℤ a b ≡ true → a ≡ b
eq_ℤ-same (pos a) (pos b) h = ap pos (ground arith)
eq_ℤ-same (pos a) (negsuc b) h = absurd (ground arith)
eq_ℤ-same (negsuc a) (pos b) h = absurd (ground arith)
eq_ℤ-same (negsuc a) (negsuc b) h = ap negsuc (ground arith)

-- The job runs, by default, at the parallelism that the knobs give the readers, unless an override sets it.
abbrev pub ReadersRun : {F : Type 0} → Knobs F → List (String × Setting) → Type 0
ReadersRun knobs conf =
    lookup default_key conf
    ≡ first_of (Option.map written (last_value default_key knobs.extra_flink_conf))
        (some (decimal knobs.source_parallelism))

-- The writers run on all slots of the fleet, by the hint or else by the default, unless an override sets
-- the default.
abbrev pub WritersRun : {F : Type 0} → Knobs F → List (String × Setting) → Type 0
WritersRun knobs conf =
    ((value : String) × (last_value default_key knobs.extra_flink_conf ≡ some value))
    ⊎ (first_of (lookup "write-parallelism" (insert_hints knobs)) (lookup default_key conf)
        ≡ some (decimal (knobs.taskmanagers *ℤ knobs.slots)))

readers :
    {F : Type 0} (knobs : Knobs F) (run_id : String) → ReadersRun knobs (rendered_conf knobs run_id)
unfolding rendered_conf
readers knobs run_id =
    lookup-update default_key _ (as_settings knobs.extra_flink_conf)
    ∙ rw (last_value-as_settings default_key knobs.extra_flink_conf)
        (elim (Option-cases (last_value default_key knobs.extra_flink_conf)) [
          | inl none_given ↦ rw none_given refl
          | inr (value, given) ↦ rw given refl
        ])

writers :
    {F : Type 0} (knobs : Knobs F) (setting : Option Setting)
    → setting ≡ some (decimal knobs.source_parallelism)
    → first_of (lookup "write-parallelism" (insert_hints knobs)) setting
      ≡ some (decimal (slots_total knobs))
unfolding insert_hints
writers knobs setting h = elim (Bool-cases (eq_ℤ (slots_total knobs) (parallelism_default knobs))) [
  | inl same ↦ rw (same, h, eq_ℤ-same (slots_total knobs) (parallelism_default knobs) same) refl
  | inr other ↦ rw other refl
]

writers_run :
    {F : Type 0} (knobs : Knobs F) (conf : List (String × Setting))
    → ReadersRun knobs conf
    → WritersRun knobs conf
unfolding slots_total
writers_run knobs conf h = elim (Option-cases (last_value default_key knobs.extra_flink_conf)) [
  | inl none_given ↦ inr (writers knobs (lookup default_key conf) (rw none_given at h))
  | inr given ↦ inl given
]

-- The settings of a Flink job whose knobs can be read. Each key that is overridden has the last value that
-- overrides it. The readers run at the source parallelism unless an override sets the default parallelism;
-- and unless one does, the writers run, by the hint or else by the default, on all slots of all task
-- managers.
pub render_conf-fills_fleet :
    (fl : Floats) (block : Block (Floats.Float fl)) (run_id : String)
    (knobs : Knobs (Floats.Float fl))
    → read fl block ≡ ok knobs
    → (conf : List (String × Setting)) × (render_conf fl block run_id ≡ ok conf)
      × KeepsOverrides knobs.extra_flink_conf conf
      × ReadersRun knobs conf
      × WritersRun knobs conf
unfolding render_conf rendered_conf
render_conf-fills_fleet fl block run_id knobs h =
    let own = readers knobs run_id in
    (
      rendered_conf knobs run_id,
      rw h refl,
      update-KeepsOverrides knobs.extra_flink_conf _,
      own,
      writers_run knobs (rendered_conf knobs run_id) own,
    )
