-- ===== src/Engines/Settings.antt =====
-- What the engines' settings share: the readers of knobs at the head of engines/flink/knobs.py, which
-- those of engines/spark/knobs.py repeat, and the values of settings. A number in a setting stands for
-- its decimal text.
use mathlib.Core.Option
use mathlib.Core.Path.{refl}
use native.Mathlib.Omega.{arith}
use lakehouse_ingest_bench.Prelude.Int.{ℤ, pos, negsuc, sub_ℕ, ltb_ℤ}
use lakehouse_ingest_bench.Result.{value_error, Result, ok, err, refuse}
use lakehouse_ingest_bench.Prelude.{
  Option, none, some, Option-cases, inl, inr, ◌∙◌, suc, ◌*◌, String, Bool, not, List, [], ◌∷◌,
  if◌then◌else◌, any, ◌≡◌, arith,
}
use lakehouse_ingest_bench.Prelude.Strings.{has_key, last_value, lookup, update, lookup-update}
use lakehouse_ingest_bench.Specs.Yaml.{
  Real, finite, Yaml, boolean, integer, number, quoted, mapping, Block, block_of, as_strings,
}

-- str(n), f"{n}m", and other texts
pub data Setting : Type 0 where
  written : String → Setting
  decimal megabytes : ℤ → Setting

module _ {F : Type 0} where
  unfoldable pub int_at : Yaml F → Result ℤ
  int_at (integer n) = ok n
  int_at _ = err value_error

  unfoldable pub float_at : (ℤ → F) → Yaml F → Result (Real F)
  float_at of_int (integer n) = ok (finite (of_int n))
  float_at of_int (number x) = ok x
  float_at of_int _ = err value_error

  unfoldable pub str_at : Yaml F → Result String
  str_at (quoted value) = ok value
  str_at _ = err value_error

  unfoldable pub bool_at : Yaml F → Result Bool
  bool_at (boolean b) = ok b
  bool_at _ = err value_error

  unfoldable pub conf_at : Yaml F → Result (List (String × String))
  unfolding as_strings
  conf_at (mapping fields) = as_strings (block_of fields)
  conf_at _ = err value_error

  -- sorted(REQUIRED_KNOBS - set(block)) is not empty
  unfoldable pub refuse_missing : Block F → List String → Result (Unit {0})
  refuse_missing block names = refuse (any (λ name. not (has_key name block)) names)

-- A count below 1 is refused.
abbrev pub below_one : ℤ → Bool
below_one n = ltb_ℤ n (pos 1)

-- Counts, in front of an arithmetic that Python does on integers: `below_one` leaves natural ones.
infix 60 ◌*ℤ◌
abbrev pub ◌*ℤ◌ : ℤ → ℤ → ℤ
pos a *ℤ pos b = pos (a * b)
pos a *ℤ negsuc b = sub_ℕ 0 (a * suc b)
negsuc a *ℤ pos b = sub_ℕ 0 (suc a * b)
negsuc a *ℤ negsuc b = pos (suc a * suc b)

abbrev pub flag : Bool → String
flag value = if value then "true" else "false"

abbrev pub distribution_modes : List String
distribution_modes = "none" ∷ "hash" ∷ "range" ∷ []

-- The site's and the spec's own settings are texts.
abbrev pub as_settings : List (String × String) → List (String × Setting)
as_settings [] = []
as_settings ((key, value) ∷ conf) = (key, written value) ∷ as_settings conf

pub last_value-as_settings :
    (key : String) (conf : List (String × String))
    → last_value key (as_settings conf) ≡ Option.map written (last_value key conf)
last_value-as_settings key [] = refl
last_value-as_settings key ((k, v) ∷ conf) = ground (arith, last_value-as_settings key conf)

-- An entry, or else another one.
abbrev pub first_of : Option Setting → Option Setting → Option Setting
first_of (some value) other = some value
first_of none other = other

-- Under each key that is overridden stands the last value that overrides it.
abbrev pub KeepsOverrides : List (String × String) → List (String × Setting) → Type 0
KeepsOverrides extra conf =
    (key : String)
    → lookup key conf ≡ first_of (Option.map written (last_value key extra)) (lookup key conf)

pub update-KeepsOverrides :
    (extra : List (String × String)) (conf : List (String × Setting))
    → KeepsOverrides extra (update conf (as_settings extra))
update-KeepsOverrides extra conf key = elim (Option-cases (last_value key extra)) [
  | inl none_given ↦ rw none_given refl
  | inr (value, given) ↦ rw given (
      lookup-update key conf (as_settings extra)
      ∙ rw (last_value-as_settings key extra, given) refl)
]
