-- ===== src/Prelude/Floats.antt =====
-- Python's floats as the program uses them, and the numpy statistics over them: a parameter of the
-- model, with the order laws that IEEE division, `max` and `round` have.
use Prim.Native.Nat.{ℕ, ◌≤◌}
use mathlib.Core.Path.{◌≡◌}
use mathlib.Core.Logic.{◌↔◌}
use mathlib.Core.Bool.{Bool, true, false}
use mathlib.Core.List.{List, ◌∷◌}
use lakehouse_ingest_bench.Prelude.Lists.{All}
use lakehouse_ingest_bench.Prelude.Int.{ℤ, pos, ◌≤ℤ◌}

pub record Floats : Type 1 where
  pub Float : Type 0
  pub origin : Float
  pub le : Float → Float → Bool
  -- a / b of two integers, x / y of two floats, 2 * x
  pub div : ℤ → ℕ → Float
  pub over : Float → Float → Float
  pub twice : Float → Float
  -- round(a / x)
  pub round_div : ℕ → Float → ℕ
  -- np.percentile(xs, q) and xs.max(), of a non-empty array
  pub percentile : List Float → ℕ → Float
  pub maximum : List Float → Float
  pub div_mono : (a b : ℤ) → a ≤ℤ b → le (div a 1000) (div b 1000) ≡ true
  pub div_sign : (a : ℤ) → (le origin (div a 1000) ≡ true) ↔ (pos 0 ≤ℤ a)
  pub le_trans : (x y z : Float) → le x y ≡ true → le y z ≡ true → le x z ≡ true
  -- no value is a NaN
  pub le_total : (x y : Float) → le x y ≡ false → le y x ≡ true
  pub maximum_upper :
      (x : Float) (xs : List Float) → All (λ y. le y (maximum (x ∷ xs)) ≡ true) (x ∷ xs)
  pub round_mono :
      (a b : ℕ) (x : Float) → le x origin ≡ false → a ≤ b → round_div a x ≤ round_div b x
