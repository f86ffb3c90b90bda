-- ===== src/Tests/Numbers.antt =====
-- A concrete number type for the tests: thousandths, rounded towards zero.
use native.Mathlib.Nat.{le-div_iff_mul-le, mul-div-le, mul_comm}
use lakehouse_ingest_bench.Prelude.{
  ℕ, zero, suc, ◌+◌, ◌*◌, ◌/◌, ◌≤◌, ◌≡◌, Bool, true, false, not, List, [], ◌∷◌, All, arith, ◌↔◌,
}
use lakehouse_ingest_bench.Prelude.Int.{ℤ, pos, negsuc, pos_part, ◌≤ℤ◌, ltb_ℤ, max_ℤ}
use lakehouse_ingest_bench.Prelude.Floats.{Floats}

abbrev at_most : ℤ → ℤ → Bool
at_most x y = not (ltb_ℤ y x)

abbrev divided : ℤ → ℕ → ℤ
divided (pos a) n = pos (a * 1000 / n)
divided (negsuc a) n = negsuc (a * 1000 / n)

abbrev doubled : ℤ → ℤ
doubled (pos a) = pos (a + a)
doubled (negsuc a) = negsuc (a + a + 1)

abbrev greatest : List ℤ → ℤ
greatest [] = pos 0
greatest (x ∷ []) = x
greatest (x ∷ y ∷ xs) = max_ℤ x (greatest (y ∷ xs))

pub at_most_trans : (x y z : ℤ) → at_most x y ≡ true → at_most y z ≡ true → at_most x z ≡ true
at_most_trans x y z h h' = ground arith

All-at_most :
    (x y : ℤ) (xs : List ℤ)
    → at_most x y ≡ true
    → All (λ z. at_most z x ≡ true) xs
    → All (λ z. at_most z y ≡ true) xs
All-at_most x y [] le all = tt
All-at_most x y (z ∷ xs) le (now, all) = (at_most_trans z x y now le, All-at_most x y xs le all)

pub greatest_upper :
    (x : ℤ) (xs : List ℤ) → All (λ y. at_most y (greatest (x ∷ xs)) ≡ true) (x ∷ xs)
greatest_upper x [] = (ground arith, tt)
greatest_upper x (y ∷ xs) = (
  ground arith,
  All-at_most (greatest (y ∷ xs)) (max_ℤ x (greatest (y ∷ xs))) (y ∷ xs) (ground arith)
      (greatest_upper y xs),
)

pub divided_mono : (a b : ℤ) → a ≤ℤ b → at_most (divided a 1000) (divided b 1000) ≡ true
divided_mono (pos a) (pos b) h = ground arith
divided_mono (pos a) (negsuc b) h = ground arith
divided_mono (negsuc a) (pos b) h = ground arith
divided_mono (negsuc a) (negsuc b) h = ground arith

pub divided_sign : (a : ℤ) → (at_most (pos 0) (divided a 1000) ≡ true) ↔ (pos 0 ≤ℤ a)
divided_sign (pos a) = (λ h. omega arith, λ h. ground arith)
divided_sign (negsuc a) = (λ h. ground arith, λ h. ground arith)

pub divided_le :
    (a b : ℕ) (x : ℤ)
    → at_most x (pos 0) ≡ false
    → a ≤ b
    → a * 1000 / pos_part x ≤ b * 1000 / pos_part x
divided_le a b (pos zero) h le = absurd (ground arith)
divided_le a b (pos (suc n)) h le =
    (le-div_iff_mul-le (omega arith)).1
      (omega (arith, mul-div-le (a * 1000) (suc n), le, mul_comm (suc n) (a * 1000 / suc n)))
divided_le a b (negsuc n) h le = absurd (ground arith)

pub at_most-total : (x y : ℤ) → at_most x y ≡ false → at_most y x ≡ true
at_most-total x y h = ground arith

abbrev pub numbers : Floats
numbers = record {
  Float = ℤ;
  origin = pos 0;
  le = at_most;
  div = divided;
  over = λ x y. pos (pos_part x * 1000 / pos_part y);
  twice = doubled;
  round_div = λ a x. a * 1000 / pos_part x;
  percentile = λ xs q. greatest xs;
  maximum = greatest;
  div_mono = divided_mono;
  div_sign = divided_sign;
  le_trans = at_most_trans;
  le_total = at_most-total;
  maximum_upper = greatest_upper;
  round_mono = divided_le;
}
