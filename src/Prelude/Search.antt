-- ===== src/Prelude/Search.antt =====
-- Boolean searches through lists and ranges of numbers.
use Prim.Native.Nat.{ℕ, zero, suc, ◌+◌, ◌≤◌, ◌<◌}
use mathlib.Core.Path.{◌≡◌, refl}
use mathlib.Core.Logic.{inl, inr}
use mathlib.Core.Bool.{Bool, true, not, ◌&&◌, ◌||◌}
use mathlib.Core.List.{List, [], ◌∷◌}
use native.Mathlib.Omega.{arith}
use lakehouse_ingest_bench.Prelude.Tests.{ltb, leb, ◌==◌, ==_iff, Bool-cases}
use lakehouse_ingest_bench.Prelude.Lists.{keep, any, every, range}

abbrev pub member : ℕ → List ℕ → Bool
member b = any (λ n. n == b)

pub member-keep : (b : ℕ) (q : ℕ → Bool) (xs : List ℕ) → member b (keep q xs) ≡ (q b && member b xs)
member-keep b q [] = ground arith
member-keep b q (x ∷ xs) = elim (Bool-cases (x == b)) [
  | inl same ↦ rw ((==_iff x b).0 same) (ground (arith, member-keep b q xs))
  | inr other ↦ ground (arith, member-keep b q xs)
]

pub member-range : (b i n : ℕ) → member b (range i n) ≡ (leb i b && ltb b (i + n))
member-range b i zero = ground arith
member-range b i (suc n) = ground (arith, member-range b (suc i) n)

pub every-range :
    (p : ℕ → Bool) (i n b : ℕ) → every p (range i n) ≡ true → i ≤ b → b < i + n → p b ≡ true
every-range p i zero b h lo hi = absurd (omega arith)
every-range p i (suc n) b h lo hi = elim (Bool-cases (i == b)) [
  | inl same ↦ rw (← (==_iff i b).0 same) (ground arith)
  | inr other ↦ every-range p (suc i) n b (ground arith) (ground arith) (omega arith)
]

pub every-range_intro :
    (p : ℕ → Bool) (i n : ℕ)
    → ((b : ℕ) → i ≤ b → b < i + n → p b ≡ true)
    → every p (range i n) ≡ true
every-range_intro p i zero h = refl
every-range_intro p i (suc n) h =
    rw (h i (omega arith) (omega arith))
      (every-range_intro p (suc i) n (λ b lo hi. h b (omega arith) (omega arith)))

pub every-keep :
    (p q : ℕ → Bool) (xs : List ℕ) → every p (keep q xs) ≡ every (λ x. not (q x) || p x) xs
every-keep p q [] = refl
every-keep p q (x ∷ xs) = ground (arith, every-keep p q xs)
