-- ===== src/Scorer/Exactness.antt =====
-- ingest_bench/scorer/exactness.py. The set of offered batches is a list, read through `in`. The
-- share `duplicate_ppm` is kept as the fraction that the source divides out in floats.
pub mod Accounts
use lakehouse_ingest_bench.Prelude.Search.{member}
use lakehouse_ingest_bench.Result.{value_error, Result, ok, err, ◌>>=◌}
use lakehouse_ingest_bench.Prelude.{
  ℕ, ◌-◌, ◌*◌, Bool, true, false, Option, none, some, List, [], ◌∷◌, leb, ◌==◌, if◌then◌else◌,
  length, get_or, take, keep, any, sum_by, range,
}
use lakehouse_ingest_bench.Scorer.Tally.{BatchTally, size, violations, Violation, Kind, corruption}

abbrev pub violation_cap : ℕ
violation_cap = 200

-- `_scored`: the batches that the mask selects.
unfoldable pub scored : BatchTally → List ℕ → Result (List ℕ)
scored t offered =
    if any (λ b. leb (size t) b) offered
    then err value_error
    else ok (keep (λ b. member b offered) (range 0 (size t)))

pub record Fraction : Type 0 where
  pub numerator : ℕ
  pub denominator : ℕ

pub record Exactness : Type 0 where
  pub expected_rows : ℕ
  pub rows : ℕ
  pub scored_batches : ℕ
  pub loss_rows : ℕ
  pub duplicate_rows : ℕ
  pub duplicate_ppm : Option Fraction
  pub corrupt_batches : ℕ
  pub violations : List Violation
  pub exact : Bool

abbrev pub is_empty {ℓ} : {A : Type ℓ} → List A → Bool
is_empty [] = true
is_empty (x ∷ xs) = false

abbrev pub is_corruption : Kind → Bool
is_corruption corruption = true
is_corruption _ = false

abbrev pub expected_of : BatchTally → ℕ → ℕ
expected_of t b = get_or t.expected_rows b 0

abbrev pub count_of : BatchTally → ℕ → ℕ
count_of t b = get_or t.counts b 0

-- The document, for the scored batches and the violations among them. `-` stops at 0, as
-- `np.maximum(.., 0)` does.
unfoldable pub summarize : BatchTally → List ℕ → List Violation → Exactness
summarize t chosen found =
    let expected_rows = sum_by (expected_of t) chosen in
    let duplicate_rows = sum_by (λ b. count_of t b - expected_of t b) chosen in
    record {
      expected_rows = expected_rows;
      rows = sum_by (count_of t) chosen;
      scored_batches = length chosen;
      loss_rows = sum_by (λ b. expected_of t b - count_of t b) chosen;
      duplicate_rows = duplicate_rows;
      duplicate_ppm =
          if expected_rows == 0
          then none
          else some
              (record { numerator = duplicate_rows * 1_000_000; denominator = expected_rows });
      corrupt_batches = length (keep (λ v. is_corruption v.kind) found);
      violations = take violation_cap found;
      exact = is_empty found;
    }

unfoldable pub exactness_result : BatchTally → List ℕ → Result Exactness
unfolding scored summarize
exactness_result t offered = do
  chosen ← scored t offered
  ok (summarize t chosen (keep (λ v. member v.batch chosen) (violations t true)))
