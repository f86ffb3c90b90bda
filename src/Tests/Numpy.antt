-- ===== src/Tests/Numpy.antt =====
-- A concrete `numpy.bincount`, by counting for each bin.
use lakehouse_ingest_bench.Prelude.{
  ℕ, zero, suc, ◌+◌, ◌<◌, ◌≤◌, ◌≡◌, refl, ap, ◌∙◌, List, [], ◌∷◌, map, length, get_or, range, All,
  arith,
}
use lakehouse_ingest_bench.Scorer.Tally.{Row, occurrences, weight, Bincount}

abbrev bins : (ℕ → ℕ) → ℕ → ℕ → List ℕ
bins f first n = map f (range first n)

pub length-bins : (f : ℕ → ℕ) (first n : ℕ) → length (bins f first n) ≡ n
length-bins f first zero = refl
length-bins f first (suc n) = ap suc (length-bins f (suc first) n)

-- Beyond the bins a list gives 0, so `f` has to be 0 there.
pub bins_entry :
    (f : ℕ → ℕ) (first n b : ℕ)
    → ((i : ℕ) → first + n ≤ i → f i ≡ zero)
    → get_or (bins f first n) b 0 ≡ f (first + b)
bins_entry f first zero b beyond = omega (arith, beyond (first + b) (omega arith))
bins_entry f first (suc n) zero beyond = ap f (omega arith)
bins_entry f first (suc n) (suc b) beyond =
    bins_entry f (suc first) n b (λ i le. beyond i (omega (arith, le))) ∙ ap f (omega arith)

pub occurrences-beyond :
    (size : ℕ) (xs : List ℕ) (i : ℕ) → All (λ x. x < size) xs → size ≤ i → occurrences i xs ≡ zero
occurrences-beyond size [] i all le = refl
occurrences-beyond size (x ∷ xs) i (now, all) le =
    ground (arith, occurrences-beyond size xs i all le)

pub weight-beyond :
    (size : ℕ) (rows : List Row) (i : ℕ)
    → All (λ r. r.batch < size) rows
    → size ≤ i
    → weight i rows ≡ zero
weight-beyond size [] i all le = refl
weight-beyond size (r ∷ rows) i (now, all) le = ground (arith, weight-beyond size rows i all le)

abbrev pub numpy : Bincount
numpy = record {
  count = λ size xs. bins (λ b. occurrences b xs) 0 size;
  count_weights = λ size rows. bins (λ b. weight b rows) 0 size;
  length_count = λ size xs all. length-bins _ 0 size;
  count_entry = λ size xs b all.
      bins_entry (λ i. occurrences i xs) 0 size b
        (λ i le. occurrences-beyond size xs i all (omega arith))
      ∙ ap (λ i. occurrences i xs) (omega arith);
  length_weights = λ size rows all. length-bins _ 0 size;
  weights_entry = λ size rows b all small.
      bins_entry (λ i. weight i rows) 0 size b (λ i le. weight-beyond size rows i all (omega arith))
      ∙ ap (λ i. weight i rows) (omega arith);
}
