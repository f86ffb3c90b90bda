-- ===== src/Scorer/Exactness/Accounts.antt =====
-- What the exactness document says of the scored batches.
use lakehouse_ingest_bench.Prelude.Search.{
  member, member-keep, member-range, every-range, every-range_intro,
}
use lakehouse_ingest_bench.Result.{ok}
use lakehouse_ingest_bench.Prelude.{
  ℕ, ◌+◌, ◌-◌, ◌<◌, ◌≡◌, refl, ◌∙◌, ◌↔◌, inl, inr, Bool, true, false, not, ◌||◌, List, [], ◌∷◌,
  arith, leb, Bool-cases, keep, any, every, sum_by, range,
}
use lakehouse_ingest_bench.Scorer.Tally.{
  BatchTally, size, complete, mismatched, violations_from, violations, Violation,
}
use lakehouse_ingest_bench.Scorer.Exactness.{
  Exactness, is_empty, expected_of, count_of, summarize, exactness_result,
}

not-mismatched : (t : BatchTally) (b : ℕ) → not (mismatched t b) ≡ complete t b
unfolding mismatched complete
not-mismatched t b = ground arith

is_empty-found :
    (t : BatchTally) (chosen bs : List ℕ)
    → is_empty (keep (λ (v : Violation). member v.batch chosen) (violations_from t true bs))
      ≡ every (λ b. complete t b || not (member b chosen)) bs
unfolding violations_from
is_empty-found t chosen [] = refl
is_empty-found t chosen (b ∷ bs) = ground (arith, not-mismatched t b, is_empty-found t chosen bs)

exactness_result-ok :
    (t : BatchTally) (offered : List ℕ) (e : Exactness)
    → exactness_result t offered ≡ ok e
    → (any (λ b. leb (size t) b) offered ≡ false)
      × (let chosen = keep (λ b. member b offered) (range 0 (size t)) in
          summarize t chosen (keep (λ v. member v.batch chosen) (violations t true)) ≡ e)
unfolding exactness_result
exactness_result-ok t offered e h = ground arith

-- `member b chosen`, for the chosen batches of `scored`
member-scored :
    (t : BatchTally) (offered : List ℕ) (b : ℕ)
    → b < size t
    → member b (keep (λ n. member n offered) (range 0 (size t))) ≡ member b offered
member-scored t offered b h =
    member-keep b (λ n. member n offered) (range 0 (size t))
    ∙ ground (arith, member-range b 0 (size t))

-- The batches that an exact result vouches for.
abbrev pub AllComplete : BatchTally → List ℕ → Type 0
AllComplete t offered = (b : ℕ) → b < size t → member b offered ≡ true → complete t b ≡ true

exact_of : (t : BatchTally) (offered : List ℕ) → List ℕ → Bool
exact_of t offered bs =
    every (λ b. complete t b || not (member b (keep (λ n. member n offered) (range 0 (size t))))) bs

exact-eq :
    (t : BatchTally) (offered : List ℕ) (e : Exactness)
    → exactness_result t offered ≡ ok e
    → e.exact ≡ exact_of t offered (range 0 (size t))
unfolding summarize violations exact_of
exact-eq t offered e h =
    let (fine, same) = exactness_result-ok t offered e h in
    rw (← same)
      (is_empty-found t (keep (λ n. member n offered) (range 0 (size t))) (range 0 (size t)))

-- When every offered batch lies in the manifest, the result is exact just when each offered batch
-- has the row count and the checksum of the manifest, a batch that never arrived included.
pub exact_iff :
    (t : BatchTally) (offered : List ℕ) (e : Exactness)
    → exactness_result t offered ≡ ok e
    → (e.exact ≡ true) ↔ AllComplete t offered
unfolding exact_of
exact_iff t offered e h = (
  λ exact b b_lt own.
      let at_b =
        every-range _ 0 (size t) b (rw (exact-eq t offered e h) at exact) (omega arith)
          (omega arith) in
      ground (arith, member-scored t offered b b_lt),
  λ all.
      exact-eq t offered e h
      ∙ every-range_intro _ 0 (size t) (λ b lo hi. elim (Bool-cases (member b offered)) [
        | inl own ↦ rw (all b (omega arith) own) refl
        | inr other ↦ ground (arith, member-scored t offered b (omega arith))
      ]),
)

sum_balance :
    (f g : ℕ → ℕ) (bs : List ℕ)
    → sum_by g bs + sum_by (λ b. f b - g b) bs ≡ sum_by f bs + sum_by (λ b. g b - f b) bs
sum_balance f g [] = refl
sum_balance f g (b ∷ bs) = omega (arith, sum_balance f g bs)

-- Loss and duplication are counted apart and nothing is lost between them: the rows found and the
-- rows missing are together the rows expected and the rows in surplus.
pub rows-balance :
    (t : BatchTally) (offered : List ℕ) (e : Exactness)
    → exactness_result t offered ≡ ok e
    → e.rows + e.loss_rows ≡ e.expected_rows + e.duplicate_rows
unfolding summarize
rows-balance t offered e h =
    let (fine, same) = exactness_result-ok t offered e h in
    rw (← same)
      (sum_balance (expected_of t) (count_of t) (keep (λ b. member b offered) (range 0 (size t))))
