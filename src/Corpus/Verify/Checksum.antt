-- ===== src/Corpus/Verify/Checksum.antt =====
-- The checksum of consecutive ids.
use lakehouse_ingest_bench.Prelude.{ℕ, zero, suc, ◌+◌, ◌*◌, ◌/◌, ◌%◌, ◌≡◌, ap, arith, sum_by, range}
use lakehouse_ingest_bench.Corpus.Batch.{closed_form_checksum, checksum_modulus}

twice-sum : (first n : ℕ) → 2 * sum_by (λ i. i) (range first n) + n ≡ (2 * first + n) * n
twice-sum first zero = omega arith
twice-sum first (suc n) = let rest = twice-sum (suc first) n in grind arith

-- The sum of the ids, modulo the checksums' modulus, is the closed form from the first and the last id.
pub sum-closed_form :
    (first last n : ℕ)
    → first + n ≡ last + 1
    → sum_by (λ i. i) (range first n) % checksum_modulus ≡ closed_form_checksum first last n
unfolding closed_form_checksum
sum-closed_form first last n h =
    let twice = twice-sum first n in
    let ends : first + last + 1 ≡ 2 * first + n = omega arith in
    let product : (first + last + 1) * n ≡ (2 * first + n) * n = ap (λ k. k * n) ends in
    let sum : (first + last) * n ≡ 2 * sum_by (λ i. i) (range first n) = grind arith in
    let half : sum_by (λ i. i) (range first n) ≡ (first + last) * n / 2 = rw sum (omega arith) in
    ap (λ k. k % checksum_modulus) half
