-- ===== src/Corpus/Merge/Sums.antt =====
-- The sums of the partitions over shards.
use text.Mathlib.TextEquality.{eq_iff}
use text.Mathlib.Text.{◌==◌ as str_eq}
use lakehouse_ingest_bench.Result.{Ensures, returned, ◌⊳◌, refuse, Ensures-implies, returns_it}
use lakehouse_ingest_bench.Prelude.{
  ◌+◌, ◌%◌, ◌<◌, String, ◌≡◌, refl, inl, inr, true, not, some, List, [], ◌∷◌, arith, Bool-cases,
  sum_by,
}
use lakehouse_ingest_bench.Prelude.Strings.{among, lookup}
use lakehouse_ingest_bench.Corpus.Batch.{checksum_modulus}
use lakehouse_ingest_bench.Corpus.Merge.{
  TruthEntry, same_labels, added, entry_at, add_shard, add_truths, no_rows, sum_partition_truth,
}

abbrev pub Truth : Type 0
Truth = List (String × TruthEntry)

-- The totals of a label, and what the shards add to them.
abbrev pub Adds : String → List Truth → TruthEntry → TruthEntry → Type 0
Adds label shards total entry =
    (entry.rows ≡ total.rows + sum_by (λ shard. (entry_at label shard).rows) shards)
    × (entry.encoded_bytes
        ≡ total.encoded_bytes + sum_by (λ shard. (entry_at label shard).encoded_bytes) shards)
    × (entry.sum_mod
        ≡ (total.sum_mod + sum_by (λ shard. (entry_at label shard).sum_mod) shards)
          % checksum_modulus)

lookup-add_shard :
    (label : String) (shard totals : Truth) (total : TruthEntry)
    → lookup label totals ≡ some total
    → lookup label (add_shard shard totals) ≡ some (added total (entry_at label shard))
unfolding add_shard
lookup-add_shard label shard [] total h = absurd (cc h)
lookup-add_shard label shard ((k, t) ∷ totals) total h = elim (Bool-cases (str_eq k label)) [
  | inl same ↦
      let e : k ≡ label = (eq_iff k label).0 same in
      let first : t ≡ total = cc (rw same at h) in rw (same, e, first) refl
  | inr other ↦ rw other (lookup-add_shard label shard totals total (rw other at h))
]

lookup-no_rows :
    (label : String) (labels : List String)
    → among label labels ≡ true
    → lookup label (no_rows labels) ≡ some (record { rows = 0; sum_mod = 0; encoded_bytes = 0 })
lookup-no_rows label [] h = absurd (cc h)
lookup-no_rows label (l ∷ labels) h =
    ground (arith, eq_iff label l, eq_iff l label, lookup-no_rows label labels)

add_truths-Adds :
    (label : String) (labels : List String) (shards : List Truth) (totals : Truth)
    (total : TruthEntry)
    → lookup label totals ≡ some total
    → total.sum_mod < checksum_modulus
    → Ensures
        (λ result.
          (entry : TruthEntry) × (lookup label result ≡ some entry) × Adds label shards total entry)
        (add_truths labels shards totals)
unfolding add_truths added
add_truths-Adds label labels [] totals total h less =
    returned (total, h, (omega arith, omega arith, omega arith))
add_truths-Adds label labels (shard ∷ shards) totals total h less =
    returns_it (refuse (not (same_labels shard labels))) ⊳ λ _ _.
    Ensures-implies
      (λ result (entry, at, (r, b, m)). (entry, at, (omega arith, omega arith, omega arith)))
      (add_truths-Adds label labels shards (add_shard shard totals)
        (added total (entry_at label shard)) (lookup-add_shard label shard totals total h)
        (omega arith))

-- A label's totals over the shards, which are not refused: rows and encoded bytes add up, and the checksums
-- add up modulo P.
pub sum_partition_truth-Adds :
    (labels : List String) (shards : List Truth) (label : String)
    → among label labels ≡ true
    → Ensures
        (λ result.
          (entry : TruthEntry) × (lookup label result ≡ some entry)
          × Adds label shards (record { rows = 0; sum_mod = 0; encoded_bytes = 0 }) entry)
        (sum_partition_truth labels shards)
unfolding sum_partition_truth
sum_partition_truth-Adds labels shards label h =
    add_truths-Adds label labels shards (no_rows labels) _ (lookup-no_rows label labels h)
      (omega arith)
