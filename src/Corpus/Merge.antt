-- ===== src/Corpus/Merge.antt =====
-- ingest_bench/corpus/merge.py, and `read_manifest` of ingest_bench/corpus/metadata.py: shards of a
-- corpus put together, and the manifest that is read. The number of batches stands for the preset; the check of the preset's hash, the samples of column statistics and
-- the files written are not modelled.
pub mod Order
pub mod Sums
use text.Mathlib.Text.{◌==◌ as str_eq}
use lakehouse_ingest_bench.Result.{value_error, Result, ok, err, ◌>>=◌, ◌>>◌, refuse}
use lakehouse_ingest_bench.Prelude.{
  ℕ, ◌+◌, ◌%◌, String, Bool, false, not, ◌&&◌, ◌||◌, Option, none, some, List, [], ◌∷◌, ◌++◌, map,
  ◌==◌, if◌then◌else◌, length, every, range,
}
use lakehouse_ingest_bench.Prelude.Strings.{codes, among, begins_with, contains, lookup, has_key}
use lakehouse_ingest_bench.Prelude.Sorting.{sort_by}
use lakehouse_ingest_bench.Corpus.Batch.{BatchRecord, checksum_modulus}
use lakehouse_ingest_bench.Scorer.Tally.{same_numbers}
use lakehouse_ingest_bench.Uri.{join}

-- What merging reads of a shard's `corpus.json`: the values under AGREED_KEYS, and its place.
pub record ShardMeta : Type 0 where
  pub agreed : List (String × String)
  pub shard_index : ℕ
  pub shard_count : ℕ

-- partition_truth.json: an entry for each label.
pub record TruthEntry : Type 0 where
  pub rows : ℕ
  pub sum_mod : ℕ
  pub encoded_bytes : ℕ

pub record Shard : Type 0 where
  pub uri : String
  pub meta : ShardMeta
  pub manifest : List BatchRecord
  pub truth : List (String × TruthEntry)

abbrev pub agreed_keys : List String
agreed_keys =
    "corpus_hash" ∷ "seed" ∷ "generator_version" ∷ "payload_width" ∷ "row_block" ∷ "zstd_level" ∷ []

abbrev pub same_value : Option String → Option String → Bool
same_value (some a) (some b) = str_eq a b
same_value _ _ = false

-- Whether a shard has the first one's values; a missing key raises too.
unfoldable pub agrees : ShardMeta → ShardMeta → Bool
agrees first shard =
    every (λ key. same_value (lookup key shard.agreed) (lookup key first.agreed)) agreed_keys

-- sorted(…) == list(range(n))
abbrev pub fill_range : List ℕ → ℕ → Bool
fill_range numbers n = same_numbers numbers (range 0 n)

unfoldable pub refuse_shards : List ShardMeta → Result (Unit {0})
unfolding agrees
refuse_shards [] = err value_error
refuse_shards (first ∷ shards) = do
  refuse (not (every (agrees first) shards))
  refuse (
      not (
        fill_range (sort_by (λ i. i) (map (λ shard. shard.shard_index) (first ∷ shards)))
          first.shard_count))

abbrev pub placed : String → BatchRecord → BatchRecord
placed base batch = record batch {
  uri = join base (batch.uri ∷ []);
  key_uris = map (λ entry. (entry.0, join base (entry.1 ∷ []))) batch.key_uris;
}

unfoldable pub records_of : List Shard → List BatchRecord
records_of [] = []
records_of (shard ∷ shards) = map (placed shard.uri) shard.manifest ++ records_of shards

unfoldable pub merged_records : List Shard → ℕ → Result (List BatchRecord)
unfolding records_of refuse_shards
merged_records shards batch_count = do
  refuse_shards (map (λ shard. shard.meta) shards)
  let records = sort_by (λ batch. batch.batch) (records_of shards)
  refuse (not (fill_range (map (λ batch. batch.batch) records) batch_count))
  ok records

-- A manifest's reference: an absolute path or URI stays.
abbrev pub is_absolute : String → Bool
is_absolute reference =
    begins_with (codes reference) (codes "/") || contains (codes reference) (codes "://")

unfoldable pub absolute : String → String → String
absolute corpus_uri reference =
    if is_absolute reference then reference else join corpus_uri (reference ∷ [])

abbrev pub resolved : String → BatchRecord → BatchRecord
resolved corpus_uri batch = record batch {
  uri = absolute corpus_uri batch.uri;
  key_uris = map (λ entry. (entry.0, absolute corpus_uri entry.1)) batch.key_uris;
}

unfoldable pub read_manifest : String → ℕ → List BatchRecord → Result (List BatchRecord)
unfolding absolute
read_manifest corpus_uri batch_count lines = do
  let records = sort_by (λ batch. batch.batch) lines
  refuse (not (fill_range (map (λ batch. batch.batch) records) batch_count))
  ok (map (resolved corpus_uri) records)

-- sorted(shard_truth) == sorted(labels), for labels that are there once
abbrev pub same_labels : List (String × TruthEntry) → List String → Bool
same_labels truth labels =
    length truth == length labels
    && every (λ label. has_key label truth) labels
    && every (λ entry. among entry.0 labels) truth

unfoldable pub added : TruthEntry → TruthEntry → TruthEntry
added total entry = record {
  rows = total.rows + entry.rows;
  sum_mod = (total.sum_mod + entry.sum_mod) % checksum_modulus;
  encoded_bytes = total.encoded_bytes + entry.encoded_bytes;
}

abbrev pub entry_at : String → List (String × TruthEntry) → TruthEntry
entry_at label truth = elim (lookup label truth) [
  | none ↦ record { rows = 0; sum_mod = 0; encoded_bytes = 0 }
  | some entry ↦ entry
]

-- The totals of the labels, and with a shard's entries added.
unfoldable pub add_shard :
    List (String × TruthEntry) → List (String × TruthEntry) → List (String × TruthEntry)
unfolding added
add_shard shard [] = []
add_shard shard ((label, total) ∷ totals) =
    (label, added total (entry_at label shard)) ∷ add_shard shard totals

unfoldable pub add_truths :
    List String
    → List (List (String × TruthEntry))
    → List (String × TruthEntry)
    → Result (List (String × TruthEntry))
unfolding add_shard
add_truths labels [] totals = ok totals
add_truths labels (shard ∷ shards) totals = do
  refuse (not (same_labels shard labels))
  add_truths labels shards (add_shard shard totals)

abbrev pub no_rows : List String → List (String × TruthEntry)
no_rows labels = map (λ label. (label, record { rows = 0; sum_mod = 0; encoded_bytes = 0 })) labels

unfoldable pub sum_partition_truth :
    List String → List (List (String × TruthEntry)) → Result (List (String × TruthEntry))
unfolding add_truths
sum_partition_truth labels shards = add_truths labels shards (no_rows labels)
