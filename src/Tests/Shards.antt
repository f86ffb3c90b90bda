-- ===== src/Tests/Shards.antt =====
-- A batch of three rows, and a corpus of two shards.
use text.Mathlib.Text.{◌==◌ as str_eq}
use lakehouse_ingest_bench.Prelude.Int.{pos}
use lakehouse_ingest_bench.Result.{value_error, Result, ok, err, Ensures}
use lakehouse_ingest_bench.Prelude.{
  ℕ, ◌+◌, ◌*◌, ◌%◌, String, ◌≡◌, refl, inr, none, some, List, [], ◌∷◌, ◌++◌, map, if◌then◌else◌,
}
use lakehouse_ingest_bench.Corpus.Batch.{BatchRecord, id_block}
use lakehouse_ingest_bench.Corpus.Frames.{Bytes, unpack, iter_step, iter_from, iter_frames}
use lakehouse_ingest_bench.Corpus.Verify.{
  DecodedRow, Codecs, count_key, key_count, same_counts, listed, key_frames_of, sidecars_agree,
  verify_row, verify_rows, verify_batch,
}
use lakehouse_ingest_bench.Corpus.Verify.Truth.{IsVerified, verify_batch-IsVerified}
use lakehouse_ingest_bench.Corpus.Merge.{
  Shard, TruthEntry, agreed_keys, merged_records, sum_partition_truth,
}
use lakehouse_ingest_bench.Corpus.Merge.Order.{IsManifest, merged_records-IsManifest}
use lakehouse_ingest_bench.Corpus.Merge.Sums.{Adds, sum_partition_truth-Adds}
use lakehouse_ingest_bench.Prelude.Strings.{lookup, codes}

abbrev row_bytes : ℕ → Bytes
row_bytes n = n ∷ 0 ∷ 0 ∷ []

abbrev decoded_row : Bytes → Result DecodedRow
decoded_row (n ∷ rest) = ok (record {
  id = pos (id_block + n);
  partition_key = "k7";
  text_of = λ name. if str_eq name "entity" then some "e" else none;
})
decoded_row [] = err value_error

abbrev codecs_example : Codecs
codecs_example = record {
  sha256_hex = λ blob. "digest";
  decompress = ok;
  decode_row = decoded_row;
  decode_text = λ frame. ok "e";
  key_number = λ digits. ok (pos 7);
}

abbrev batch_at : ℕ → String → BatchRecord
batch_at n uri = record {
  batch = n;
  offset_ms = 1_000 * n;
  rows = 3;
  id_min = id_block * n;
  id_max = id_block * n + 2;
  checksum = (3 * (id_block * n) + 3) % 1_000_000_007;
  encoded_bytes = 9;
  stored_bytes = 21;
  sha256 = "digest";
  uri = uri;
  key_uris = ("entity", "k") ∷ [];
}

abbrev batch_example : BatchRecord
batch_example = batch_at 1 "batches/1"

abbrev blob_example : Bytes
blob_example =
    3 ∷ 0 ∷ 0 ∷ 0 ∷ row_bytes 0 ++ (3 ∷ 0 ∷ 0 ∷ 0 ∷ row_bytes 1) ++ (3 ∷ 0 ∷ 0 ∷ 0 ∷ row_bytes 2)

abbrev sidecar_example : Bytes
sidecar_example = 1 ∷ 0 ∷ 0 ∷ 0 ∷ 5 ∷ 1 ∷ 0 ∷ 0 ∷ 0 ∷ 5 ∷ 1 ∷ 0 ∷ 0 ∷ 0 ∷ 5 ∷ []

batch-verified :
    verify_batch codecs_example batch_example blob_example
      (("entity", sidecar_example) ∷ [])
      ((pos 7, 3) ∷ [])
    ≡ ok tt
unfolding count_key key_count same_counts listed key_frames_of sidecars_agree verify_row verify_rows
    verify_batch unpack iter_step iter_from iter_frames
batch-verified = refl

verify_batch-IsVerified_example :
    Ensures
      (λ _. IsVerified codecs_example batch_example blob_example)
      (verify_batch codecs_example batch_example blob_example
        (("entity", sidecar_example) ∷ [])
        ((pos 7, 3) ∷ []))
verify_batch-IsVerified_example =
    verify_batch-IsVerified codecs_example batch_example blob_example
      (("entity", sidecar_example) ∷ []) ((pos 7, 3) ∷ [])

abbrev agreed_example : List (String × String)
agreed_example = map (λ key. (key, "1")) agreed_keys

abbrev entry_example : ℕ → TruthEntry
entry_example n = record { rows = n; sum_mod = 1_000_000_000 + n; encoded_bytes = 3 * n }

abbrev truth_example : List (String × TruthEntry)
truth_example = ("k0", entry_example 1) ∷ ("k1", entry_example 2) ∷ []

abbrev shards_example : List Shard
shards_example =
    record {
      uri = "s3://c/shards/1";
      meta = record { agreed = agreed_example; shard_index = 1; shard_count = 2 };
      manifest = batch_at 1 "batches/1" ∷ [];
      truth = truth_example;
    }
    ∷ record {
      uri = "s3://c/shards/0";
      meta = record { agreed = agreed_example; shard_index = 0; shard_count = 2 };
      manifest = batch_at 0 "batches/0" ∷ batch_at 2 "batches/2" ∷ [];
      truth = truth_example;
    }
    ∷ []

merged_records-IsManifest_example :
    Ensures (IsManifest shards_example 3) (merged_records shards_example 3)
merged_records-IsManifest_example = merged_records-IsManifest shards_example 3 (
  inr (codes "s3", [], b'c', codes "/shards/1", refl, refl),
  (inr (codes "s3", [], b'c', codes "/shards/0", refl, refl), tt),
)

sum_partition_truth-Adds_example :
    Ensures
      (λ result.
        (entry : TruthEntry) × (lookup "k1" result ≡ some entry)
        × Adds "k1"
            (truth_example ∷ truth_example ∷ [])
            (record { rows = 0; sum_mod = 0; encoded_bytes = 0 })
            entry)
      (sum_partition_truth ("k0" ∷ "k1" ∷ []) (truth_example ∷ truth_example ∷ []))
sum_partition_truth-Adds_example =
    sum_partition_truth-Adds ("k0" ∷ "k1" ∷ []) (truth_example ∷ truth_example ∷ []) "k1" refl
