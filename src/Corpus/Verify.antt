-- ===== src/Corpus/Verify.antt =====
-- `verify_batch` of ingest_bench/corpus/generate.py. The digest, the decompression, the Avro decoder of
-- the published schema, the decoding of characters and `int` of a label's digits are parameters.
pub mod Checksum
pub mod Truth
use text.Mathlib.Text.{◌==◌ as str_eq}
use lakehouse_ingest_bench.Prelude.Int.{ℤ, pos, negsuc, pos_part, eq_ℤ}
use lakehouse_ingest_bench.Result.{from_some, Result, ok, err, ◌>>=◌, ◌>>◌, expect}
use lakehouse_ingest_bench.Prelude.{
  ℕ, zero, suc, ◌+◌, ◌%◌, String, Bool, false, ◌&&◌, ◌||◌, Option, none, some, List, [], ◌∷◌, ◌==◌,
  if◌then◌else◌, length, drop, every,
}
use lakehouse_ingest_bench.Prelude.Strings.{codes}
use lakehouse_ingest_bench.Corpus.Batch.{BatchRecord, checksum_modulus}
use lakehouse_ingest_bench.Corpus.Frames.{Bytes, Stream, done, raised, yields, iter_frames}

-- A decoded row: its id, its partition's label, and its columns as `str` writes them.
pub record DecodedRow : Type 0 where
  pub id : ℤ
  pub partition_key : String
  pub text_of : String → Option String

-- The library calls.
pub record Codecs : Type 0 where
  pub sha256_hex : Bytes → String
  pub decompress : Bytes → Result Bytes
  pub decode_row : Bytes → Result DecodedRow
  pub decode_text : Bytes → Result String
  pub key_number : List ℕ → Result ℤ

-- The variables of the loop over the rows.
pub record Progress : Type 0 where
  pub expected_id : ℕ
  pub total : ℕ
  pub counts : List (ℤ × ℕ)
  pub decoded : ℕ

-- counts[key] = counts.get(key, 0) + 1
unfoldable pub count_key : ℤ → List (ℤ × ℕ) → List (ℤ × ℕ)
count_key key [] = (key, 1) ∷ []
count_key key ((k, n) ∷ counts) =
    let rest = count_key key counts in if eq_ℤ k key then (k, suc n) ∷ counts else (k, n) ∷ rest

unfoldable pub key_count : ℤ → List (ℤ × ℕ) → ℕ
key_count key [] = 0
key_count key ((k, n) ∷ counts) = if eq_ℤ k key then n else key_count key counts

-- counts == others, for dictionaries of numbers that are not zero
unfoldable pub same_counts : List (ℤ × ℕ) → List (ℤ × ℕ) → Bool
unfolding key_count
same_counts counts others =
    length counts == length others && every (λ entry. key_count entry.0 others == entry.1) counts

abbrev pub is_id : ℤ → ℕ → Bool
is_id (pos n) expected = n == expected
is_id (negsuc n) expected = false

abbrev pub frame_at : ℕ → List Bytes → Option Bytes
frame_at i [] = none
frame_at zero (frame ∷ framed) = some frame
frame_at (suc i) (frame ∷ framed) = frame_at i framed

-- list(frames.iter_frames(…))
unfoldable pub listed : Stream Bytes → Result (List Bytes)
listed done = ok []
listed (raised e) = err e
listed (yields frame rest) = do others ← listed rest; ok (frame ∷ others)

module _ (codecs : Codecs) where
  open codecs use {sha256_hex, decompress, decode_row, decode_text, key_number}

  unfoldable pub key_frames_of : List (String × Bytes) → Result (List (String × List Bytes))
  unfolding listed
  key_frames_of [] = ok []
  key_frames_of ((name, blob) ∷ key_data) = do
    stored ← decompress blob
    framed ← listed (iter_frames stored)
    others ← key_frames_of key_data
    ok ((name, framed) ∷ others)

  unfoldable pub sidecars_agree : ℕ → DecodedRow → List (String × List Bytes) → Result (Unit {0})
  sidecars_agree decoded row [] = ok tt
  sidecars_agree decoded row ((name, framed) ∷ key_frames) = do
    frame ← from_some (frame_at decoded framed)
    text ← decode_text frame
    value ← from_some (row.text_of name)
    expect (str_eq text value)
    sidecars_agree decoded row key_frames

  unfoldable pub verify_row : List (String × List Bytes) → DecodedRow → Progress → Result Progress
  unfolding count_key sidecars_agree
  verify_row key_frames row s = do
    expect (is_id row.id s.expected_id)
    key ← key_number (drop 1 (codes row.partition_key))
    sidecars_agree s.decoded row key_frames
    ok (record {
      expected_id = suc s.expected_id;
      total = (s.total + pos_part row.id) % checksum_modulus;
      counts = count_key key s.counts;
      decoded = suc s.decoded;
    })

  unfoldable pub verify_rows :
      List (String × List Bytes) → Stream Bytes → Progress → Result Progress
  unfolding verify_row
  verify_rows key_frames done s = ok s
  verify_rows key_frames (raised e) s = err e
  verify_rows key_frames (yields frame rest) s = do
    row ← decode_row frame
    next ← verify_row key_frames row s
    verify_rows key_frames rest next

  unfoldable pub verify_batch :
      BatchRecord → Bytes → List (String × Bytes) → List (ℤ × ℕ) → Result (Unit {0})
  unfolding key_frames_of verify_rows same_counts
  verify_batch batch blob key_data fill_partition_counts = do
    expect (str_eq (sha256_hex blob) batch.sha256)
    key_frames ← key_frames_of key_data
    expect (every (λ entry. length entry.1 == batch.rows) key_frames)
    stored ← decompress blob
    s ←
        verify_rows key_frames (iter_frames stored)
          (record { expected_id = batch.id_min; total = 0; counts = []; decoded = 0 })
    expect (s.decoded == batch.rows && s.expected_id == batch.id_max + 1)
    expect (s.total == batch.checksum)
    expect (length fill_partition_counts == 0 || same_counts s.counts fill_partition_counts)
