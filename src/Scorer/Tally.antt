-- ===== src/Scorer/Tally.antt =====
-- ingest_bench/scorer/tally.py: the class `BatchTally`. Arrays are lists with an entry for each
-- batch. `watermark` is `_prefix + 1`, the number of leading batches that are covered, so that the
-- source's -1 is 0. `numpy.bincount` is a parameter with its documented results; the reading of
-- Parquet and ORC files is not modelled.
pub mod Entries
pub mod Adding
pub mod Watermark
use lakehouse_ingest_bench.Prelude.{
  ℕ, zero, suc, ◌+◌, ◌/◌, ◌%◌, ◌^◌, ◌<◌, ◌≡◌, Bool, true, false, not, ◌&&◌, ◌||◌, List, [], ◌∷◌,
  map, ltb, leb, ◌==◌, length, get_or, take, drop, replicate, any, range, sum_by, All,
  if◌then◌else◌,
}
use lakehouse_ingest_bench.Prelude.Int.{ℤ, pos, negsuc}
use lakehouse_ingest_bench.Result.{Result, ok, err, value_error}
use lakehouse_ingest_bench.Corpus.Batch.{BatchRecord, id_block}

-- One row as the tally sees it: its batch, and its id modulo `p`.
pub record Row : Type 0 where
  pub batch : ℕ
  pub residue : ℕ

-- How often `b` stands in an array, and the weights of the rows of batch `b`.
abbrev pub occurrences : ℕ → List ℕ → ℕ
occurrences b = sum_by (λ n. if n == b then 1 else 0)

abbrev pub weight : ℕ → List Row → ℕ
weight b = sum_by (λ r. if r.batch == b then r.residue else 0)

-- `numpy.bincount`, plain and with float64 weights cast back to int64. A weighted bin is exact
-- while the weights stay below 2 ** 53.
pub record Bincount : Type 0 where
  pub count : ℕ → List ℕ → List ℕ
  pub count_weights : ℕ → List Row → List ℕ
  pub length_count :
      (size : ℕ) (xs : List ℕ) → All (λ x. x < size) xs → length (count size xs) ≡ size
  pub count_entry :
      (size : ℕ) (xs : List ℕ) (b : ℕ)
      → All (λ x. x < size) xs
      → get_or (count size xs) b 0 ≡ occurrences b xs
  pub length_weights :
      (size : ℕ) (rows : List Row)
      → All (λ r. r.batch < size) rows
      → length (count_weights size rows) ≡ size
  pub weights_entry :
      (size : ℕ) (rows : List Row) (b : ℕ)
      → All (λ r. r.batch < size) rows
      → sum_by (λ r. r.residue) rows < 2 ^ 53
      → get_or (count_weights size rows) b 0 ≡ weight b rows

-- a + b for two arrays of one shape
abbrev pub add_arrays : List ℕ → List ℕ → List ℕ
add_arrays (x ∷ xs) (y ∷ ys) = (x + y) ∷ add_arrays xs ys
add_arrays _ _ = []

pub record BatchTally : Type 0 where
  pub p : ℕ
  pub records : List BatchRecord
  pub expected_rows : List ℕ
  pub expected_checksum : List ℕ
  pub counts : List ℕ
  pub sum_mod : List ℕ
  pub watermark : ℕ

abbrev pub size : BatchTally → ℕ
size t = length t.counts

abbrev pub same_numbers : List ℕ → List ℕ → Bool
same_numbers [] [] = true
same_numbers (x ∷ xs) (y ∷ ys) = x == y && same_numbers xs ys
same_numbers _ _ = false

unfoldable pub init : List BatchRecord → ℕ → Result BatchTally
init records p =
    let held = map (λ r. r.batch) records in
    if same_numbers held (range 0 (length records))
    then ok (record {
      p = p;
      records = records;
      expected_rows = map (λ r. r.rows) records;
      expected_checksum = map (λ r. r.checksum) records;
      counts = replicate (length records) 0;
      sum_mod = replicate (length records) 0;
      watermark = 0;
    })
    else err value_error

unfoldable pub covered : BatchTally → ℕ → Bool
covered t batch = leb (get_or t.expected_rows batch 0) (get_or t.counts batch 0)

unfoldable pub complete : BatchTally → ℕ → Bool
complete t batch =
    get_or t.counts batch 0 == get_or t.expected_rows batch 0
    && get_or t.sum_mod batch 0 == get_or t.expected_checksum batch 0

-- The `while` at the end of `add_ids`. Each turn covers one more batch, so `size` turns suffice.
unfoldable pub advance : ℕ → BatchTally → BatchTally
advance zero t = t
advance (suc turns) t =
    let further = advance turns (record t { watermark = t.watermark + 1 }) in
    if ltb t.watermark (size t) && covered t t.watermark then further else t

-- `ids // ID_BLOCK` lies outside the manifest.
abbrev pub outside : ℕ → ℤ → Bool
outside batches (pos id) = leb batches (id / id_block)
outside batches (negsuc _) = true

abbrev pub row_of : ℕ → ℤ → Row
row_of p (pos id) = record { batch = id / id_block; residue = id % p }
row_of p (negsuc _) = record { batch = 0; residue = 0 }

abbrev pub chunk_rows : ℕ
chunk_rows = 4_000_000

module _ (np : Bincount) where
  unfoldable pub add_chunk : BatchTally → List Row → BatchTally
  add_chunk t chunk = record t {
    counts = add_arrays t.counts (np.count (size t) (map (λ r. r.batch) chunk));
    sum_mod = map (λ n. n % t.p) (add_arrays t.sum_mod (np.count_weights (size t) chunk));
  }

  -- for start in range(0, flat.size, width): a chunk holds a row at least.
  unfoldable pub add_chunks : ℕ → ℕ → BatchTally → List Row → BatchTally
  add_chunks width zero t rows = t
  add_chunks width (suc turns) t [] = t
  add_chunks width (suc turns) t (r ∷ rows) =
      add_chunks width turns (add_chunk t (take width (r ∷ rows))) (drop width (r ∷ rows))

  unfoldable pub add_ids : BatchTally → List ℤ → Result BatchTally
  unfolding advance covered add_chunks add_chunk
  add_ids t [] = ok t
  add_ids t (id ∷ ids) =
      if any (outside (size t)) (id ∷ ids)
      then err value_error
      else ok (
          advance (size t)
            (add_chunks chunk_rows (length (id ∷ ids)) t (map (row_of t.p) (id ∷ ids))))

unfoldable pub committed_rows : BatchTally → ℕ
committed_rows t = sum_by (λ n. n) t.counts

pub data Kind : Type 0 where
  loss duplication corruption : Kind

pub record Violation : Type 0 where
  pub batch : ℕ
  pub expected_rows : ℕ
  pub rows : ℕ
  pub expected_checksum : ℕ
  pub checksum : ℕ
  pub kind : Kind

abbrev pub kind_of : ℕ → ℕ → Kind
kind_of rows expected =
    if ltb rows expected then loss else if ltb expected rows then duplication else corruption

-- An entry of `_mismatched`.
unfoldable pub mismatched : BatchTally → ℕ → Bool
mismatched t batch =
    not (get_or t.counts batch 0 == get_or t.expected_rows batch 0)
    || not (get_or t.sum_mod batch 0 == get_or t.expected_checksum batch 0)

-- The loop of `violations` over the batches that `_mismatched` marks.
unfoldable pub violations_from : BatchTally → Bool → List ℕ → List Violation
unfolding mismatched
violations_from t include_missing [] = []
violations_from t include_missing (batch ∷ batches) =
    let rows = get_or t.counts batch 0 in
    let expected = get_or t.expected_rows batch 0 in
    let found = violations_from t include_missing batches in
    if not (mismatched t batch)
    then found
    else if rows == 0 && not include_missing
    then found
    else record {
      batch = batch;
      expected_rows = expected;
      rows = rows;
      expected_checksum = get_or t.expected_checksum batch 0;
      checksum = get_or t.sum_mod batch 0;
      kind = kind_of rows expected;
    }
      ∷ found

unfoldable pub violations : BatchTally → Bool → List Violation
unfolding violations_from
violations t include_missing = violations_from t include_missing (range 0 (size t))
