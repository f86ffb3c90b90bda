-- ===== src/Corpus/Verify/Truth.antt =====
-- What a verified batch holds.
use text.Mathlib.TextEquality.{eq_iff}
use text.Mathlib.Text.{◌==◌ as str_eq}
use lakehouse_ingest_bench.Prelude.Int.{ℤ, pos, negsuc}
use lakehouse_ingest_bench.Result.{
  ok, Ensures, returned, raises, ◌⊳◌, Ensures-implies, returns_it, holds,
}
use lakehouse_ingest_bench.Prelude.{
  ℕ, suc, ◌+◌, ◌%◌, ◌<◌, String, ◌≡◌, refl, sym, ap, ◌∙◌, subst, true, ◌&&◌, ◌||◌, List, [], ◌∷◌,
  map, arith, ◌==◌, ==_iff, length, drop, every, sum_by, range,
}
use lakehouse_ingest_bench.Corpus.Batch.{BatchRecord, checksum_modulus, closed_form_checksum}
use lakehouse_ingest_bench.Corpus.Frames.{Bytes, Stream, done, raised, yields, iter_frames}
use lakehouse_ingest_bench.Corpus.Verify.{
  DecodedRow, Codecs, Progress, is_id, key_frames_of, verify_row, verify_rows, verify_batch,
  sidecars_agree, same_counts, codes, expect,
}
use lakehouse_ingest_bench.Corpus.Verify.Checksum.{sum-closed_form}

-- A stream of frames hands out the rows, and ends without an error.
pub data Decodes (codecs : Codecs) : Stream Bytes → List DecodedRow → Type 0 where
  ends : Decodes codecs done []
  decodes :
      {frame : Bytes} {row : DecodedRow} {rest : Stream Bytes} {rows : List DecodedRow}
      → codecs.decode_row frame ≡ ok row
      → Decodes codecs rest rows
      → Decodes codecs (yields frame rest) (row ∷ rows)

abbrev pub ids : List DecodedRow → List ℤ
ids rows = map (λ row. row.id) rows

-- What the loop has read from a stream, from one progress to another.
abbrev pub IsRead : Codecs → Stream Bytes → Progress → Progress → Type 0
IsRead codecs frames s t =
    (rows : List DecodedRow) × Decodes codecs frames rows
    × (ids rows ≡ map pos (range s.expected_id (length rows)))
    × (t.expected_id ≡ s.expected_id + length rows)
    × (t.decoded ≡ s.decoded + length rows)
    × (t.total ≡ (s.total + sum_by (λ i. i) (range s.expected_id (length rows))) % checksum_modulus)

-- What a row adds.
abbrev pub IsNext : DecodedRow → Progress → Progress → Type 0
IsNext row s t =
    (row.id ≡ pos s.expected_id)
    × (t.expected_id ≡ suc s.expected_id)
    × (t.decoded ≡ suc s.decoded)
    × (t.total ≡ (s.total + s.expected_id) % checksum_modulus)

is_id-pos : (id : ℤ) (n : ℕ) → is_id id n ≡ true → id ≡ pos n
is_id-pos (pos m) n h = ap pos ((==_iff m n).0 h)
is_id-pos (negsuc m) n h = absurd (cc h)

verify_row-IsNext :
    (codecs : Codecs) (key_frames : List (String × List Bytes)) (row : DecodedRow) (s : Progress)
    → Ensures (IsNext row s) (verify_row codecs key_frames row s)
unfolding verify_row
verify_row-IsNext codecs key_frames row s = holds (is_id row.id s.expected_id) ⊳ λ _ same.
    returns_it (codecs.key_number (drop 1 (codes row.partition_key))) ⊳ λ key _.
    returns_it (sidecars_agree codecs s.decoded row key_frames) ⊳ λ _ _.
    let id = is_id-pos row.id s.expected_id same in returned (id, refl, refl, rw id refl)

IsRead-next :
    (codecs : Codecs) (row : DecodedRow) (frame : Bytes) (rest : Stream Bytes)
    (s next last : Progress)
    → codecs.decode_row frame ≡ ok row
    → IsNext row s next
    → IsRead codecs rest next last
    → IsRead codecs (yields frame rest) s last
IsRead-next codecs row frame rest s next last decoded (id, e, d, t)
      (rows, all, following, e', d', t') =
    let tail = subst (λ first. ids rows ≡ map pos (range first (length rows))) e following in
    let total =
      subst
        (λ first.
          last.total
          ≡ (next.total + sum_by (λ i. i) (range first (length rows))) % checksum_modulus)
        e t' in
    (row ∷ rows, decodes decoded all, rw (id, tail) refl, omega arith, omega arith, omega arith)

verify_rows-IsRead :
    (codecs : Codecs) (key_frames : List (String × List Bytes)) (frames : Stream Bytes)
    (s : Progress)
    → s.total < checksum_modulus
    → Ensures (IsRead codecs frames s) (verify_rows codecs key_frames frames s)
unfolding verify_rows
verify_rows-IsRead codecs key_frames done s h =
    returned ([], ends, refl, omega arith, omega arith, omega arith)
verify_rows-IsRead codecs key_frames (raised e) s h = raises
verify_rows-IsRead codecs key_frames (yields frame rest) s h =
    returns_it (codecs.decode_row frame) ⊳ λ row decoded.
    verify_row-IsNext codecs key_frames row s ⊳ λ next step.
    Ensures-implies
      (λ last others. IsRead-next codecs row frame rest s next last decoded step others)
      (verify_rows-IsRead codecs key_frames rest next (let t = step.3 in omega arith))

-- What a verified batch holds: its bytes have the digest; they are frames of rows whose ids count up
-- from the least to the largest id, as many as the record says; and the checksum is the closed form of them.
abbrev pub IsVerified : Codecs → BatchRecord → Bytes → Type 0
IsVerified codecs batch blob =
    (codecs.sha256_hex blob ≡ batch.sha256)
    × (batch.id_min + batch.rows ≡ batch.id_max + 1)
    × (batch.checksum ≡ sum_by (λ i. i) (range batch.id_min batch.rows) % checksum_modulus)
    × (batch.checksum ≡ closed_form_checksum batch.id_min batch.id_max batch.rows)
    × (stored : Bytes) × (codecs.decompress blob ≡ ok stored)
    × (rows : List DecodedRow) × Decodes codecs (iter_frames stored) rows
    × (ids rows ≡ map pos (range batch.id_min batch.rows))

IsRead-IsVerified :
    (codecs : Codecs) (batch : BatchRecord) (blob stored : Bytes) (s : Progress)
    → str_eq (codecs.sha256_hex blob) batch.sha256 ≡ true
    → codecs.decompress blob ≡ ok stored
    → IsRead codecs
        (iter_frames stored)
        (record { expected_id = batch.id_min; total = 0; counts = []; decoded = 0 })
        s
    → (s.decoded == batch.rows && s.expected_id == batch.id_max + 1) ≡ true
    → (s.total == batch.checksum) ≡ true
    → IsVerified codecs batch blob
IsRead-IsVerified codecs batch blob stored s digest opened (rows, all, counted, e, d, t) bounds
      sum =
    let read : length rows ≡ batch.rows = ground arith in
    let last : batch.id_min + batch.rows ≡ batch.id_max + 1 = ground arith in
    let total = (==_iff s.total batch.checksum).0 sum in
    let summed =
      sym total
      ∙ subst (λ n. s.total ≡ sum_by (λ i. i) (range batch.id_min n) % checksum_modulus) read
          (t ∙ ap (λ k. k % checksum_modulus) (omega arith)) in
    (
      (eq_iff (codecs.sha256_hex blob) batch.sha256).0 digest,
      last,
      summed,
      summed ∙ sum-closed_form batch.id_min batch.id_max batch.rows last,
      stored,
      opened,
      rows,
      all,
      subst (λ n. ids rows ≡ map pos (range batch.id_min n)) read counted,
    )

-- A batch that verification passes has the digest of its record and decodes to rows with consecutive ids
-- from the record's least to its largest, as many as the record counts, and the record's checksum is both the
-- sum of these ids modulo P and the closed form that generation wrote.
pub verify_batch-IsVerified :
    (codecs : Codecs) (batch : BatchRecord) (blob : Bytes) (key_data : List (String × Bytes))
    (fill_partition_counts : List (ℤ × ℕ))
    → Ensures
        (λ _. IsVerified codecs batch blob)
        (verify_batch codecs batch blob key_data fill_partition_counts)
unfolding verify_batch
verify_batch-IsVerified codecs batch blob key_data fill_partition_counts =
    holds (str_eq (codecs.sha256_hex blob) batch.sha256) ⊳ λ _ digest.
    returns_it (key_frames_of codecs key_data) ⊳ λ key_frames _.
    returns_it (expect (every (λ entry. length entry.1 == batch.rows) key_frames)) ⊳ λ _ _.
    returns_it (codecs.decompress blob) ⊳ λ stored opened.
    verify_rows-IsRead codecs key_frames (iter_frames stored)
      (record { expected_id = batch.id_min; total = 0; counts = []; decoded = 0 }) (omega arith)
    ⊳ λ s read. holds (s.decoded == batch.rows && s.expected_id == batch.id_max + 1) ⊳ λ _ bounds.
        holds (s.total == batch.checksum) ⊳ λ _ sum.
        Ensures-implies
          (λ _ _. IsRead-IsVerified codecs batch blob stored s digest opened read bounds sum)
          (returns_it (
            expect
              (length fill_partition_counts == 0 || same_counts s.counts fill_partition_counts)))
