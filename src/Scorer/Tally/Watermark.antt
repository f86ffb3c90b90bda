-- ===== src/Scorer/Tally/Watermark.antt =====
-- The coverage watermark, and the shape that `add_ids` keeps.
use native.Mathlib.Nat.{mod-lt}
use lakehouse_ingest_bench.Prelude.Int.{ℤ}
use lakehouse_ingest_bench.Result.{ok}
use lakehouse_ingest_bench.Prelude.{
  ℕ, zero, suc, ◌+◌, ◌^◌, ◌≤◌, ◌<◌, ◌≡◌, refl, sym, ap, ◌∙◌, ◌⊎◌, inl, inr, true, List, [], ◌∷◌,
  map, arith, ltb, ◌==◌, ==_iff, Bool-cases, length, get_or, replicate, length-replicate, range,
}
use lakehouse_ingest_bench.Corpus.Batch.{BatchRecord}
use lakehouse_ingest_bench.Scorer.Tally.Entries.{Added}
use lakehouse_ingest_bench.Scorer.Tally.Adding.{
  IsTally, Counts, advance_lem, add_ids-cons, chunks-Added, add_ids-Counts,
}
use lakehouse_ingest_bench.Scorer.Tally.{
  same_numbers, Bincount, BatchTally, size, init, advance, covered, row_of, chunk_rows, add_chunks,
  add_ids,
}

-- Every batch below the watermark holds the rows that are expected of it.
abbrev pub IsCovered : BatchTally → ℕ → Type 0
IsCovered t n = (b : ℕ) → b < n → get_or t.expected_rows b 0 ≤ get_or t.counts b 0

-- The loop stops at the end, or in front of a batch that is not covered.
abbrev pub Stops : BatchTally → Type 0
Stops t =
    (t.watermark ≡ size t) ⊎ (get_or t.counts t.watermark 0 < get_or t.expected_rows t.watermark 0)

IsCovered-suc : (t : BatchTally) (n : ℕ) → IsCovered t n → covered t n ≡ true → IsCovered t (n + 1)
unfolding covered
IsCovered-suc t n below h b b_lt = elim (Bool-cases (b == n)) [
  | inl same ↦ let e : b ≡ n = (==_iff b n).0 same in rw e (ground arith)
  | inr other ↦ below b (ground arith)
]

pub advance-Stops :
    (turns : ℕ) (t : BatchTally)
    → t.watermark ≤ size t
    → size t ≤ t.watermark + turns
    → IsCovered t t.watermark
    → (t.watermark ≤ (advance turns t).watermark)
      × ((advance turns t).watermark ≤ size t)
      × IsCovered t (advance turns t).watermark
      × Stops (advance turns t)
unfolding advance
advance-Stops zero t within enough below = (omega arith, within, below, inl (omega arith))
advance-Stops (suc turns) t within enough below = elim (Bool-cases (ltb t.watermark (size t))) [
  | inl inside ↦ elim (Bool-cases (covered t t.watermark)) [
    | inl more ↦
        let (grows, ends, has, stops) =
          advance-Stops turns (record t { watermark = t.watermark + 1 }) (ground arith)
            (omega arith) (IsCovered-suc t t.watermark below more) in
        rw (inside, more) (omega arith, ends, has, stops)
    | inr short ↦
        rw (inside, short) (omega arith, within, below, inr (unfold covered in ground arith))
  ]
  | inr ended ↦ rw ended (omega arith, within, below, inl (ground arith))
]

-- What holds of the watermark after rows have been added to `t`.
pub record IsAdvanced (t t' : BatchTally) : Type 0 where
  pub grows : t.watermark ≤ t'.watermark
  pub within : t'.watermark ≤ size t'
  pub below : IsCovered t' t'.watermark
  pub stops : Stops t'

-- After `add_ids` has accepted a non-empty array the watermark has not gone back, every batch below
-- it is covered, and it stands at the end of the manifest or at a batch that is not covered yet.
pub add_ids-IsAdvanced :
    (np : Bincount) (t t' : BatchTally) (id : ℤ) (ids : List ℤ)
    → IsTally t
    → add_ids np t (id ∷ ids) ≡ ok t'
    → IsAdvanced t t'
add_ids-IsAdvanced np t t' id ids w h =
    let (fine, e) = add_ids-cons np t id ids h in
    let u = add_chunks np chunk_rows (length (id ∷ ids)) t (map (row_of t.p) (id ∷ ids)) in
    let added : Added t (map (row_of t.p) (id ∷ ids)) u = chunks-Added np t (id ∷ ids) w fine in
    let (grows, ends, has, stops) =
      advance-Stops (size t) u (omega (arith, w.within, added.same_watermark, added.counts_length))
        (omega (arith, added.same_watermark, added.counts_length))
        (λ b b_lt.
          rw (added.same_rows, added.counts_at b)
            (omega (arith, w.below b (omega (arith, added.same_watermark))))) in
    let same : advance (size t) u ≡ record u { watermark = (advance (size t) u).watermark } =
      advance_lem (size t) u in
    let final : IsAdvanced t (advance (size t) u) = record {
      grows = omega (arith, grows, added.same_watermark);
      within = rw same ends;
      below = rw same has;
      stops = stops;
    } in
    rw (← e) final

Counts-IsTally :
    {t t' : BatchTally} {ids : List ℤ}
    → IsTally t
    → Counts t ids t'
    → length t'.sum_mod ≡ size t'
    → t'.watermark ≤ size t'
    → IsCovered t' t'.watermark
    → IsTally t'
Counts-IsTally {t} {t'} w c sums within below = record {
  modulus = rw c.same_p w.modulus;
  small_modulus = rw c.same_p w.small_modulus;
  rows_length = rw c.same_rows (w.rows_length ∙ sym c.same_size);
  sums_length = sums;
  reduced = λ b. rw (c.sums_at b, c.same_p) (mod-lt _ w.modulus);
  within = within;
  below = below;
}

-- `add_ids` keeps the shape of the tally.
pub add_ids-IsTally :
    (np : Bincount) (t t' : BatchTally) (ids : List ℤ)
    → IsTally t
    → add_ids np t ids ≡ ok t'
    → IsTally t'
add_ids-IsTally np t t' [] w h = let e : t ≡ t' = unfold add_ids in cc h in rw (← e) w
add_ids-IsTally np t t' (id ∷ ids) w h =
    let (fine, e) = add_ids-cons np t id ids h in
    let u = add_chunks np chunk_rows (length (id ∷ ids)) t (map (row_of t.p) (id ∷ ids)) in
    let added : Added t (map (row_of t.p) (id ∷ ids)) u = chunks-Added np t (id ∷ ids) w fine in
    let adv = add_ids-IsAdvanced np t t' id ids w h in
    let sums : length (advance (size t) u).sum_mod ≡ size (advance (size t) u) =
      rw (advance_lem (size t) u) (added.sums_length ∙ sym added.counts_length) in
    Counts-IsTally w (add_ids-Counts np t t' (id ∷ ids) w h) (rw e at sums) adv.within adv.below

replicate-zero : (n b : ℕ) → get_or (replicate n 0) b 0 ≡ zero
replicate-zero zero b = refl
replicate-zero (suc n) zero = refl
replicate-zero (suc n) (suc b) = replicate-zero n b

length-map_rows : (records : List BatchRecord) → length (map (λ r. r.rows) records) ≡ length records
length-map_rows [] = refl
length-map_rows (r ∷ records) = ap suc (length-map_rows records)

-- A new tally has that shape, for a modulus of 1 to 2 ** 31.
pub init-IsTally :
    (records : List BatchRecord) (p : ℕ) (t : BatchTally)
    → 0 < p
    → p ≤ 2 ^ 31
    → init records p ≡ ok t
    → IsTally t
unfolding init
init-IsTally records p t pos_p small h =
    elim (Bool-cases (same_numbers (map (λ r. r.batch) records) (range 0 (length records)))) [
      | inr other ↦ absurd (cc (rw other at h))
      | inl same ↦
          let e : (record {
            p = p;
            records = records;
            expected_rows = map (λ (r : BatchRecord). r.rows) records;
            expected_checksum = map (λ (r : BatchRecord). r.checksum) records;
            counts = replicate (length records) 0;
            sum_mod = replicate (length records) 0;
            watermark = 0;
          })
              ≡ t =
            cc (rw same at h) in
          rw (← e) (record {
            modulus = pos_p;
            small_modulus = small;
            rows_length = length-map_rows records ∙ sym (length-replicate (length records) 0);
            sums_length = refl;
            reduced = λ b. rw (replicate-zero (length records) b) pos_p;
            within = omega arith;
            below = λ b lt. absurd (omega arith);
          })
    ]
