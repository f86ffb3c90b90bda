-- ===== src/Scorer/Tally/Adding.antt =====
-- What `add_ids` counts: the refinement of the chunked, float-backed sums by sums over the ids.
use native.Mathlib.Nat.{add-zero, mod-eq_of_lt, zero-add, add-mod-mod, mod-lt}
use lakehouse_ingest_bench.Prelude.Int.{ℤ, pos, negsuc}
use lakehouse_ingest_bench.Result.{ok}
use lakehouse_ingest_bench.Prelude.{
  ℕ, zero, suc, ◌+◌, ◌/◌, ◌%◌, ◌^◌, ◌≤◌, ◌<◌, ◌≡◌, refl, sym, ap, ◌∙◌, inl, inr, false, ◌&&◌, List,
  [], ◌∷◌, map, arith, ltb, ◌==◌, if◌then◌else◌, Bool-cases, length, get_or, any, sum_by, All,
}
use lakehouse_ingest_bench.Corpus.Batch.{id_block}
use lakehouse_ingest_bench.Scorer.Tally.Entries.{IsRow, Added, add_chunks-Added}
use lakehouse_ingest_bench.Scorer.Tally.{
  Row, occurrences, weight, Bincount, BatchTally, size, advance, covered, outside, row_of,
  chunk_rows, add_chunks, add_ids, ℤ,
}

-- The ids of batch `b`, counted and added up.
abbrev pub one_of : ℕ → ℤ → ℕ
one_of b (pos id) = if id / id_block == b then 1 else 0
one_of b (negsuc _) = 0

abbrev pub id_of : ℕ → ℤ → ℕ
id_of b (pos id) = if id / id_block == b then id else 0
id_of b (negsuc _) = 0

-- The shape that `init` gives a tally and every operation keeps.
pub record IsTally (t : BatchTally) : Type 0 where
  pub modulus : 0 < t.p
  pub small_modulus : t.p ≤ 2 ^ 31
  pub rows_length : length t.expected_rows ≡ size t
  pub sums_length : length t.sum_mod ≡ size t
  pub reduced : (b : ℕ) → get_or t.sum_mod b 0 < t.p
  pub within : t.watermark ≤ size t
  pub below : (b : ℕ) → b < t.watermark → get_or t.expected_rows b 0 ≤ get_or t.counts b 0

-- `t'` is `t` with every id of `ids` counted once, in its own batch.
pub record Counts (t : BatchTally) (ids : List ℤ) (t' : BatchTally) : Type 0 where
  pub same_p : t'.p ≡ t.p
  pub same_rows : t'.expected_rows ≡ t.expected_rows
  pub same_checksum : t'.expected_checksum ≡ t.expected_checksum
  pub same_size : size t' ≡ size t
  pub counts_at : (b : ℕ) → get_or t'.counts b 0 ≡ get_or t.counts b 0 + sum_by (one_of b) ids
  pub sums_at :
      (b : ℕ) → get_or t'.sum_mod b 0 ≡ (get_or t.sum_mod b 0 + sum_by (id_of b) ids) % t.p

All-row_of :
    (t : BatchTally) (ids : List ℤ)
    → 0 < t.p
    → any (outside (size t)) ids ≡ false
    → All (IsRow (size t) t.p) (map (row_of t.p) ids)
All-row_of t [] p_pos h = tt
All-row_of t (pos id ∷ ids) p_pos h =
    ((ground arith, mod-lt id p_pos), All-row_of t ids p_pos (ground arith))
All-row_of t (negsuc id ∷ ids) p_pos h = absurd (cc h)

occurrences-row_of :
    (n p b : ℕ) (ids : List ℤ)
    → any (outside n) ids ≡ false
    → occurrences b (map (λ (r : Row). r.batch) (map (row_of p) ids)) ≡ sum_by (one_of b) ids
occurrences-row_of n p b [] h = refl
occurrences-row_of n p b (pos id ∷ ids) h = ground (arith, occurrences-row_of n p b ids)
occurrences-row_of n p b (negsuc id ∷ ids) h = absurd (cc h)

-- A residue may be put in place of its number under a sum that is reduced.
residue_step :
    (p s x w u : ℕ)
    → (s + x % p + w) % p ≡ (s + x % p + u) % p
    → (s + (x % p + w)) % p ≡ (s + (x + u)) % p
residue_step p s x w u h =
    let left : s + (x % p + w) ≡ s + x % p + w = omega arith in
    let middle : s + x % p + u ≡ s + u + x % p = omega arith in
    let right : s + u + x ≡ s + (x + u) = omega arith in
    ap (λ n. n % p) left
    ∙ (h ∙ (ap (λ n. n % p) middle ∙ (add-mod-mod (s + u) x p ∙ ap (λ n. n % p) right)))

weight-row_of :
    (n p b s : ℕ) (ids : List ℤ)
    → any (outside n) ids ≡ false
    → (s + weight b (map (row_of p) ids)) % p ≡ (s + sum_by (id_of b) ids) % p
weight-row_of n p b s [] h = refl
weight-row_of n p b s (pos id ∷ ids) h =
    let rest : any (outside n) ids ≡ false = ground arith in
    elim (Bool-cases (id / id_block == b)) [
      | inl own ↦ rw own (residue_step p s id _ _ (weight-row_of n p b (s + id % p) ids rest))
      | inr other ↦ simp (other, zero-add) (weight-row_of n p b s ids rest)
    ]
weight-row_of n p b s (negsuc id ∷ ids) h = absurd (cc h)

-- The loop over the watermark changes nothing else.
pub advance_lem :
    (turns : ℕ) (t : BatchTally)
    → advance turns t ≡ record t { watermark = (advance turns t).watermark }
unfolding advance
advance_lem zero t = refl
advance_lem (suc turns) t = elim (Bool-cases (ltb t.watermark (size t) && covered t t.watermark)) [
  | inl more ↦ rw more (advance_lem turns (record t { watermark = t.watermark + 1 }))
  | inr stop ↦ rw stop
]

pub add_ids-cons :
    (np : Bincount) (t : BatchTally) (id : ℤ) (ids : List ℤ) {t' : BatchTally}
    → add_ids np t (id ∷ ids) ≡ ok t'
    → (any (outside (size t)) (id ∷ ids) ≡ false)
      × (advance
            (size t)
            (add_chunks np chunk_rows (length (id ∷ ids)) t (map (row_of t.p) (id ∷ ids)))
          ≡ t')
unfolding add_ids
add_ids-cons np t id ids h = elim (Bool-cases (any (outside (size t)) (id ∷ ids))) [
  | inl bad ↦ absurd (cc (rw bad at h))
  | inr fine ↦ (fine, cc (rw fine at h))
]

length-row_of : (p : ℕ) (ids : List ℤ) → length (map (row_of p) ids) ≡ length ids
length-row_of p [] = refl
length-row_of p (id ∷ ids) = ap suc (length-row_of p ids)

pub chunks-Added :
    (np : Bincount) (t : BatchTally) (ids : List ℤ)
    → IsTally t
    → any (outside (size t)) ids ≡ false
    → Added t
        (map (row_of t.p) ids)
        (add_chunks np chunk_rows (length ids) t (map (row_of t.p) ids))
chunks-Added np t ids w fine =
    add_chunks-Added np chunk_rows (omega arith) (length ids) t (map (row_of t.p) ids)
      (omega (arith, length-row_of t.p ids)) (omega (arith, w.small_modulus)) w.modulus
      w.sums_length w.reduced (All-row_of t ids w.modulus fine)

-- If `add_ids` accepts an array, every id of it is counted exactly once, in the batch of its high
-- bits, and each checksum is the sum of the ids of its batch modulo `p`: neither the chunks nor the
-- float64 sums of the weighted bins lose anything. The tally's shape and a modulus of at most
-- 2 ** 31 are assumed.
pub add_ids-Counts :
    (np : Bincount) (t t' : BatchTally) (ids : List ℤ)
    → IsTally t
    → add_ids np t ids ≡ ok t'
    → Counts t ids t'
add_ids-Counts np t t' [] w h =
    let e : t ≡ t' = unfold add_ids in cc h in
    rw (← e) (record {
      same_p = refl;
      same_rows = refl;
      same_checksum = refl;
      same_size = refl;
      counts_at = λ b. omega arith;
      sums_at = λ b. sym (rw add-zero (mod-eq_of_lt (w.reduced b)));
    })
add_ids-Counts np t t' (id ∷ ids) w h =
    let (fine, e) = add_ids-cons np t id ids h in
    let added = chunks-Added np t (id ∷ ids) w fine in
    rw (← e) (
      rw advance_lem (record {
        same_p = added.same_p;
        same_rows = added.same_rows;
        same_checksum = added.same_checksum;
        same_size = added.counts_length;
        counts_at = λ b.
            added.counts_at b
            ∙ ap (λ n. get_or t.counts b 0 + n) (occurrences-row_of (size t) t.p b (id ∷ ids) fine);
        sums_at = λ b.
            added.sums_at b ∙ weight-row_of (size t) t.p b (get_or t.sum_mod b 0) (id ∷ ids) fine;
      }))
