-- ===== src/Scorer/Tally/Entries.antt =====
-- The entries of the tally's arrays after chunks of rows have been added.
use native.Mathlib.Nat.{add-zero, add_assoc, mod-lt, mod-eq_of_lt, mod-add-mod, add-zero}
use lakehouse_ingest_bench.Prelude.{
  ℕ, zero, suc, ◌+◌, ◌*◌, ◌%◌, ◌^◌, ◌≤◌, ◌<◌, ◌≡◌, refl, sym, ap, ◌∙◌, subst, List, [], ◌∷◌, ◌++◌,
  map, arith, ◌==◌, if◌then◌else◌, length, get_or, take, drop, sum_by, All, take-append-drop,
  length-take, length-drop, sum_by-append,
}
use lakehouse_ingest_bench.Scorer.Tally.{
  Row, occurrences, weight, Bincount, add_arrays, BatchTally, size, add_chunk, add_chunks,
}

pub length-add_arrays :
    (xs ys : List ℕ) → length xs ≡ length ys → length (add_arrays xs ys) ≡ length xs
length-add_arrays [] ys e = refl
length-add_arrays (x ∷ xs) [] e = absurd (omega arith)
length-add_arrays (x ∷ xs) (y ∷ ys) e = omega (arith, length-add_arrays xs ys (omega arith))

pub get_or-add_arrays :
    (xs ys : List ℕ) (b : ℕ)
    → length xs ≡ length ys
    → get_or (add_arrays xs ys) b 0 ≡ get_or xs b 0 + get_or ys b 0
get_or-add_arrays [] [] b e = omega arith
get_or-add_arrays [] (y ∷ ys) b e = absurd (omega arith)
get_or-add_arrays (x ∷ xs) [] b e = absurd (omega arith)
get_or-add_arrays (x ∷ xs) (y ∷ ys) zero e = refl
get_or-add_arrays (x ∷ xs) (y ∷ ys) (suc b) e = get_or-add_arrays xs ys b (omega arith)

abbrev reduce : ℕ → List ℕ → List ℕ
reduce p xs = map (λ n. n % p) xs

length-reduce : (p : ℕ) (xs : List ℕ) → length (reduce p xs) ≡ length xs
length-reduce p [] = refl
length-reduce p (x ∷ xs) = ap suc (length-reduce p xs)

get_or-reduce : (p : ℕ) (xs : List ℕ) (b : ℕ) → get_or (reduce p xs) b 0 ≡ get_or xs b 0 % p
get_or-reduce p [] b = omega arith
get_or-reduce p (x ∷ xs) zero = refl
get_or-reduce p (x ∷ xs) (suc b) = get_or-reduce p xs b

-- Every row lies in the manifest, and its residue is reduced.
abbrev pub IsRow : ℕ → ℕ → Row → Type 0
IsRow batches p r = (r.batch < batches) × (r.residue < p)

All-batches : (n p : ℕ) (rows : List Row) → All (IsRow n p) rows → All (λ r. r.batch < n) rows
All-batches n p [] h = tt
All-batches n p (r ∷ rows) h = (h.0.0, All-batches n p rows h.1)

All-numbers :
    (n p : ℕ) (rows : List Row) → All (IsRow n p) rows → All (λ x. x < n) (map (λ r. r.batch) rows)
All-numbers n p [] h = tt
All-numbers n p (r ∷ rows) h = (h.0.0, All-numbers n p rows h.1)

sum_residues-le :
    (n p : ℕ) (rows : List Row)
    → All (IsRow n p) rows
    → sum_by (λ (r : Row). r.residue) rows ≤ length rows * p
sum_residues-le n p [] h = omega arith
sum_residues-le n p (r ∷ rows) h = grind (arith, sum_residues-le n p rows h.1, h.0.1)

-- What adding `rows` to `t` makes of it, batch by batch.
pub record Added (t : BatchTally) (rows : List Row) (t' : BatchTally) : Type 0 where
  pub same_p : t'.p ≡ t.p
  pub same_records : t'.records ≡ t.records
  pub same_rows : t'.expected_rows ≡ t.expected_rows
  pub same_checksum : t'.expected_checksum ≡ t.expected_checksum
  pub same_watermark : t'.watermark ≡ t.watermark
  pub counts_length : length t'.counts ≡ length t.counts
  pub sums_length : length t'.sum_mod ≡ length t.counts
  pub counts_at :
      (b : ℕ) → get_or t'.counts b 0 ≡ get_or t.counts b 0 + occurrences b (map (λ r. r.batch) rows)
  pub sums_at : (b : ℕ) → get_or t'.sum_mod b 0 ≡ (get_or t.sum_mod b 0 + weight b rows) % t.p

chunk_small : (n width p : ℕ) → n ≤ width → width * p < 2 ^ 53 → n * p < 2 ^ 53
chunk_small n width p few small = grind arith

module _ (np : Bincount) where
  add_chunk-Added :
      (t : BatchTally) (chunk : List Row)
      → length t.sum_mod ≡ length t.counts
      → All (IsRow (size t) t.p) chunk
      → length chunk * t.p < 2 ^ 53
      → Added t chunk (add_chunk np t chunk)
  unfolding add_chunk
  add_chunk-Added t chunk sums rows small = record {
    same_p = refl;
    same_records = refl;
    same_rows = refl;
    same_checksum = refl;
    same_watermark = refl;
    counts_length = length-add_arrays _ _ (sym counts);
    sums_length = length-reduce t.p _ ∙ (length-add_arrays _ _ (sums ∙ sym weights) ∙ sums);
    counts_at = λ b.
        get_or-add_arrays _ _ b (sym counts)
        ∙ ap (λ n. get_or t.counts b 0 + n)
            (np.count_entry (size t) _ b (All-numbers (size t) t.p chunk rows));
    sums_at = λ b.
        get_or-reduce t.p _ b
        ∙ ap (λ n. n % t.p)
            (get_or-add_arrays _ _ b (sums ∙ sym weights)
              ∙ ap (λ n. get_or t.sum_mod b 0 + n)
                  (np.weights_entry (size t) chunk b batches exact));
  }
    where
      batches : All (λ r. r.batch < size t) chunk
      batches = All-batches (size t) t.p chunk rows

      exact : sum_by (λ (r : Row). r.residue) chunk < 2 ^ 53
      exact = omega (arith, sum_residues-le (size t) t.p chunk rows)

      counts : length (np.count (size t) (map (λ r. r.batch) chunk)) ≡ length t.counts
      counts = np.length_count (size t) _ (All-numbers (size t) t.p chunk rows)

      weights : length (np.count_weights (size t) chunk) ≡ length t.counts
      weights = np.length_weights (size t) chunk batches

weight-append : (b : ℕ) (xs ys : List Row) → weight b (xs ++ ys) ≡ weight b xs + weight b ys
weight-append b xs ys = sum_by-append (λ (r : Row). if r.batch == b then r.residue else 0) xs ys

occurrences-append :
    (b : ℕ) (xs ys : List Row)
    → occurrences b (map (λ (r : Row). r.batch) (xs ++ ys))
      ≡ occurrences b (map (λ (r : Row). r.batch) xs)
        + occurrences b (map (λ (r : Row). r.batch) ys)
occurrences-append b [] ys = omega arith
occurrences-append b (x ∷ xs) ys = omega (arith, occurrences-append b xs ys)

Added-nil :
    (t : BatchTally)
    → length t.sum_mod ≡ length t.counts
    → ((b : ℕ) → get_or t.sum_mod b 0 < t.p)
    → Added t [] t
Added-nil t sums reduced = record {
  same_p = refl;
  same_records = refl;
  same_rows = refl;
  same_checksum = refl;
  same_watermark = refl;
  counts_length = refl;
  sums_length = sums;
  counts_at = λ b. omega arith;
  sums_at = λ b. sym (rw add-zero (mod-eq_of_lt (reduced b)));
}

Added-trans :
    {t u v : BatchTally} (xs ys : List Row) → Added t xs u → Added u ys v → Added t (xs ++ ys) v
Added-trans {t} {u} {v} xs ys first second = record {
  same_p = second.same_p ∙ first.same_p;
  same_records = second.same_records ∙ first.same_records;
  same_rows = second.same_rows ∙ first.same_rows;
  same_checksum = second.same_checksum ∙ first.same_checksum;
  same_watermark = second.same_watermark ∙ first.same_watermark;
  counts_length = second.counts_length ∙ first.counts_length;
  sums_length = second.sums_length ∙ first.counts_length;
  counts_at = λ b. omega (arith, first.counts_at b, second.counts_at b, occurrences-append b xs ys);
  sums_at = λ b.
      second.sums_at b
      ∙ rw (first.same_p, first.sums_at b, weight-append b xs ys)
          (mod-add-mod (get_or t.sum_mod b 0 + weight b xs) t.p (weight b ys)
            ∙ ap (λ n. n % t.p) (add_assoc (get_or t.sum_mod b 0) (weight b xs) (weight b ys)));
}

All-take : (P : Row → Type 0) (n : ℕ) (xs : List Row) → All P xs → All P (take n xs)
All-take P zero xs h = tt
All-take P (suc n) [] h = tt
All-take P (suc n) (x ∷ xs) h = (h.0, All-take P n xs h.1)

All-drop : (P : Row → Type 0) (n : ℕ) (xs : List Row) → All P xs → All P (drop n xs)
All-drop P zero xs h = h
All-drop P (suc n) [] h = h
All-drop P (suc n) (x ∷ xs) h = All-drop P n xs h.1

Added-reduced :
    {t u : BatchTally} {rows : List Row}
    → 0 < t.p
    → Added t rows u
    → (b : ℕ) → get_or u.sum_mod b 0 < u.p
Added-reduced {t} {u} p_pos a b = rw (a.sums_at b, a.same_p) (mod-lt _ p_pos)

module _ (np : Bincount) (width : ℕ) (some_width : 0 < width) where
  pub add_chunks-Added :
      (turns : ℕ) (t : BatchTally) (rows : List Row)
      → length rows ≤ turns
      → width * t.p < 2 ^ 53
      → 0 < t.p
      → length t.sum_mod ≡ length t.counts
      → ((b : ℕ) → get_or t.sum_mod b 0 < t.p)
      → All (IsRow (size t) t.p) rows
      → Added t rows (add_chunks np width turns t rows)
  unfolding add_chunks
  add_chunks-Added zero t [] enough small p_pos sums reduced inside = Added-nil t sums reduced
  add_chunks-Added zero t (r ∷ rows) enough small p_pos sums reduced inside = absurd (omega arith)
  add_chunks-Added (suc turns) t [] enough small p_pos sums reduced inside =
      Added-nil t sums reduced
  add_chunks-Added (suc turns) t (r ∷ rows) enough small p_pos sums reduced inside =
      let chunk = take width (r ∷ rows) in
      let rest = drop width (r ∷ rows) in
      let few : length chunk ≤ width = omega (arith, length-take width (r ∷ rows)) in
      let first =
        add_chunk-Added np t chunk sums (All-take (IsRow (size t) t.p) width (r ∷ rows) inside)
          (chunk_small (length chunk) width t.p few small) in
      let shape : length (add_chunk np t chunk).sum_mod ≡ length (add_chunk np t chunk).counts =
        first.sums_length ∙ sym first.counts_length in
      let later =
        add_chunks-Added turns (add_chunk np t chunk) rest
          (omega (arith, length-drop width (r ∷ rows))) (rw first.same_p small)
          (rw first.same_p p_pos) shape (Added-reduced p_pos first)
          (rw (first.counts_length, first.same_p)
            (All-drop (IsRow (size t) t.p) width (r ∷ rows) inside)) in
      subst (λ l. Added t l (add_chunks np width (suc turns) t (r ∷ rows)))
        (take-append-drop width (r ∷ rows)) (Added-trans chunk rest first later)
