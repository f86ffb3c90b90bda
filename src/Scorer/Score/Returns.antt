-- ===== src/Scorer/Score/Returns.antt =====
-- When an attempt at the files of a commit succeeds.
use lakehouse_ingest_bench.Prelude.{
  ℕ, zero, ◌≤◌, ◌≡◌, refl, ◌∙◌, false, List, [], ◌∷◌, arith, Bool-cases, inl, inr, sum_by, All, any,
  length, if◌then◌else◌, String,
}
use lakehouse_ingest_bench.Prelude.Int.{ℤ}
use lakehouse_ingest_bench.Result.{Result, ok, err, Result-cases}
use lakehouse_ingest_bench.Scorer.Tally.{Bincount, BatchTally, size, outside, add_ids}
use lakehouse_ingest_bench.Scorer.Tally.Adding.{IsTally, add_ids-Counts}
use lakehouse_ingest_bench.Scorer.Tally.Watermark.{add_ids-IsTally}
use lakehouse_ingest_bench.Scorer.Snapshots.{AddedFile}
use lakehouse_ingest_bench.Scorer.Score.State.{ScoreState}
use lakehouse_ingest_bench.Scorer.Score.Inputs.{
  Reads, pending_of, apply_reads, apply_pending, apply_added_files,
}
use lakehouse_ingest_bench.Scorer.Score.ExactlyOnce.{Completes}

-- The column of the file can be read, and its ids lie in a manifest of `batches` batches.
abbrev pub IsReadable : ℕ → Reads → AddedFile → Type 0
IsReadable batches reads f =
    (ids : List ℤ) × (reads.read_id_column f ≡ ok ids) × (any (outside batches) ids ≡ false)

-- 1 for a file that is not readable.
abbrev trouble_in : ℕ → Result (List ℤ) → ℕ
trouble_in batches (err e) = 1
trouble_in batches (ok ids) = if any (outside batches) ids then 1 else 0

abbrev trouble : ℕ → Reads → AddedFile → ℕ
trouble batches reads f = trouble_in batches (reads.read_id_column f)

no_trouble :
    (batches : ℕ) (reads : Reads) (files : List AddedFile)
    → All (IsReadable batches reads) files
    → sum_by (trouble batches reads) files ≡ zero
no_trouble batches reads [] all = refl
no_trouble batches reads (f ∷ files) ((ids, found, fine), all) =
    rw (found, fine) (omega (arith, no_trouble batches reads files all))

trouble-IsReadable :
    (batches : ℕ) (reads : Reads) (f : AddedFile)
    → trouble batches reads f ≡ zero
    → IsReadable batches reads f
trouble-IsReadable batches reads f h = elim (Result-cases (reads.read_id_column f)) [
  | inr (e, failed) ↦ absurd (cc (rw failed at h))
  | inl (ids, found) ↦ elim (Bool-cases (any (outside batches) ids)) [
    | inl out ↦ absurd (cc (rw (found, out) at h))
    | inr fine ↦ (ids, found, fine)
  ]
]

pending_le :
    (g : AddedFile → ℕ) (applied : List String) (files : List AddedFile)
    → sum_by g (pending_of applied files) ≤ sum_by g files
pending_le g applied [] = omega arith
pending_le g applied (f ∷ files) = ground (arith, pending_le g applied files)

add_ids-accepts :
    (np : Bincount) (t : BatchTally) (ids : List ℤ)
    → any (outside (size t)) ids ≡ false
    → (t' : BatchTally) × (add_ids np t ids ≡ ok t')
unfolding add_ids
add_ids-accepts np t [] h = (t, refl)
add_ids-accepts np t (id ∷ ids) h = elim (Result-cases (add_ids np t (id ∷ ids))) [
  | inl (t', added) ↦ (t', added)
  | inr (e, refused) ↦ absurd (cc (rw (h, add_ids) at refused))
]

module _ {F : Type 0} (np : Bincount) (reads : Reads) where
  apply_reads-returns :
      (rest : List AddedFile) (s : ScoreState F)
      → IsTally s.tally
      → sum_by (trouble (size s.tally) reads) rest ≡ zero
      → (apply_reads np reads rest s).0 ≡ ok tt
  unfolding apply_reads
  apply_reads-returns [] s tally h = refl
  apply_reads-returns (f ∷ rest) s tally h =
      let (ids, found, fine) = trouble-IsReadable (size s.tally) reads f (omega (arith, h)) in
      let (t, added) = add_ids-accepts np s.tally ids fine in
      let c = add_ids-Counts np s.tally t ids tally added in
      let left : sum_by (trouble (size t) reads) rest ≡ zero = rw c.same_size (omega (arith, h)) in
      rw (found, apply_reads)
        (rw added (
          apply_reads-returns rest
            (record s { tally = t; applied_files = f.path ∷ s.applied_files })
            (add_ids-IsTally np s.tally t ids tally added) left))

  -- An attempt succeeds, and says how many files it has read, when every file of the commit can be
  -- read and holds ids of the manifest's batches, in whatever order the reads complete.
  pub apply_added_files-returns :
      (files : List AddedFile) (s : ScoreState F)
      → IsTally s.tally
      → Completes reads
      → All (IsReadable (size s.tally) reads) files
      → (apply_added_files np reads files s).0 ≡ ok (length (pending_of s.applied_files files))
  unfolding apply_added_files
  apply_added_files-returns files s tally completes all =
      pending-returns (pending_of s.applied_files files) (
        omega (
          arith,
          pending_le (trouble (size s.tally) reads) s.applied_files files,
          no_trouble (size s.tally) reads files all,
        ))
    where
      pending-returns :
          (pending : List AddedFile)
          → sum_by (trouble (size s.tally) reads) pending ≡ zero
          → (apply_pending np reads pending s).0 ≡ ok (length pending)
      pending-returns [] none_left = refl
      pending-returns (f ∷ rest) none_left =
          rw
            (apply_reads-returns (reads.completion (f ∷ rest)) s tally
              (completes (f ∷ rest) (trouble (size s.tally) reads) ∙ none_left))
            refl
