-- ===== src/Scorer/Score/ExactlyOnce.antt =====
-- Each data file of a commit is tallied once, however often its reading fails and is retried and in
-- whatever order the concurrent reads complete.
use native.Mathlib.Nat.{mod-add-mod, add-zero, mod-eq_of_lt}
use lakehouse_ingest_bench.Prelude.Int.{ℤ}
use lakehouse_ingest_bench.Result.{Error, Result, Result-cases, ok, err}
use lakehouse_ingest_bench.Prelude.{
  ℕ, ◌+◌, ◌*◌, ◌%◌, String, ◌≡◌, refl, sym, ap, ◌∙◌, inl, inr, List, [], ◌∷◌, arith, length, get_or,
  sum_by, All,
}
use lakehouse_ingest_bench.Scorer.Tally.{Bincount, BatchTally, size, add_ids}
use lakehouse_ingest_bench.Scorer.Tally.Adding.{one_of, id_of, IsTally, add_ids-Counts}
use lakehouse_ingest_bench.Scorer.Tally.Watermark.{add_ids-IsTally}
use lakehouse_ingest_bench.Scorer.Snapshots.{AddedFile}
use lakehouse_ingest_bench.Scorer.Score.State.{ScoreState}
use lakehouse_ingest_bench.Scorer.Score.Inputs.{
  Reads, pending_of, apply_reads, apply_added_files, continue, apply_pending,
}
use lakehouse_ingest_bench.Scorer.Score.Pending.{
  path_occurs, pending-cons, IsSplit, SameFiles, DistinctPaths, pending_once, IsSplit-cons,
}

-- The state, against the tally `base` that the commit started from: the applied files, and no
-- others, are counted, each once.
pub record Tracks {F : Type 0} (content : String → List ℤ) (base : BatchTally)
    (files : List AddedFile) (s : ScoreState F) : Type 0 where
  pub tally : IsTally s.tally
  pub same_p : s.tally.p ≡ base.p
  pub same_rows : s.tally.expected_rows ≡ base.expected_rows
  pub same_checksum : s.tally.expected_checksum ≡ base.expected_checksum
  pub same_size : size s.tally ≡ size base
  pub counts_at :
      (b : ℕ)
      → get_or s.tally.counts b 0
        ≡ get_or base.counts b 0 + sum_by (λ p. sum_by (one_of b) (content p)) s.applied_files
  pub sums_at :
      (b : ℕ)
      → get_or s.tally.sum_mod b 0
        ≡ (get_or base.sum_mod b 0 + sum_by (λ p. sum_by (id_of b) (content p)) s.applied_files)
          % base.p
  pub split : IsSplit files s.applied_files

sum_step : (a b c p : ℕ) → ((a + b) % p + c) % p ≡ (a + (c + b)) % p
sum_step a b c p =
    let e : a + b + c ≡ a + (c + b) = omega arith in mod-add-mod (a + b) p c ∙ ap (λ n. n % p) e

-- A column that can be read holds the ids of its file.
abbrev pub IsFaithful : (String → List ℤ) → Reads → Type 0
IsFaithful content reads =
    (f : AddedFile) (ids : List ℤ) → reads.read_id_column f ≡ ok ids → ids ≡ content f.path

-- Completed reads are those submitted, in some order.
abbrev pub Completes : Reads → Type 0
Completes reads = (xs : List AddedFile) → SameFiles (reads.completion xs) xs

-- Attempts at the files of one commit, one after another, whatever each returns.
abbrev pub attempt_all :
    {F : Type 0} → Bincount → List AddedFile → List Reads → ScoreState F → ScoreState F
attempt_all np files [] s = s
attempt_all np files (reads ∷ attempts) s =
    attempt_all np files attempts (apply_added_files np reads files s).1

module _ {F : Type 0} (np : Bincount) (content : String → List ℤ) (base : BatchTally)
    (files : List AddedFile) (distinct : DistinctPaths files) where
  Tracks-file :
      (s : ScoreState F) (f : AddedFile) (rest : List AddedFile) (t : BatchTally)
      → Tracks content base files s
      → ((g : String → ℕ)
          → g f.path + sum_by (λ x. g x.path) rest
            ≡ sum_by (λ x. g x.path) (pending_of s.applied_files files))
      → add_ids np s.tally (content f.path) ≡ ok t
      → Tracks content base files (record s { tally = t; applied_files = f.path ∷ s.applied_files })
  Tracks-file s f rest t k same e =
      let c = add_ids-Counts np s.tally t (content f.path) k.tally e in
      record {
        tally = add_ids-IsTally np s.tally t (content f.path) k.tally e;
        same_p = c.same_p ∙ k.same_p;
        same_rows = c.same_rows ∙ k.same_rows;
        same_checksum = c.same_checksum ∙ k.same_checksum;
        same_size = c.same_size ∙ k.same_size;
        counts_at = λ b. omega (arith, c.counts_at b, k.counts_at b);
        sums_at = λ b. c.sums_at b ∙ rw (k.same_p, k.sums_at b) (sum_step _ _ _ base.p);
        split =
            IsSplit-cons files s.applied_files f.path
              (pending_once files s.applied_files f rest distinct k.split same) k.split;
      }

  -- The reads still to complete are the pending files.
  abbrev Remaining : List AddedFile → ScoreState F → Type 0
  Remaining rest s =
      (g : String → ℕ)
      → sum_by (λ x. g x.path) rest ≡ sum_by (λ x. g x.path) (pending_of s.applied_files files)

  Remaining-file :
      (s : ScoreState F) (f : AddedFile) (rest : List AddedFile) (t : BatchTally)
      → IsSplit files s.applied_files
      → Remaining (f ∷ rest) s
      → Remaining rest (record s { tally = t; applied_files = f.path ∷ s.applied_files })
  Remaining-file s f rest t split same g =
      let once = pending_once files s.applied_files f rest distinct split same in
      let one : path_occurs f.path (pending_of s.applied_files files) * g f.path ≡ 1 * g f.path =
        ap (λ n. n * g f.path) once in
      omega (arith, pending-cons g f.path s.applied_files files, one, same g)

  apply_reads-failed :
      (reads : Reads) (f : AddedFile) (rest : List AddedFile) (s : ScoreState F) (e : Error)
      → reads.read_id_column f ≡ err e
      → apply_reads np reads (f ∷ rest) s ≡ (err e, s)
  unfolding apply_reads
  apply_reads-failed reads f rest s e h = rw (h, apply_reads)

  apply_reads-refused :
      (reads : Reads) (f : AddedFile) (rest : List AddedFile) (s : ScoreState F) (ids : List ℤ)
      (e : Error)
      → reads.read_id_column f ≡ ok ids
      → add_ids np s.tally ids ≡ err e
      → apply_reads np reads (f ∷ rest) s ≡ (err e, s)
  unfolding apply_reads
  apply_reads-refused reads f rest s ids e h h' = rw (h, apply_reads) (rw h')

  apply_reads-added :
      (reads : Reads) (f : AddedFile) (rest : List AddedFile) (s : ScoreState F) (ids : List ℤ)
      (t : BatchTally)
      → reads.read_id_column f ≡ ok ids
      → add_ids np s.tally ids ≡ ok t
      → apply_reads np reads (f ∷ rest) s
        ≡ apply_reads np reads rest
            (record s { tally = t; applied_files = f.path ∷ s.applied_files })
  unfolding apply_reads
  apply_reads-added reads f rest s ids t h h' = rw (h, apply_reads) (rw h')

  apply_reads-Tracks :
      (reads : Reads) (rest : List AddedFile) (s : ScoreState F)
      → IsFaithful content reads
      → Tracks content base files s
      → Remaining rest s
      → Tracks content base files (apply_reads np reads rest s).1
        × ((apply_reads np reads rest s).0 ≡ ok tt → Remaining [] (apply_reads np reads rest s).1)
  unfolding apply_reads
  apply_reads-Tracks reads [] s faithful k same = (k, λ e. same)
  apply_reads-Tracks reads (f ∷ rest) s faithful k same =
      elim (Result-cases (reads.read_id_column f)) [
        | inr (e, failed) ↦ rw (apply_reads-failed reads f rest s e failed) (k, λ h. absurd (cc h))
        | inl (ids, found) ↦ elim (Result-cases (add_ids np s.tally ids)) [
          | inr (e, refused) ↦
              rw (apply_reads-refused reads f rest s ids e found refused) (k, λ h. absurd (cc h))
          | inl (t, added) ↦
              let own : add_ids np s.tally (content f.path) ≡ ok t =
                rw (faithful f ids found) at added in
              rw (apply_reads-added reads f rest s ids t found added) (
                apply_reads-Tracks reads rest
                  (record s { tally = t; applied_files = f.path ∷ s.applied_files }) faithful
                  (Tracks-file s f rest t k same own) (Remaining-file s f rest t k.split same))
        ]
      ]

  apply_added_files-Tracks :
      (reads : Reads) (s : ScoreState F)
      → IsFaithful content reads
      → Completes reads
      → Tracks content base files s
      → Tracks content base files (apply_added_files np reads files s).1
        × ((n : ℕ)
            → (apply_added_files np reads files s).0 ≡ ok n
            → Remaining [] (apply_added_files np reads files s).1)
  unfolding apply_added_files
  apply_added_files-Tracks reads s faithful completes k = go (pending_of s.applied_files files) refl
    where
      go :
          (pending : List AddedFile)
          → pending_of s.applied_files files ≡ pending
          → Tracks content base files (apply_pending np reads pending s).1
            × ((n : ℕ)
                → (apply_pending np reads pending s).0 ≡ ok n
                → Remaining [] (apply_pending np reads pending s).1)
      go [] e = (k, λ n h g. rw e)
      go (f ∷ rest) e =
          let (k', all) =
            apply_reads-Tracks reads (reads.completion (f ∷ rest)) s faithful k
              (λ g. completes (f ∷ rest) (λ x. g x.path) ∙ rw e) in
          finish (apply_reads np reads (reads.completion (f ∷ rest)) s) k' all
        where
          finish :
              (r : Result Unit × ScoreState F)
              → Tracks content base files r.1
              → (r.0 ≡ ok tt → Remaining [] r.1)
              → Tracks content base files
                  (continue {B = ℕ} r.0 (λ _ s. (ok (length (f ∷ rest)), s)) r.1).1
                × ((n : ℕ)
                    → (continue {B = ℕ} r.0 (λ _ s. (ok (length (f ∷ rest)), s)) r.1).0 ≡ ok n
                    → Remaining []
                        (continue {B = ℕ} r.0 (λ _ s. (ok (length (f ∷ rest)), s)) r.1).1)
          finish (ok u, s') k' all = (k', λ n h. all refl)
          finish (err x, s') k' all = (k', λ n h. absurd (cc h))

  attempt_all-Tracks :
      (attempts : List Reads) (s : ScoreState F)
      → All (λ reads. IsFaithful content reads × Completes reads) attempts
      → Tracks content base files s
      → Tracks content base files (attempt_all np files attempts s)
  attempt_all-Tracks [] s good k = k
  attempt_all-Tracks (reads ∷ attempts) s ((faithful, completes), good) k =
      attempt_all-Tracks attempts (apply_added_files np reads files s).1 good
        (apply_added_files-Tracks reads s faithful completes k).0

pending_all : (files : List AddedFile) → pending_of [] files ≡ files
pending_all [] = refl
pending_all (f ∷ files) = ap (λ xs. f ∷ xs) (pending_all files)

Tracks-start :
    {F : Type 0} (content : String → List ℤ) (files : List AddedFile) (s : ScoreState F)
    → IsTally s.tally
    → s.applied_files ≡ []
    → Tracks content s.tally files s
Tracks-start content files s t none_applied = record {
  tally = t;
  same_p = refl;
  same_rows = refl;
  same_checksum = refl;
  same_size = refl;
  counts_at = λ b. rw none_applied (omega arith);
  sums_at = λ b. rw (none_applied, add-zero) (sym (mod-eq_of_lt (t.reduced b)));
  split = λ g. rw (none_applied, pending_all files) (omega arith);
}

-- `t` is `base` with every row of every file counted once, in its own batch.
pub record CountsFiles (content : String → List ℤ) (base : BatchTally) (files : List AddedFile)
    (t : BatchTally) : Type 0 where
  pub counts_of :
      (b : ℕ)
      → get_or t.counts b 0
        ≡ get_or base.counts b 0 + sum_by (λ f. sum_by (one_of b) (content f.path)) files
  pub sums_of :
      (b : ℕ)
      → get_or t.sum_mod b 0
        ≡ (get_or base.sum_mod b 0 + sum_by (λ f. sum_by (id_of b) (content f.path)) files) % base.p

-- The files of one commit, with distinct paths, are counted exactly once each, in the batches of
-- their ids, when an attempt at them succeeds: whatever attempts failed before it, after reading
-- some of the files, and in whatever order the concurrent reads completed in each. A successful
-- read of a file gives its content in every attempt, and `completion` only reorders the reads.
pub exactly_once :
    {F : Type 0} (np : Bincount) (content : String → List ℤ) (files : List AddedFile)
    (s : ScoreState F) (attempts : List Reads) (reads : Reads) (n : ℕ)
    → IsTally s.tally
    → s.applied_files ≡ []
    → DistinctPaths files
    → All (λ r. IsFaithful content r × Completes r) attempts
    → IsFaithful content reads
    → Completes reads
    → (apply_added_files np reads files (attempt_all np files attempts s)).0 ≡ ok n
    → CountsFiles content s.tally files
        (apply_added_files np reads files (attempt_all np files attempts s)).1.tally
exactly_once np content files s attempts reads n tally none_applied distinct good faithful completes
      h =
    let before =
      attempt_all-Tracks np content s.tally files distinct attempts s good
        (Tracks-start content files s tally none_applied) in
    let (k, all) =
      apply_added_files-Tracks np content s.tally files distinct reads
        (attempt_all np files attempts s) faithful completes before in
    let left = all n h in
    let done : (g : String → ℕ)
        → sum_by g
            (apply_added_files np reads files (attempt_all np files attempts s)).1.applied_files
          ≡ sum_by (λ f. g f.path) files =
      λ g. omega (arith, k.split g, left g) in
    record {
      counts_of = λ b.
          k.counts_at b
          ∙ ap (λ m. get_or s.tally.counts b 0 + m) (done (λ p. sum_by (one_of b) (content p)));
      sums_of = λ b.
          k.sums_at b
          ∙ ap (λ m. (get_or s.tally.sum_mod b 0 + m) % s.tally.p)
              (done (λ p. sum_by (id_of b) (content p)));
    }
