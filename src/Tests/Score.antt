-- ===== src/Tests/Score.antt =====
-- Runs of the scoring loop: a commit whose first reading fails half-way, and a whole run.
use text.Mathlib.Text.{◌==◌ as str_eq}
use lakehouse_ingest_bench.Prelude.Strings.{codes}
use text.Mathlib.TextEquality.{eq_iff}
use lakehouse_ingest_bench.Prelude.{
  ◌≡◌, refl, List, [], ◌∷◌, ◌++◌, none, String, true, false, arith, if◌then◌else◌, sum_by-append,
  Bool-cases, inl, inr, length,
}
use lakehouse_ingest_bench.Prelude.Int.{ℤ, pos}
use lakehouse_ingest_bench.Result.{Result, ok, err, read_error}
use lakehouse_ingest_bench.Corpus.Batch.{id_block}
use lakehouse_ingest_bench.Tests.Samples.{fresh_tally}
use lakehouse_ingest_bench.Tests.Numpy.{numpy}
use lakehouse_ingest_bench.Tests.Tally.{fresh_tally-IsTally}
use lakehouse_ingest_bench.Scorer.Tally.{covered, advance, add_chunk, add_chunks, add_ids}
use lakehouse_ingest_bench.Scorer.Snapshots.{AddedFile}
use lakehouse_ingest_bench.Scorer.Score.State.{ScoreState, running}
use lakehouse_ingest_bench.Scorer.Score.Inputs.{Reads, present, apply_reads, apply_added_files}
use lakehouse_ingest_bench.Scorer.Score.Returns.{apply_added_files-returns}
use lakehouse_ingest_bench.Scorer.Score.Inputs.{pending_of}
use lakehouse_ingest_bench.Scorer.Score.Pending.{SameFiles, DistinctPaths}
use lakehouse_ingest_bench.Scorer.Score.ExactlyOnce.{
  IsFaithful, attempt_all, CountsFiles, exactly_once,
}

abbrev data_file : String → AddedFile
data_file path = record {
  path = path;
  file_format = codes "parquet";
  record_count = 2;
  size_bytes = 64;
}

abbrev pub two_files : List AddedFile
two_files = data_file "a" ∷ data_file "b" ∷ []

abbrev pub content : String → List ℤ
content path = if str_eq path "a" then pos 0 ∷ pos 1 ∷ [] else pos id_block ∷ []

two_files-DistinctPaths : DistinctPaths two_files
two_files-DistinctPaths p = elim (Bool-cases (str_eq p "a")) [
  | inl e ↦ rw ((eq_iff p "a").0 e) (omega arith)
  | inr e ↦ ground arith
]

-- The first of the concurrent reads completes last.
abbrev pub turned : List AddedFile → List AddedFile
turned [] = []
turned (f ∷ files) = files ++ f ∷ []

turned-SameFiles : (files : List AddedFile) → SameFiles (turned files) files
turned-SameFiles [] g = refl
turned-SameFiles (f ∷ files) g = omega (arith, sum_by-append g files (f ∷ []))

abbrev reads_with : (AddedFile → Result (List ℤ)) → Reads
reads_with read_id_column = record {
  logs_for_done = ok none;
  logs_for_records = ok none;
  metadata_read = ok tt;
  manifests_read = λ id. ok tt;
  table = present [] [];
  first_seen_ms = 2_000;
  read_id_column = read_id_column;
  completion = turned;
  line_written = λ snapshot_id. true;
}

-- One attempt fails to read the file "a", after "b" has been read; the next reads all.
abbrev failing : Reads
failing = reads_with (λ f. if str_eq f.path "a" then err read_error else ok (content f.path))

abbrev reading : Reads
reading = reads_with (λ f. ok (content f.path))

failing-IsFaithful : IsFaithful content failing
failing-IsFaithful f ids h = elim (Bool-cases (str_eq f.path "a")) [
  | inl e ↦ absurd (cc (rw e at h))
  | inr e ↦ cc (rw e at h, e)
]

reading-IsFaithful : IsFaithful content reading
reading-IsFaithful f ids h = cc h

abbrev pub started : ScoreState ℤ
started = record {
  tally = fresh_tally;
  last_new_ms = 1_000;
  observations = [];
  samples = [];
  seen = [];
  applied_files = [];
  records = [];
  schema_mismatches = none;
  table_absent = false;
  offer_ended = false;
  read_failures = 0;
  state = running;
  reason = none;
  aborted = false;
  result = none;
  exactness = none;
}

second_reads :
    (apply_added_files numpy reading two_files
      (attempt_all numpy two_files (failing ∷ []) started)).0
    ≡ ok 1
unfolding apply_added_files apply_reads add_ids add_chunks add_chunk advance covered
second_reads = refl

exactly_once_example :
    CountsFiles content fresh_tally two_files
      (apply_added_files numpy reading two_files
        (attempt_all numpy two_files (failing ∷ []) started)).1.tally
exactly_once_example =
    exactly_once numpy content two_files started (failing ∷ []) reading 1 fresh_tally-IsTally refl
      two_files-DistinctPaths ((failing-IsFaithful, turned-SameFiles), tt) reading-IsFaithful
      turned-SameFiles second_reads

apply_added_files-returns_example :
    (apply_added_files numpy reading two_files started).0 ≡ ok (length (pending_of [] two_files))
apply_added_files-returns_example =
    apply_added_files-returns numpy reading two_files started fresh_tally-IsTally turned-SameFiles
      ((pos 0 ∷ pos 1 ∷ [], refl, refl), ((pos id_block ∷ [], refl, refl), tt))
