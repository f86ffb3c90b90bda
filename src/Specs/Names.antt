-- ===== src/Specs/Names.antt =====
-- ingest_bench/specs/derive.py, as characters, and `object_name` of ingest_bench/specs/kubernetes.py. The
-- stamp is the text that `strftime` gives.
pub mod Fit
use lakehouse_ingest_bench.Prelude.{ℕ, List, [], ◌∷◌, ◌++◌, map, ◌==◌, if◌then◌else◌}
use lakehouse_ingest_bench.Prelude.Strings.{codes, lower}
use lakehouse_ingest_bench.Engines.Spark.{uri_join}

abbrev pub table_namespace : List ℕ
table_namespace = codes "ingest_bench"

-- The names of a run.
pub record DerivedNames : Type 0 where
  pub run_id : List ℕ
  pub topic : List ℕ
  pub table : List ℕ
  pub run_root : List ℕ
  pub corpus_uri : List ℕ

-- run_id.replace('-', '_')
abbrev pub normalized : List ℕ → List ℕ
normalized run_id = map (λ c. if c == b'-' then b'_' else c) run_id

abbrev pub run_id_of : List ℕ → List ℕ → List ℕ
run_id_of name stamp = name ++ (b'-' ∷ stamp)

unfoldable pub derive : (name runs_root corpus_root stamp corpus_dir : List ℕ) → DerivedNames
derive name runs_root corpus_root stamp corpus_dir =
    let run_id = run_id_of name stamp in
    record {
      run_id = run_id;
      topic = run_id;
      table = table_namespace ++ (codes ".t_" ++ normalized run_id);
      run_root = uri_join runs_root (run_id ∷ []);
      corpus_uri = uri_join corpus_root (corpus_dir ∷ []);
    }

unfoldable pub object_name : List ℕ → List ℕ
object_name run_id = map lower run_id
