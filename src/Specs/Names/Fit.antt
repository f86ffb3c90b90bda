-- ===== src/Specs/Names/Fit.antt =====
-- The names of a run fit Kafka, SQL and Kubernetes.
use lakehouse_ingest_bench.Result.{ok}
use lakehouse_ingest_bench.Prelude.{
  ℕ, suc, ◌≤◌, ◌≡◌, refl, ap, Bool, true, false, not, ◌&&◌, ◌||◌, List, [], ◌∷◌, ◌++◌, map, arith,
  leb, ◌==◌, if◌then◌else◌, length, drop, every, length-append,
}
use lakehouse_ingest_bench.Prelude.Strings.{codes, lower}
use lakehouse_ingest_bench.Specs.Env.{is_word}
use lakehouse_ingest_bench.Specs.Run.{is_name, is_later}
use lakehouse_ingest_bench.Specs.Names.{
  DerivedNames, derive, run_id_of, normalized, object_name, table_namespace,
}
use lakehouse_ingest_bench.Engines.Flink.Sql.{parts, table_identifier}

-- What STAMP_FORMAT gives: digits, a `T` and a `Z`, 16 characters.
abbrev pub is_stamp_character : ℕ → Bool
is_stamp_character c = leb b'0' c && leb c b'9' || c == b'T' || c == b'Z'

abbrev pub IsStamp : List ℕ → Type 0
IsStamp stamp = (length stamp ≡ 16) × (every is_stamp_character stamp ≡ true)

abbrev pub is_run_character : ℕ → Bool
is_run_character c = is_later c || is_stamp_character c

every-implies :
    (p q : ℕ → Bool) (text : List ℕ)
    → ((c : ℕ) → p c ≡ true → q c ≡ true)
    → every p text ≡ true
    → every q text ≡ true
every-implies p q [] imply h = refl
every-implies p q (c ∷ text) imply h =
    let first = imply c (ground arith) in
    let rest = every-implies p q text imply (ground arith) in ground arith

every-append :
    (p : ℕ → Bool) (xs ys : List ℕ)
    → every p xs ≡ true
    → every p ys ≡ true
    → every p (xs ++ ys) ≡ true
every-append p [] ys h g = g
every-append p (c ∷ xs) ys h g = let rest = every-append p xs ys (ground arith) g in ground arith

every-map :
    (f : ℕ → ℕ) (p q : ℕ → Bool) (text : List ℕ)
    → ((c : ℕ) → p c ≡ true → q (f c) ≡ true)
    → every p text ≡ true
    → every q (map f text) ≡ true
every-map f p q [] imply h = refl
every-map f p q (c ∷ text) imply h =
    let first = imply c (ground arith) in
    let rest = every-map f p q text imply (ground arith) in ground arith

length-map : (f : ℕ → ℕ) (text : List ℕ) → length (map f text) ≡ length text
length-map f [] = refl
length-map f (c ∷ text) = ap suc (length-map f text)

is_name-characters : (name : List ℕ) → is_name name ≡ true → every is_later name ≡ true
is_name-characters [] h = refl
is_name-characters (c ∷ name) h = ground arith

is_name-length : (name : List ℕ) → is_name name ≡ true → length name ≤ 35
is_name-length [] h = absurd (cc h)
is_name-length (c ∷ name) h = ground arith

run_id-characters :
    (name stamp : List ℕ)
    → is_name name ≡ true
    → IsStamp stamp
    → every is_run_character (run_id_of name stamp) ≡ true
run_id-characters name stamp h (_, s) =
    every-append is_run_character name (b'-' ∷ stamp)
      (every-implies is_later is_run_character name (λ c e. ground arith)
        (is_name-characters name h))
      (every-implies is_stamp_character is_run_character stamp (λ c e. ground arith) s)

parts-plain : (text : List ℕ) → every (λ c. not (c == b'.')) text ≡ true → parts text ≡ text ∷ []
unfolding parts
parts-plain [] h = refl
parts-plain (c ∷ text) h =
    let here : (c == b'.') ≡ false = ground arith in rw (here, parts-plain text (ground arith)) refl

-- A table's name gives the run's id back.
abbrev pub denormalized : List ℕ → List ℕ
denormalized text = map (λ c. if c == b'_' then b'-' else c) text

denormalized-normalized :
    (run_id : List ℕ)
    → every is_run_character run_id ≡ true
    → denormalized (normalized run_id) ≡ run_id
denormalized-normalized [] h = refl
denormalized-normalized (c ∷ run_id) h =
    let first : (if (if c == b'-' then b'_' else c) == b'_'
          then b'-'
          else (if c == b'-' then b'_' else c))
        ≡ c =
      ground arith in
    rw (first, denormalized-normalized run_id (ground arith)) refl

-- What the names of a run are: with the longest prefix of a Job the object's name is a label of
-- Kubernetes, made of [a-z0-9-]; and the table's name has two parts, of which SQL quotes none.
abbrev pub AreFit : DerivedNames → Type 0
AreFit names =
    (length (codes "drop-topic-" ++ object_name names.run_id) ≤ 63)
    × (every is_later (object_name names.run_id) ≡ true)
    × (table : List ℕ) × (table_identifier names.table ≡ ok (table_namespace, table))
    × (every is_word table ≡ true)
    × (denormalized (drop 2 table) ≡ names.run_id)

object_name-label :
    (name stamp : List ℕ)
    → is_name name ≡ true
    → IsStamp stamp
    → (length (codes "drop-topic-" ++ object_name (run_id_of name stamp)) ≤ 63)
      × (every is_later (object_name (run_id_of name stamp)) ≡ true)
unfolding object_name
object_name-label name stamp h s =
    let run_id = run_id_of name stamp in
    let short = is_name-length name h in
    let size = length-append name (b'-' ∷ stamp) in
    let lowered = length-map lower run_id in
    let stamped = s.0 in
    (
      omega arith,
      every-map lower is_run_character is_later run_id (λ c e. ground arith)
          (run_id-characters name stamp h s),
    )

table_identifier-table :
    (run_id : List ℕ)
    → every is_run_character run_id ≡ true
    → table_identifier (table_namespace ++ (codes ".t_" ++ normalized run_id))
      ≡ ok (table_namespace, codes "t_" ++ normalized run_id)
unfolding table_identifier parts
table_identifier-table run_id h =
    let plain : every (λ c. not (c == b'.')) (normalized run_id) ≡ true =
      every-map (λ c. if c == b'-' then b'_' else c) is_run_character (λ c. not (c == b'.')) run_id
        (λ c e. ground arith) h in
    rw (parts-plain (normalized run_id) plain) refl

-- A run's name that passes, without the line break that the check lets through, and a stamp give names that
-- fit: the object's name is short enough behind the longest prefix of a Job and has only small letters,
-- digits and dashes, and the table's name is read as the namespace and a name of letters, digits and
-- underscores, from which the run's id can be read back, so that no two runs share a table.
pub derive-AreFit :
    (name stamp runs_root corpus_root corpus_dir : List ℕ)
    → is_name name ≡ true
    → IsStamp stamp
    → AreFit (derive name runs_root corpus_root stamp corpus_dir)
unfolding derive
derive-AreFit name stamp runs_root corpus_root corpus_dir h s =
    let run_id = run_id_of name stamp in
    let characters = run_id-characters name stamp h s in
    let (short, label) = object_name-label name stamp h s in
    let words =
      every-map (λ c. if c == b'-' then b'_' else c) is_run_character is_word run_id
        (λ c e. ground arith) characters in
    (
      short,
      label,
      codes "t_" ++ normalized run_id,
      table_identifier-table run_id characters,
      words,
      denormalized-normalized run_id characters,
    )
