-- ===== src/Engines/Flink/Script.antt =====
-- engines/flink/script.py: scripts of statements, as characters. What Python takes as white space is a
-- parameter.
pub mod RoundTrip
use lakehouse_ingest_bench.Result.{Result}
use lakehouse_ingest_bench.Prelude.{ℕ, Bool, ◌&&◌, Option, List, [], ◌∷◌, ◌++◌, ◌==◌, if◌then◌else◌}
use lakehouse_ingest_bench.Specs.Env.{substituted}

abbrev pub terminator : List ℕ
terminator = b';' ∷ 10 ∷ []

abbrev pub statement_gap : List ℕ
statement_gap = 10 ∷ []

unfoldable pub substitute_env : (List ℕ → Option (List ℕ)) → List ℕ → Result (List ℕ)
substitute_env environ text = substituted environ text

-- separator.join(statements), with the terminator and the gap for a separator
unfoldable pub joined : List (List ℕ) → List ℕ
joined [] = []
joined (statement ∷ []) = statement
joined (statement ∷ next ∷ statements) =
    statement ++ (terminator ++ statement_gap ++ joined (next ∷ statements))

unfoldable pub join_statements : List (List ℕ) → List ℕ
unfolding joined
join_statements statements = joined statements ++ terminator

abbrev pub onto_first : ℕ → List (List ℕ) → List (List ℕ)
onto_first c [] = (c ∷ []) ∷ []
onto_first c (piece ∷ pieces) = (c ∷ piece) ∷ pieces

abbrev pub ends_here : ℕ → ℕ → Bool
ends_here c d = c == b';' && d == 10

-- script.split(STATEMENT_TERMINATOR)
unfoldable pub pieces : List ℕ → List (List ℕ)
pieces [] = [] ∷ []
pieces (c ∷ []) = (c ∷ []) ∷ []
pieces (c ∷ d ∷ script) =
    let behind = pieces script in
    let within = pieces (d ∷ script) in if ends_here c d then [] ∷ behind else onto_first c within

module _ (is_space : ℕ → Bool) where
  abbrev pub left_stripped : List ℕ → List ℕ
  left_stripped [] = []
  left_stripped (c ∷ text) = if is_space c then left_stripped text else c ∷ text

  abbrev pub put_unless_blank : ℕ → List ℕ → List ℕ
  put_unless_blank c [] = if is_space c then [] else c ∷ []
  put_unless_blank c (d ∷ text) = c ∷ d ∷ text

  abbrev pub right_stripped : List ℕ → List ℕ
  right_stripped [] = []
  right_stripped (c ∷ text) = put_unless_blank c (right_stripped text)

  -- text.strip()
  abbrev pub stripped : List ℕ → List ℕ
  stripped text = right_stripped (left_stripped text)

  abbrev pub put_statement : List ℕ → List (List ℕ) → List (List ℕ)
  put_statement [] statements = statements
  put_statement (c ∷ statement) statements = (c ∷ statement) ∷ statements

  unfoldable pub statements_of : List (List ℕ) → List (List ℕ)
  statements_of [] = []
  statements_of (piece ∷ pieces) = put_statement (stripped piece) (statements_of pieces)

  unfoldable pub split_statements : List ℕ → List (List ℕ)
  unfolding pieces statements_of
  split_statements script = statements_of (pieces script)
