-- ===== src/Engines/Flink/Script/RoundTrip.antt =====
-- A script of joined statements is split into them.
use mathlib.Core.List.{append_assoc}
use lakehouse_ingest_bench.Prelude.{
  ℕ, ◌≡◌, refl, ap, ◌∙◌, ◌≢◌, Bool, true, false, ◌||◌, List, [], ◌∷◌, ◌++◌, arith, All,
}
use lakehouse_ingest_bench.Engines.Flink.Script.{
  terminator, statement_gap, joined, join_statements, onto_first, ends_here, pieces, stripped,
  put_statement, statements_of, split_statements,
}

-- The terminator stands somewhere in the text.
abbrev pub ends_within : List ℕ → Bool
ends_within [] = false
ends_within (c ∷ []) = false
ends_within (c ∷ d ∷ text) = ends_here c d || ends_within (d ∷ text)

pieces-terminated :
    (statement script : List ℕ)
    → ends_within statement ≡ false
    → pieces (statement ++ b';' ∷ 10 ∷ script) ≡ statement ∷ pieces script
unfolding pieces
pieces-terminated [] script h = refl
pieces-terminated (c ∷ []) script h = ground arith
pieces-terminated (c ∷ d ∷ text) script h =
    let rest = pieces-terminated (d ∷ text) script (ground arith) in
    let here : ends_here c d ≡ false = ground arith in rw (here, rest) refl

-- A statement that stays as it is: not blank, with no white space around it and no terminator in it.
abbrev pub IsStatement : (ℕ → Bool) → List ℕ → Type 0
IsStatement is_space statement =
    (stripped is_space statement ≡ statement) × (statement ≢ []) × (ends_within statement ≡ false)

module _ (is_space : ℕ → Bool) (breaks : is_space 10 ≡ true) where
  put_statement-kept :
      (statement : List ℕ) (statements : List (List ℕ))
      → statement ≢ []
      → put_statement is_space statement statements ≡ statement ∷ statements
  put_statement-kept [] statements h = absurd (h refl)
  put_statement-kept (c ∷ statement) statements h = refl

  pieces-gap : (script : List ℕ) → pieces (10 ∷ script) ≡ onto_first 10 (pieces script)
  unfolding pieces
  pieces-gap [] = refl
  pieces-gap (d ∷ script) = refl

  statements_of-gap :
      (parts : List (List ℕ))
      → statements_of is_space (onto_first 10 parts) ≡ statements_of is_space parts
  unfolding statements_of
  statements_of-gap [] = rw breaks refl
  statements_of-gap (piece ∷ parts) = rw breaks refl

  statements_of-kept :
      (statement : List ℕ) (script : List ℕ)
      → IsStatement is_space statement
      → statements_of is_space (pieces (statement ++ b';' ∷ 10 ∷ script))
        ≡ statement ∷ statements_of is_space (pieces script)
  unfolding statements_of
  statements_of-kept statement script (kept, not_blank, inside) =
      rw (pieces-terminated statement script inside, kept)
        (put_statement-kept statement _ not_blank)

  statements-joined :
      (statement : List ℕ) (statements : List (List ℕ))
      → All (IsStatement is_space) (statement ∷ statements)
      → statements_of is_space (pieces (joined (statement ∷ statements) ++ terminator))
        ≡ statement ∷ statements
  unfolding joined pieces statements_of
  statements-joined statement [] (h, _) = statements_of-kept statement [] h
  statements-joined statement (next ∷ statements) (h, others) =
      let script = joined (next ∷ statements) in
      ap (λ text. statements_of is_space (pieces text))
        (append_assoc statement (terminator ++ statement_gap ++ script) terminator)
      ∙ statements_of-kept statement (10 ∷ (script ++ terminator)) h
      ∙ ap (λ rest. statement ∷ rest)
          (rw (pieces-gap (joined (next ∷ statements) ++ terminator))
            (statements_of-gap _ ∙ statements-joined next statements others))

-- Statements without a terminator inside, white space around them or nothing in them are what splitting
-- their joined script returns, in their order. A line break is white space.
pub split_statements-join_statements :
    (is_space : ℕ → Bool) (statements : List (List ℕ))
    → is_space 10 ≡ true
    → All (IsStatement is_space) statements
    → split_statements is_space (join_statements statements) ≡ statements
unfolding split_statements join_statements pieces joined statements_of
split_statements-join_statements is_space [] breaks h = refl
split_statements-join_statements is_space (statement ∷ statements) breaks h =
    statements-joined is_space breaks statement statements h
