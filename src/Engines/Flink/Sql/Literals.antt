-- ===== src/Engines/Flink/Sql/Literals.antt =====
-- The options of a WITH clause are read back from its text.
use mathlib.Core.List.{append_assoc}
use lakehouse_ingest_bench.Prelude.{
  ℕ, zero, suc, ◌≤◌, ◌≡◌, refl, ap, ◌∙◌, inl, inr, Bool, false, Option, none, some, List, [], ◌∷◌,
  ◌++◌, arith, ◌==◌, if◌then◌else◌, ==_iff, Bool-cases, length,
}
use lakehouse_ingest_bench.Prelude.Strings.{codes}
use lakehouse_ingest_bench.Engines.Flink.Sql.{
  quote, doubled, literal, TextOption, option_text, line_end, with_clause,
}

-- What stands in a literal behind its first quote, and what follows the literal.
abbrev pub onto_value : ℕ → Option (List ℕ × List ℕ) → Option (List ℕ × List ℕ)
onto_value c none = none
onto_value c (some (value, rest)) = some (c ∷ value, rest)

abbrev pub read_value : List ℕ → Option (List ℕ × List ℕ)
read_value [] = none
read_value (c ∷ []) = if c == quote then some ([], []) else none
read_value (c ∷ d ∷ text) =
    let next = read_value text in
    let following = read_value (d ∷ text) in
    if c == quote
    then if d == quote then onto_value quote next else some ([], d ∷ text)
    else onto_value c following

-- A text behind another one.
abbrev pub after : List ℕ → List ℕ → Option (List ℕ)
after [] text = some text
after (c ∷ part) [] = none
after (c ∷ part) (d ∷ text) = if c == d then after part text else none

abbrev pub read_literal : List ℕ → Option (List ℕ × List ℕ)
read_literal [] = none
read_literal (c ∷ text) = if c == quote then read_value text else none

abbrev pub opens_quote : List ℕ → Bool
opens_quote [] = false
opens_quote (c ∷ text) = c == quote

infixl 1 ◌then◌
abbrev pub ◌then◌ : {A B : Type 0} → Option A → (A → Option B) → Option B
none then rest = none
some value then rest = rest value

abbrev pub with_value : List ℕ → List ℕ × List ℕ → Option (TextOption × List ℕ)
with_value key value = some ((key, value.0), value.1)

abbrev pub read_equals : List ℕ × List ℕ → Option (TextOption × List ℕ)
read_equals key =
    after (codes " = ") key.1 then λ follows. (read_literal follows then with_value key.0)

abbrev pub read_option : List ℕ → Option (TextOption × List ℕ)
read_option text = after (codes "  ") text then λ behind. (read_literal behind then read_equals)

abbrev pub onto_options :
    TextOption → Option (List TextOption × List ℕ) → Option (List TextOption × List ℕ)
onto_options option none = none
onto_options option (some (options, rest)) = some (option ∷ options, rest)

-- At most as many options as there are turns, each behind a comma and a line's end.
abbrev pub go_on :
    (List ℕ → Option (List TextOption × List ℕ))
    → TextOption × List ℕ
    → Option (List TextOption × List ℕ)
go_on others (option, rest) = elim (after line_end rest) [
  | none ↦ some (option ∷ [], rest)
  | some more ↦ onto_options option (others more)
]

abbrev pub read_options : ℕ → List ℕ → Option (List TextOption × List ℕ)
read_options zero text = none
read_options (suc turns) text = read_option text then go_on (λ more. read_options turns more)

read_value-other :
    (c : ℕ) (text : List ℕ)
    → (c == quote) ≡ false
    → read_value (c ∷ text) ≡ onto_value c (read_value text)
read_value-other c [] h = rw h refl
read_value-other c (d ∷ text) h = rw h refl

read_value-doubled :
    (value rest : List ℕ)
    → opens_quote rest ≡ false
    → read_value (doubled value ++ (quote ∷ rest)) ≡ some (value, rest)
unfolding doubled
read_value-doubled [] [] h = refl
read_value-doubled [] (c ∷ rest) h = rw h refl
read_value-doubled (c ∷ value) rest h = elim (Bool-cases (c == quote)) [
  | inl same ↦
      let e : c ≡ quote = (==_iff c quote).0 same in
      rw (same, read_value-doubled value rest h, e) refl
  | inr other ↦ rw other (
      read_value-other c (doubled value ++ (quote ∷ rest)) other
      ∙ ap (onto_value c) (read_value-doubled value rest h))
]

read_literal-literal :
    (value rest : List ℕ)
    → opens_quote rest ≡ false
    → read_literal (literal value ++ rest) ≡ some (value, rest)
unfolding literal
read_literal-literal value rest h =
    rw (append_assoc (doubled value) (quote ∷ []) rest) (read_value-doubled value rest h)

read_option-option_text :
    (option : TextOption) (rest : List ℕ)
    → opens_quote rest ≡ false
    → read_option (option_text option ++ rest) ≡ some (option, rest)
unfolding option_text
read_option-option_text (key, value) rest h =
    let first = append_assoc (literal key) (codes " = " ++ literal value) rest in
    ap (λ text. read_literal text then read_equals) first
    ∙ ap (λ r. r then read_equals)
        (read_literal-literal key (codes " = " ++ literal value ++ rest) refl)
    ∙ ap (λ r. r then with_value key) (read_literal-literal value rest h)

abbrev pub clause_end : List ℕ
clause_end = 10 ∷ b')' ∷ []

-- A clause of options, at whose end the parenthesis closes, is read back as these options, whatever
-- quotes, commas and line breaks stand in the keys and values, with a turn for each option.
pub read_options-with_clause :
    (option : TextOption) (options : List TextOption) (turns : ℕ)
    → length options ≤ turns
    → read_options (suc turns) (with_clause (option ∷ options) ++ clause_end)
      ≡ some (option ∷ options, clause_end)
unfolding with_clause
read_options-with_clause option [] turns h =
    ap (λ r. r then go_on (λ more. read_options turns more))
      (read_option-option_text option clause_end refl)
read_options-with_clause option (next ∷ options) zero h = absurd (ground arith)
read_options-with_clause option (next ∷ options) (suc turns) h =
    let rest = with_clause (next ∷ options) in
    let others = read_options-with_clause next options turns (ground arith) in
    ap (λ text. read_options (suc (suc turns)) text)
      (append_assoc (option_text option) (line_end ++ rest) clause_end)
    ∙ ap (λ r. r then go_on (λ more. read_options (suc turns) more))
        (read_option-option_text option (line_end ++ rest ++ clause_end) refl)
    ∙ ap (onto_options option) others
