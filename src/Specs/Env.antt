-- ===== src/Specs/Env.antt =====
-- ingest_bench/specs/env.py: references to the environment. The environment is a function. Letters
-- are those of ASCII, also in `lower`.
pub mod Matches
pub mod References
use mathlib.Core.Option
use lakehouse_ingest_bench.Result.{value_error, Result, ok, err, ◌>>=◌, ◌>>◌, refuse}
use lakehouse_ingest_bench.Prelude.{
  ℕ, zero, suc, String, Bool, true, false, not, ◌&&◌, ◌||◌, Option, none, some, List, [], ◌∷◌, ◌++◌,
  map, leb, ◌==◌, if◌then◌else◌, length, drop, any,
}
use lakehouse_ingest_bench.Prelude.Strings.{codes, begins_with, contains, lower}

abbrev Text : Type 0
Text = List ℕ

-- [A-Za-z_] and [A-Za-z0-9_]
abbrev pub is_start : ℕ → Bool
is_start c = leb b'A' c && leb c b'Z' || leb b'a' c && leb c b'z' || c == b'_'

abbrev pub is_word : ℕ → Bool
is_word c = is_start c || leb b'0' c && leb c b'9'

-- The rest of a name up to its brace: the name's characters and the text behind the brace. A name
-- holds no brace, so that the pattern has one way to match.
unfoldable pub name_end : List ℕ → Option (List ℕ × List ℕ)
name_end [] = none
name_end (c ∷ text) =
    let rest = name_end text in
    if c == b'}'
    then some ([], text)
    else if is_word c
    then Option.map (λ r. (c ∷ r.0, r.1)) rest
    else none

unfoldable pub name_start : List ℕ → Option (List ℕ × List ℕ)
unfolding name_end
name_start [] = none
name_start (c ∷ text) =
    if is_start c then Option.map (λ r. (c ∷ r.0, r.1)) (name_end text) else none

-- PLACEHOLDER_RE, matched at the start of a text: the name, and what follows the reference.
unfoldable pub reference : List ℕ → Option (List ℕ × List ℕ)
unfolding name_start
reference text = if begins_with text (codes "${env:") then name_start (drop 6 text) else none

abbrev pub is_some : {A : Type 0} → Option A → Bool
is_some none = false
is_some (some a) = true

unfoldable pub placeholder_in : List ℕ → Bool
placeholder_in [] = false
placeholder_in (c ∷ text) = is_some (reference (c ∷ text)) || placeholder_in text

unfoldable pub has_placeholder : String → Bool
has_placeholder value = placeholder_in (codes value)

abbrev pub secret_hints : List String
secret_hints = "token" ∷ "credential" ∷ "secret" ∷ "password" ∷ "auth_user_info" ∷ []

unfoldable pub names_a_secret : String → Bool
names_a_secret key = any (λ hint. contains (map lower (codes key)) (codes hint)) secret_hints

unfoldable pub refuse_literal_secrets : List (String × String) → Result (Unit {0})
refuse_literal_secrets values =
    refuse (any (λ entry. names_a_secret entry.0 && not (has_placeholder entry.1)) values)

abbrev pub of_variable : Option (List ℕ) → Result (List ℕ)
of_variable none = err value_error
of_variable (some value) = ok value

-- One turn of `sub` at a character: it stays, or the reference that it starts is replaced.
abbrev pub replaced :
    (List ℕ → Option (List ℕ))
    → (List ℕ → Result (List ℕ))
    → ℕ
    → List ℕ
    → Option (List ℕ × List ℕ)
    → Result (List ℕ)
replaced environ others c text none = do rest ← others text; ok (c ∷ rest)
replaced environ others c text (some found) = do
  value ← of_variable (environ found.0)
  rest ← others found.1
  ok (value ++ rest)

-- `sub` over a text. A reference is as long as it has characters, so that a turn for each is enough.
unfoldable pub substituted_from : (List ℕ → Option (List ℕ)) → ℕ → List ℕ → Result (List ℕ)
unfolding reference
substituted_from environ zero text = ok text
substituted_from environ (suc turns) [] = ok []
substituted_from environ (suc turns) (c ∷ text) =
    replaced environ (λ more. substituted_from environ turns more) c text (reference (c ∷ text))

unfoldable pub substituted : (List ℕ → Option (List ℕ)) → List ℕ → Result (List ℕ)
substituted environ value = substituted_from environ (length value) value

unfoldable pub resolve_env_placeholders :
    (List ℕ → Option (List ℕ)) → List (String × List ℕ) → Result (List (String × List ℕ))
unfolding substituted
resolve_env_placeholders environ [] = ok []
resolve_env_placeholders environ ((key, value) ∷ values) = do
  first ← substituted environ value
  rest ← resolve_env_placeholders environ values
  ok ((key, first) ∷ rest)
