-- ===== src/Specs/Env/Matches.antt =====
-- What the pattern of references matches.
use lakehouse_ingest_bench.Prelude.{
  ℕ, ◌≡◌, refl, sym, ap, subst, ◌∙◌, Bool-cases, Option-cases, inl, inr, ==_iff, true, none, some,
  List, [], ◌∷◌, ◌++◌, ◌==◌, drop, every,
}
use lakehouse_ingest_bench.Prelude.Strings.{codes, begins_with}
use lakehouse_ingest_bench.Prelude.Parts.{begins_with-Begins}
use lakehouse_ingest_bench.Specs.Env.{is_start, is_word, name_end, name_start, reference}

-- The name of a variable, which a reference holds.
abbrev pub IsReferenceName : List ℕ → Type 0
IsReferenceName [] = ⊥
IsReferenceName (c ∷ name) = (is_start c ≡ true) × (every is_word name ≡ true)

-- A reference to the variable `name`, and the text behind it.
abbrev pub referring : List ℕ → List ℕ → List ℕ
referring name text = codes "${env:" ++ (name ++ (b'}' ∷ text))

-- The text begins with a reference.
abbrev pub BeginsReference : List ℕ → Type 0
BeginsReference text =
    (name : List ℕ) × (after : List ℕ) × IsReferenceName name × (text ≡ referring name after)

-- No reference begins in `before`, with `after` behind it.
abbrev pub NoReference : List ℕ → List ℕ → Type 0
NoReference [] after = Unit
NoReference (c ∷ before) after =
    (¬ BeginsReference (c ∷ (before ++ after))) × NoReference before after

name_end_sound :
    (text name after : List ℕ)
    → name_end text ≡ some (name, after)
    → (every is_word name ≡ true) × (text ≡ name ++ (b'}' ∷ after))
unfolding name_end
name_end_sound [] name after h = absurd (cc h)
name_end_sound (c ∷ text) name after h = elim (Bool-cases (c == b'}')) [
  | inl brace ↦
      let e : some ([], text) ≡ some (name, after) = rw brace at h in
      let no_name : [] ≡ name = cc e in
      let rest : text ≡ after = cc e in
      let first : c ≡ b'}' = (==_iff c b'}').0 brace in
      (rw (sym no_name) refl, rw (sym no_name, sym rest, first) refl)
  | inr inside ↦ elim (Bool-cases (is_word c)) [
    | inr other ↦ absurd (cc (rw (inside, other) at h))
    | inl word ↦ elim (Option-cases (name_end text)) [
      | inl missing ↦ absurd (cc (rw (inside, word, missing) at h))
      | inr ((later, rest), found) ↦
          let e : some (c ∷ later, rest) ≡ some (name, after) = rw (inside, word, found) at h in
          let named : c ∷ later ≡ name = cc e in
          let behind : rest ≡ after = cc e in
          let (words, same) = name_end_sound text later rest found in
          (rw (sym named) (rw (word, words) refl), rw (sym named, sym behind, same) refl)
    ]
  ]
]

begins-drop :
    (text : List ℕ)
    → begins_with text (codes "${env:") ≡ true
    → text ≡ codes "${env:" ++ drop 6 text
begins-drop text h = let (after, same) = begins_with-Begins text (codes "${env:") h in rw same refl

name_start_sound :
    (rest name after : List ℕ)
    → name_start rest ≡ some (name, after)
    → IsReferenceName name × (rest ≡ name ++ (b'}' ∷ after))
unfolding name_start
name_start_sound [] name after h = absurd (cc h)
name_start_sound (c ∷ rest) name after h = elim (Bool-cases (is_start c)) [
  | inr other ↦ absurd (cc (rw other at h))
  | inl start ↦ elim (Option-cases (name_end rest)) [
    | inl missing ↦ absurd (cc (rw (start, missing) at h))
    | inr ((later, behind), found) ↦
        let e : some (c ∷ later, behind) ≡ some (name, after) = rw (start, found) at h in
        let named : c ∷ later ≡ name = cc e in
        let end : behind ≡ after = cc e in
        let (words, same) = name_end_sound rest later behind found in
        (subst IsReferenceName named (start, words), rw (sym named, sym end, same) refl)
  ]
]

-- What is matched is a reference.
pub reference_sound :
    (text name after : List ℕ)
    → reference text ≡ some (name, after)
    → IsReferenceName name × (text ≡ referring name after)
unfolding reference
reference_sound text name after h = elim (Bool-cases (begins_with text (codes "${env:"))) [
  | inr other ↦ absurd (cc (rw other at h))
  | inl begins ↦
      let (named, same) = name_start_sound (drop 6 text) name after (rw begins at h) in
      (named, begins-drop text begins ∙ ap (λ t. codes "${env:" ++ t) same)
]

pub no_reference : (text : List ℕ) → ¬ BeginsReference text → reference text ≡ none
no_reference text h = elim (Option-cases (reference text)) [
  | inl missing ↦ missing
  | inr ((name, after), found) ↦
      let (named, same) = reference_sound text name after found in
      absurd (h (name, after, named, same))
]
