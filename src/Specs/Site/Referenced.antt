-- ===== src/Specs/Site/Referenced.antt =====
-- Properties that name a credential, and what `refuse_literal_secrets` says of them.
use lakehouse_ingest_bench.Result.{Ensures, Ensures-implies, passes}
use lakehouse_ingest_bench.Prelude.{
  ℕ, ◌⊎◌, inl, inr, Bool-cases, Option-cases, String, ◌≡◌, refl, ap, map, ◌++◌, true, false, not,
  ◌&&◌, List, [], ◌∷◌, arith, not-false, any, All,
}
use lakehouse_ingest_bench.Prelude.Strings.{codes, contains, lower}
use lakehouse_ingest_bench.Prelude.Parts.{Holds, contains-Holds}
use lakehouse_ingest_bench.Specs.Env.Matches.{BeginsReference, reference_sound}
use lakehouse_ingest_bench.Specs.Env.{
  names_a_secret, reference, placeholder_in, has_placeholder, refuse_literal_secrets,
}

-- The words by which a property names a credential.
abbrev credential_words : List String
credential_words = "token" ∷ "credential" ∷ "secret" ∷ "password" ∷ "auth_user_info" ∷ []

-- A reference to the environment stands in the text.
abbrev HoldsReference : List ℕ → Type 0
HoldsReference text =
    (before : List ℕ) × (after : List ℕ) × (text ≡ before ++ after) × BeginsReference after

-- The property's name, in lower case, has none of the words, or its value has a reference.
abbrev pub IsReferenced : String × String → Type 0
IsReferenced entry =
    All (λ word. ¬ Holds (codes word) (map lower (codes entry.0))) credential_words
    ⊎ HoldsReference (codes entry.1)

pub contains-false : (part text : List ℕ) → contains text part ≡ false → ¬ Holds part text
contains-false part text h held = cc (h, contains-Holds part text held)

any-Holds :
    (words : List String) (text : List ℕ)
    → any (λ word. contains text (codes word)) words ≡ false
    → All (λ word. ¬ Holds (codes word) text) words
any-Holds [] text h = tt
any-Holds (word ∷ words) text h =
    (contains-false (codes word) text (ground arith), any-Holds words text (ground arith))

names_none :
    (key : String)
    → names_a_secret key ≡ false
    → All (λ word. ¬ Holds (codes word) (map lower (codes key))) credential_words
unfolding names_a_secret
names_none key h = any-Holds credential_words (map lower (codes key)) h

placeholder_in-HoldsReference : (text : List ℕ) → placeholder_in text ≡ true → HoldsReference text
unfolding placeholder_in
placeholder_in-HoldsReference [] h = absurd (cc h)
placeholder_in-HoldsReference (c ∷ text) h = elim (Option-cases (reference (c ∷ text))) [
  | inr ((name, after), found) ↦
      let (named, same) = reference_sound (c ∷ text) name after found in
      ([], c ∷ text, refl, (name, after, named, same))
  | inl missing ↦
      let (before, after, same, begins) = placeholder_in-HoldsReference text (rw missing at h) in
      (c ∷ before, after, ap (λ t. c ∷ t) same, begins)
]

has_placeholder-HoldsReference :
    (value : String) → has_placeholder value ≡ true → HoldsReference (codes value)
unfolding has_placeholder
has_placeholder-HoldsReference value h = placeholder_in-HoldsReference (codes value) h

refused-IsReferenced :
    (values : List (String × String))
    → any (λ entry. names_a_secret entry.0 && not (has_placeholder entry.1)) values ≡ false
    → All IsReferenced values
refused-IsReferenced [] h = tt
refused-IsReferenced (entry ∷ values) h = (
  elim (Bool-cases (names_a_secret entry.0)) [
    | inl secret ↦ inr (
        has_placeholder-HoldsReference entry.1 (not-false (has_placeholder entry.1) (ground arith)))
    | inr other ↦ inl (names_none entry.0 other)
  ],
  refused-IsReferenced values (ground arith),
)

pub literal-IsReferenced :
    (values : List (String × String))
    → Ensures (λ u. All IsReferenced values) (refuse_literal_secrets values)
unfolding refuse_literal_secrets
literal-IsReferenced values =
    Ensures-implies (λ u. refused-IsReferenced values)
      (passes (any (λ entry. names_a_secret entry.0 && not (has_placeholder entry.1)) values))
