-- ===== src/Prelude/Parts.antt =====
-- Parts of texts, as an equation with what stands around them.
use lakehouse_ingest_bench.Prelude.{ℕ, ◌≡◌, refl, ap, true, List, [], ◌∷◌, ◌++◌, arith}
use lakehouse_ingest_bench.Prelude.Strings.{begins_with, contains}

-- The text begins with the part.
abbrev pub Begins : List ℕ → List ℕ → Type 0
Begins part text = (after : List ℕ) × (text ≡ part ++ after)

-- The part stands somewhere in the text.
abbrev pub Holds : List ℕ → List ℕ → Type 0
Holds part text = (before : List ℕ) × (after : List ℕ) × (text ≡ before ++ (part ++ after))

pub begins_with-append : (part after : List ℕ) → begins_with (part ++ after) part ≡ true
begins_with-append [] [] = refl
begins_with-append [] (c ∷ after) = refl
begins_with-append (p ∷ part) after = ground (arith, begins_with-append part after)

pub begins_with-Begins : (text part : List ℕ) → begins_with text part ≡ true → Begins part text
begins_with-Begins [] [] h = ([], refl)
begins_with-Begins (c ∷ text) [] h = (c ∷ text, refl)
begins_with-Begins [] (p ∷ part) h = absurd (cc h)
begins_with-Begins (c ∷ text) (p ∷ part) h =
    let (after, same) = begins_with-Begins text part (ground arith) in
    let first : c ≡ p = ground arith in (after, rw first (ap (λ t. p ∷ t) same))

contains-behind :
    (before text part : List ℕ) → contains text part ≡ true → contains (before ++ text) part ≡ true
contains-behind [] text part h = h
contains-behind (c ∷ before) text part h = ground (arith, contains-behind before text part h)

contains-begins : (text part : List ℕ) → begins_with text part ≡ true → contains text part ≡ true
contains-begins [] part h = h
contains-begins (c ∷ text) part h = rw h refl

-- A part that is there is found.
pub contains-Holds : (part text : List ℕ) → Holds part text → contains text part ≡ true
contains-Holds part text (before, after, same) = rw same (
    contains-behind before (part ++ after) part
      (contains-begins (part ++ after) part (begins_with-append part after)))
