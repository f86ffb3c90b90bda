-- ===== src/Specs/Env/References.antt =====
-- What the substitution of references makes of a text, whatever number of turns it is given.
use mathlib.Core.Option
use lakehouse_ingest_bench.Result.{Result, ok, err, ◌>>=◌}
use lakehouse_ingest_bench.Prelude.{
  ℕ, zero, suc, ◌≤◌, ◌<◌, ◌≡◌, refl, ap, ◌∙◌, Bool, true, false, Option, none, some, List, [], ◌∷◌,
  ◌++◌, arith, ◌==◌, if◌then◌else◌, length, drop, every, length-drop,
}
use lakehouse_ingest_bench.Prelude.Strings.{codes}
use lakehouse_ingest_bench.Specs.Env.{
  is_start, is_word, name_end, name_start, reference, of_variable, replaced, substituted_from,
  substituted,
}
use lakehouse_ingest_bench.Specs.Env.Matches.{
  IsReferenceName, referring, BeginsReference, NoReference, no_reference,
}

-- A match leaves less of the text.
abbrev IsShorter : ℕ → Option (List ℕ × List ℕ) → Type 0
IsShorter n none = Unit
IsShorter n (some found) = length found.1 < n

if-IsShorter :
    (n : ℕ) (test : Bool) (x y : Option (List ℕ × List ℕ))
    → IsShorter n x
    → IsShorter n y
    → IsShorter n (if test then x else y)
if-IsShorter n true x y h g = h
if-IsShorter n false x y h g = g

map-IsShorter :
    (n m c : ℕ) (x : Option (List ℕ × List ℕ))
    → n ≤ m
    → IsShorter n x
    → IsShorter m (Option.map (λ r. (c ∷ r.0, r.1)) x)
map-IsShorter n m c none h s = tt
map-IsShorter n m c (some found) h s = omega arith

name_end-IsShorter : (text : List ℕ) → IsShorter (length text) (name_end text)
unfolding name_end
name_end-IsShorter [] = tt
name_end-IsShorter (c ∷ text) = if-IsShorter (suc (length text)) (c == b'}') _ _ (omega arith) (
    if-IsShorter (suc (length text)) (is_word c) _ none
      (map-IsShorter (length text) (suc (length text)) c (name_end text) (omega arith)
        (name_end-IsShorter text))
      tt)

name_start-IsShorter : (text : List ℕ) (n : ℕ) → length text ≤ n → IsShorter n (name_start text)
unfolding name_start
name_start-IsShorter [] n h = tt
name_start-IsShorter (c ∷ text) n h =
    if-IsShorter n (is_start c) _ none
      (map-IsShorter (length text) n c (name_end text) (omega arith) (name_end-IsShorter text)) tt

reference-IsShorter : (text : List ℕ) → IsShorter (length text) (reference text)
unfolding reference
reference-IsShorter text =
    if-IsShorter (length text) _ _ none
      (name_start-IsShorter (drop 6 text) (length text) (let l = length-drop 6 text in omega arith))
      tt

name_end-word :
    (name rest : List ℕ)
    → every is_word name ≡ true
    → name_end (name ++ (b'}' ∷ rest)) ≡ some (name, rest)
unfolding name_end
name_end-word [] rest h = refl
name_end-word (c ∷ name) rest h =
    let word : is_word c ≡ true = ground arith in
    let inside : (c == b'}') ≡ false = ground arith in
    rw (inside, word, name_end-word name rest (ground arith)) refl

replaced-same :
    (environ : List ℕ → Option (List ℕ)) (others same : List ℕ → Result (List ℕ)) (n c : ℕ)
    (text : List ℕ) (found : Option (List ℕ × List ℕ))
    → ((rest : List ℕ) → length rest ≤ n → others rest ≡ same rest)
    → length text ≤ n
    → IsShorter (suc n) found
    → replaced environ others c text found ≡ replaced environ same c text found
replaced-same environ others same n c text none agree h s = rw (agree text h) refl
replaced-same environ others same n c text (some found) agree h s =
    rw (agree found.1 (omega arith)) refl

substituted_from-enough :
    (environ : List ℕ → Option (List ℕ)) (turns more : ℕ) (text : List ℕ)
    → length text ≤ turns
    → length text ≤ more
    → substituted_from environ turns text ≡ substituted_from environ more text
unfolding substituted_from
substituted_from-enough environ zero zero text h g = refl
substituted_from-enough environ (suc turns) (suc more) [] h g = refl
substituted_from-enough environ zero (suc more) [] h g = refl
substituted_from-enough environ (suc turns) zero [] h g = refl
substituted_from-enough environ zero (suc more) (c ∷ text) h g = absurd (ground arith)
substituted_from-enough environ (suc turns) zero (c ∷ text) h g = absurd (ground arith)
substituted_from-enough environ (suc turns) (suc more) (c ∷ text) h g =
    replaced-same environ (λ rest. substituted_from environ turns rest)
      (λ rest. substituted_from environ more rest) (length text) c text (reference (c ∷ text))
      (λ rest r. substituted_from-enough environ turns more rest (ground arith) (ground arith))
      (omega arith) (reference-IsShorter (c ∷ text))

onto-ok :
    (before : List ℕ) (c : ℕ) (r : Result (List ℕ))
    → (do all ← (do rest ← r; ok (before ++ rest)); ok (c ∷ all))
      ≡ (r >>= λ rest. ok (c ∷ (before ++ rest)))
onto-ok before c (ok rest) = refl
onto-ok before c (err e) = refl

value-onto :
    (before : List ℕ) (v r : Result (List ℕ))
    → (do all ← (do value ← v; rest ← r; ok (value ++ rest)); ok (before ++ all))
      ≡ (do value ← v; rest ← r; ok (before ++ (value ++ rest)))
value-onto before (ok value) (ok rest) = refl
value-onto before (ok value) (err e) = refl
value-onto before (err e) r = refl

unchanged : (r : Result (List ℕ)) → r ≡ (r >>= λ rest. ok rest)
unchanged (ok rest) = refl
unchanged (err e) = refl

substituted-cons :
    (environ : List ℕ → Option (List ℕ)) (c : ℕ) (text : List ℕ)
    → reference (c ∷ text) ≡ none
    → substituted environ (c ∷ text) ≡ (substituted environ text >>= λ rest. ok (c ∷ rest))
unfolding substituted substituted_from
substituted-cons environ c text h = rw h refl

substituted-plain :
    (environ : List ℕ → Option (List ℕ)) (before text : List ℕ)
    → NoReference before text
    → substituted environ (before ++ text)
      ≡ (substituted environ text >>= λ rest. ok (before ++ rest))
substituted-plain environ [] text h = unchanged (substituted environ text)
substituted-plain environ (c ∷ before) text h =
    substituted-cons environ c (before ++ text) (no_reference (c ∷ (before ++ text)) h.0)
    ∙ ap (λ r. r >>= λ rest. ok (c ∷ rest)) (substituted-plain environ before text h.1)
    ∙ onto-ok before c (substituted environ text)

reference-name :
    (name rest : List ℕ)
    → IsReferenceName name
    → reference (codes "${env:" ++ (name ++ (b'}' ∷ rest))) ≡ some (name, rest)
unfolding reference name_start
reference-name [] rest none_named = absurd none_named
reference-name (c ∷ name) rest (first, later) = rw (first, name_end-word name rest later) refl

pub unmatched : (text : List ℕ) → reference text ≡ none → ¬ BeginsReference text
unmatched text h (name, after, named, same) =
    let found : reference text ≡ some (name, after) =
      ap reference same ∙ reference-name name after named in
    cc (h, found)

length-after : (name text : List ℕ) → length text ≤ length (name ++ (b'}' ∷ text))
length-after [] text = omega arith
length-after (c ∷ name) text = let l = length-after name text in omega arith

substituted-at :
    (environ : List ℕ → Option (List ℕ)) (name text : List ℕ)
    → IsReferenceName name
    → substituted environ (codes "${env:" ++ (name ++ (b'}' ∷ text)))
      ≡ (do value ← of_variable (environ name); rest ← substituted environ text; ok (value ++ rest))
unfolding substituted substituted_from
substituted-at environ name text named =
    let l = length-after name text in
    rw (reference-name name text named) (
      ap (λ r. of_variable (environ name) >>= λ value. r >>= λ rest. ok (value ++ rest))
        (substituted_from-enough environ
          (suc (suc (suc (suc (suc (length (name ++ (b'}' ∷ text)))))))) (length text) text
          (omega arith) (omega arith)))

-- The first reference of a text is replaced by the variable's value, and the text behind it is substituted
-- on its own: the value is not read again. A variable that is not set fails. Nothing before the reference
-- is changed, whatever characters it has, and any number of turns that covers the text gives the same.
pub substituted-reference :
    (environ : List ℕ → Option (List ℕ)) (before name text : List ℕ) (turns : ℕ)
    → NoReference before (referring name text)
    → IsReferenceName name
    → length (before ++ referring name text) ≤ turns
    → substituted_from environ turns (before ++ referring name text) ≡ (do
      value ← of_variable (environ name)
      rest ← substituted environ text
      ok (before ++ (value ++ rest)))
unfolding substituted
substituted-reference environ before name text turns plain named h =
    let whole = before ++ referring name text in
    substituted_from-enough environ turns (length whole) whole h (omega arith)
    ∙ substituted-plain environ before (referring name text) plain
    ∙ ap (λ r. r >>= λ rest. ok (before ++ rest)) (substituted-at environ name text named)
    ∙ value-onto before (of_variable (environ name)) (substituted environ text)
