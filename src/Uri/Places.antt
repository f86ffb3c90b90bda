-- ===== src/Uri/Places.antt =====
-- Where a joined URI stands.
use Prim.Native.Char.{Char, code}
use Prim.Native.String.{String, ◌++◌ as ◌text_append◌}
use mathlib.Core.List.{append_assoc}
use text.Mathlib.TextLemmas.{nil-append, cons-append}
use lakehouse_ingest_bench.Prelude.{
  ℕ, ◌≡◌, ◌⊎◌, inl, inr, refl, sym, ap, ◌∙◌, true, false, ◌||◌, List, [], ◌∷◌, ◌++◌, arith, ◌==◌,
}
use lakehouse_ingest_bench.Prelude.Strings.{codes, begins_with, contains}
use lakehouse_ingest_bench.Prelude.Parts.{Begins, contains-Holds}
use lakehouse_ingest_bench.Uri.{unless_slash, right_trimmed, left_trimmed, join}

codes-append : (a b : String) → codes (a text_append b) ≡ codes a ++ codes b
codes-append String.[] b = ap codes (nil-append b)
codes-append (String.◌∷◌ c a) b =
    ap codes (cons-append c a b) ∙ ap (λ t. code c ∷ t) (codes-append a b)

-- A path from the root, or a scheme with more than slashes behind it.
abbrev pub IsPlace : String → Type 0
IsPlace uri =
    Begins (codes "/") (codes uri)
    ⊎ ((scheme : List ℕ) × (middle : List ℕ) × (c : ℕ) × (after : List ℕ) × (codes uri
          ≡ scheme ++ (codes "://" ++ (middle ++ (c ∷ after))))
        × ((c == b'/') ≡ false))

unless_slash-other :
    (c : Char) (text : String)
    → (code c == b'/') ≡ false
    → (after : List ℕ) × (codes (unless_slash c text) ≡ code c ∷ after)
unless_slash-other c String.[] h = ([], rw h refl)
unless_slash-other c (String.◌∷◌ d text) h = (codes (String.◌∷◌ d text), refl)

unless_slash-behind :
    (c : Char) (text : String) (d : ℕ) (after : List ℕ)
    → codes text ≡ d ∷ after
    → codes (unless_slash c text) ≡ code c ∷ codes text
unless_slash-behind c String.[] d after h = absurd (cc h)
unless_slash-behind c (String.◌∷◌ e text) d after h = refl

-- What stands up to a character that is no slash is kept.
right_trimmed-keeps :
    (before : List ℕ) (c : ℕ) (after : List ℕ) (text : String)
    → codes text ≡ before ++ (c ∷ after)
    → (c == b'/') ≡ false
    → (rest : List ℕ) × (codes (right_trimmed text) ≡ before ++ (c ∷ rest))
right_trimmed-keeps [] c after String.[] h other = absurd (cc h)
right_trimmed-keeps (x ∷ before) c after String.[] h other = absurd (cc h)
right_trimmed-keeps [] c after (String.◌∷◌ d text) h other =
    let first : code d ≡ c = cc h in
    let (rest, same) =
      unless_slash-other d (right_trimmed text) (ap (λ x. x == b'/') first ∙ other) in
    (rest, same ∙ ap (λ x. x ∷ rest) first)
right_trimmed-keeps (x ∷ before) c after (String.◌∷◌ d text) h other =
    let first : code d ≡ x = cc h in
    let (rest, same) = right_trimmed-keeps before c after text (cc h) other in
    (rest, pushed d (right_trimmed text) before rest same ∙ rw (first, same) refl)
  where
    pushed :
        (d : Char) (text : String) (before rest : List ℕ)
        → codes text ≡ before ++ (c ∷ rest)
        → codes (unless_slash d text) ≡ code d ∷ codes text
    pushed d text [] rest h = unless_slash-behind d text c rest h
    pushed d text (y ∷ before) rest h = unless_slash-behind d text y (before ++ (c ∷ rest)) h

-- What begins with a slash still does, with a slash behind it.
right_trimmed-slash :
    (text : String) (after : List ℕ)
    → codes text ≡ b'/' ∷ after
    → begins_with (codes (right_trimmed text) ++ codes "/") (codes "/") ≡ true
right_trimmed-slash String.[] after h = absurd (cc h)
right_trimmed-slash (String.◌∷◌ c text) after h = go (right_trimmed text)
  where
    go : (rest : String) → begins_with (codes (unless_slash c rest) ++ codes "/") (codes "/") ≡ true
    go String.[] =
        let first : code c ≡ b'/' = cc h in
        let test : (code c == b'/') ≡ true = ap (λ x. x == b'/') first in rw test refl
    go (String.◌∷◌ d rest) =
        let first : code c ≡ b'/' = cc h in
        let test : (code c == b'/') ≡ true = ap (λ x. x == b'/') first in rw test refl

begins_with-longer :
    (text after : List ℕ)
    → begins_with text (codes "/") ≡ true
    → begins_with (text ++ after) (codes "/") ≡ true
begins_with-longer [] after h = absurd (cc h)
begins_with-longer (c ∷ text) after h = ground (arith, h)

codes-join :
    (uri part : String)
    → codes (join uri (part ∷ []))
      ≡ codes (right_trimmed uri) ++ (codes "/" ++ codes (right_trimmed (left_trimmed part)))
unfolding join
codes-join uri part =
    codes-append (right_trimmed uri text_append "/") (right_trimmed (left_trimmed part))
    ∙ ap (λ t. t ++ codes (right_trimmed (left_trimmed part)))
        (codes-append (right_trimmed uri) "/")
    ∙ append_assoc (codes (right_trimmed uri)) (codes "/")
        (codes (right_trimmed (left_trimmed part)))

-- What is joined to a place begins with a slash or has a scheme.
pub join-IsPlace :
    (uri part : String)
    → IsPlace uri
    → begins_with (codes (join uri (part ∷ []))) (codes "/")
        || contains (codes (join uri (part ∷ []))) (codes "://")
      ≡ true
join-IsPlace uri part (inl (after, same)) =
    let begins =
      begins_with-longer (codes (right_trimmed uri) ++ codes "/")
        (codes (right_trimmed (left_trimmed part))) (right_trimmed-slash uri after same) in
    let joined =
      codes-join uri part
      ∙ sym (
          append_assoc (codes (right_trimmed uri)) (codes "/")
            (codes (right_trimmed (left_trimmed part)))) in
    let here : begins_with (codes (join uri (part ∷ []))) (codes "/") ≡ true =
      ap (λ t. begins_with t (codes "/")) joined ∙ begins in
    rw here refl
join-IsPlace uri part (inr (scheme, middle, c, after, same, other)) =
    let tail = codes "/" ++ codes (right_trimmed (left_trimmed part)) in
    let (rest, kept) =
      right_trimmed-keeps (scheme ++ (codes "://" ++ middle)) c after uri
        (same
          ∙ ap (λ t. scheme ++ t) (sym (append_assoc (codes "://") middle (c ∷ after)))
          ∙ sym (append_assoc scheme (codes "://" ++ middle) (c ∷ after)))
        other in
    let whole : codes (join uri (part ∷ []))
        ≡ scheme ++ (codes "://" ++ (middle ++ ((c ∷ rest) ++ tail))) =
      codes-join uri part
      ∙ ap (λ t. t ++ tail) kept
      ∙ append_assoc (scheme ++ (codes "://" ++ middle)) (c ∷ rest) tail
      ∙ append_assoc scheme (codes "://" ++ middle) ((c ∷ rest) ++ tail)
      ∙ ap (λ t. scheme ++ t) (append_assoc (codes "://") middle ((c ∷ rest) ++ tail)) in
    let found : contains (codes (join uri (part ∷ []))) (codes "://") ≡ true =
      contains-Holds (codes "://") (codes (join uri (part ∷ [])))
        (scheme, middle ++ ((c ∷ rest) ++ tail), whole) in
    ground (arith, found)
