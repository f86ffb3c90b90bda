-- ===== src/Prelude/Strings.antt =====
-- Texts as keys and as characters, and dictionaries with texts as keys.
use Prim.Native.Char.{code}
use Prim.Native.Nat.{ℕ, ◌+◌}
use Prim.Native.String.{String}
use mathlib.Core.Path.{◌≡◌, refl, ap}
use mathlib.Core.Bool.{Bool, true, false, not, ◌&&◌, ◌||◌}
use mathlib.Core.Option.{Option, none, some}
use mathlib.Core.List.{List, [], ◌∷◌, ◌++◌}
use mathlib.Core.Logic.{inl, inr}
use native.Mathlib.Omega.{arith}
use text.Mathlib.TextEquality.{eq_iff}
use text.Mathlib.Text.{◌==◌ as str_eq}
use lakehouse_ingest_bench.Prelude.Tests.{leb, ◌==◌, if◌then◌else◌, Bool-cases}
use lakehouse_ingest_bench.Prelude.Lists.{any, keep}

-- The characters of a text.
abbrev pub codes : String → List ℕ
codes String.[] = []
codes (String.◌∷◌ c s) = code c ∷ codes s

-- text in names
abbrev pub among : String → List String → Bool
among text names = any (str_eq text) names

-- text.startswith(prefix), and part in text
abbrev pub begins_with : List ℕ → List ℕ → Bool
begins_with text [] = true
begins_with [] (p ∷ part) = false
begins_with (c ∷ text) (p ∷ part) = c == p && begins_with text part

abbrev pub contains : List ℕ → List ℕ → Bool
contains [] part = begins_with [] part
contains (c ∷ text) part = begins_with (c ∷ text) part || contains text part

-- The letters of ASCII in lower case; other characters stay.
abbrev pub lower : ℕ → ℕ
lower c = if leb b'A' c && leb c b'Z' then c + 32 else c

module _ {ℓ} {V : Type ℓ} where
  -- dictionary.get(key)
  abbrev pub lookup : String → List (String × V) → Option V
  lookup key [] = none
  lookup key ((k, v) ∷ entries) = if str_eq k key then some v else lookup key entries

  abbrev pub has_key : String → List (String × V) → Bool
  has_key key entries = elim (lookup key entries) [ none ↦ false | some v ↦ true ]

  abbrev pub keys : List (String × V) → List String
  keys [] = []
  keys ((k, v) ∷ entries) = k ∷ keys entries

  -- dictionary[key] = value: a new key is the last one.
  abbrev pub put : String → V → List (String × V) → List (String × V)
  put key value [] = (key, value) ∷ []
  put key value ((k, v) ∷ entries) =
      if str_eq k key then (k, value) ∷ entries else (k, v) ∷ put key value entries

  -- dictionary.update(others)
  abbrev pub update : List (String × V) → List (String × V) → List (String × V)
  update entries [] = entries
  update entries ((k, v) ∷ others) = update (put k v entries) others

  -- The entries under other keys than these.
  abbrev pub without : List String → List (String × V) → List (String × V)
  without names entries = keep (λ entry. not (among entry.0 names)) entries

  pub lookup-put :
      (key other : String) (value : V) (entries : List (String × V))
      → lookup other (put key value entries)
        ≡ (if str_eq key other then some value else lookup other entries)
  lookup-put key other value [] = refl
  lookup-put key other value ((k, v) ∷ entries) =
      ground
        (arith, eq_iff key other, eq_iff k key, eq_iff k other, lookup-put key other value entries)

  -- The last entry of a key, which `update` leaves.
  abbrev pub last_value : String → List (String × V) → Option V
  last_value key [] = none
  last_value key ((k, v) ∷ entries) = elim (last_value key entries) [
    | some found ↦ some found
    | none ↦ if str_eq k key then some v else none
  ]

  pub lookup-update :
      (key : String) (entries others : List (String × V))
      → lookup key (update entries others)
        ≡ elim (last_value key others) [ some found ↦ some found | none ↦ lookup key entries ]
  lookup-update key entries [] = refl
  lookup-update key entries ((k, v) ∷ others) =
      ground (arith, lookup-update key (put k v entries) others, lookup-put k key v entries)

  pub lookup-without :
      (names : List String) (key : String) (entries : List (String × V))
      → lookup key (without names entries) ≡ (if among key names then none else lookup key entries)
  lookup-without names key [] = ground arith
  lookup-without names key ((k, v) ∷ entries) = elim (Bool-cases (str_eq k key)) [
    | inl same ↦
        let e : k ≡ key = (eq_iff k key).0 same in
        ground (arith, lookup-without names key entries, ap (λ x. among x names) e)
    | inr other ↦ ground (arith, lookup-without names key entries)
  ]

  pub lookup-append :
      (key : String) (xs ys : List (String × V))
      → lookup key (xs ++ ys)
        ≡ elim (lookup key xs) [ some found ↦ some found | none ↦ lookup key ys ]
  lookup-append key [] ys = refl
  lookup-append key ((k, v) ∷ xs) ys = ground (arith, lookup-append key xs ys)
