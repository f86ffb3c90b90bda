-- ===== src/Specs/Run/Known.antt =====
-- The keys that a block of a run specification may have.
use lakehouse_ingest_bench.Result.{
  ok, err, value_error, raises, ◌>>=◌, Ensures, returned, returns_it, passes, Ensures-implies,
}
use lakehouse_ingest_bench.Prelude.{
  String, ◌≡◌, refl, ◌⊎◌, inl, inr, true, false, not, Option, none, some, List, [], ◌∷◌, arith, any,
  All,
}
use lakehouse_ingest_bench.Prelude.Strings.{among, keys, lookup}
use lakehouse_ingest_bench.Specs.Yaml.{
  required, required_as, block_at, Yaml, Block, refuse_unknown, as_mapping,
}

-- Every key of the document is one of those that are read.
abbrev pub IsKnown : List String → List String → Type 0
IsKnown allowed names = All (λ key. among key allowed ≡ true) names

-- The block is a mapping, and has none but these keys.
abbrev HasKeys : {F : Type 0} → List String → Yaml F → Type 0
HasKeys {F} allowed value =
    (block : Block F) × (as_mapping value ≡ ok block) × IsKnown allowed (keys block)

-- The block of a document under a name is left out, or has none but these keys.
abbrev pub KnownUnder : {F : Type 0} → Block F → String → List String → Type 0
KnownUnder {F} raw name allowed =
    (lookup name raw ≡ none)
    ⊎ ((value : Yaml F) × (lookup name raw ≡ some value) × HasKeys allowed value)

any-IsKnown :
    (allowed names : List String)
    → any (λ key. not (among key allowed)) names ≡ false
    → IsKnown allowed names
any-IsKnown allowed [] h = tt
any-IsKnown allowed (key ∷ names) h = (ground arith, any-IsKnown allowed names (ground arith))

pub refuse_unknown-IsKnown :
    {F : Type 0} (block : Block F) (allowed : List String)
    → Ensures (λ u. IsKnown allowed (keys block)) (refuse_unknown block allowed)
unfolding refuse_unknown
refuse_unknown-IsKnown block allowed =
    Ensures-implies (λ u. any-IsKnown allowed (keys block)) (passes _)

pub block_at-KnownUnder :
    {F : Type 0} (raw : Block F) (name : String) (allowed : List String)
    → Ensures
        (λ block. IsKnown allowed (keys block) → KnownUnder raw name allowed)
        (block_at raw name)
unfolding block_at as_mapping
block_at-KnownUnder {F} raw name allowed = go (lookup name raw) refl
  where
    go :
        (found : Option (Yaml F))
        → lookup name raw ≡ found
        → Ensures
            (λ block. IsKnown allowed (keys block) → KnownUnder raw name allowed)
            (elim found [ none ↦ ok [] | some value ↦ as_mapping value ])
    go none h = returned (λ known. inl h)
    go (some value) h =
        Ensures-implies (λ block same known. inr (value, h, (block, same, known)))
          (returns_it (as_mapping value))

pub required-KnownUnder :
    {F : Type 0} (raw : Block F) (name : String) (allowed : List String)
    → Ensures
        (λ block. IsKnown allowed (keys block) → KnownUnder raw name allowed)
        (required_as as_mapping raw name)
unfolding required
required-KnownUnder {F} raw name allowed = go (lookup name raw) refl
  where
    go :
        (found : Option (Yaml F))
        → lookup name raw ≡ found
        → Ensures
            (λ block. IsKnown allowed (keys block) → KnownUnder raw name allowed)
            ((elim found [ none ↦ err value_error | some value ↦ ok value ]) >>= as_mapping)
    go none h = raises
    go (some value) h =
        Ensures-implies (λ block same known. inr (value, h, (block, same, known)))
          (returns_it (as_mapping value))
