-- ===== src/Result.antt =====
-- Python's exceptions as values: the class of what is raised, without its message.
use lakehouse_ingest_bench.Prelude.{
  ◌≡◌, refl, ◌⊎◌, inl, inr, Bool, true, false, if◌then◌else◌, subst, Option, none, some,
}

pub data Error : Type 0 where
  value_error runtime_error assertion_error struct_error not_found read_error : Error

pub data Result {ℓ} (A : Type ℓ) : Type ℓ where
  err : Error → Result A
  ok : A → Result A

-- What follows a statement that raises is skipped.
infixl 5 ◌>>=◌ ◌>>◌
abbrev pub ◌>>=◌ {ℓ κ} : {A : Type ℓ} {B : Type κ} → Result A → (A → Result B) → Result B
err raised >>= rest = err raised
ok value >>= rest = rest value

abbrev pub ◌>>◌ : {A B : Type 0} → Result A → Result B → Result B
check >> rest = check >>= λ passed. rest

-- Statements that return have a first one that returns.
pub bind_returns {ℓ κ} :
    {A : Type ℓ} {B : Type κ} (first : Result A) (rest : A → Result B) {out : B}
    → (first >>= rest) ≡ ok out
    → (value : A) × (first ≡ ok value) × (rest value ≡ ok out)
bind_returns (err raised) rest returned = cc
bind_returns (ok value) rest returned = (value, refl, returned)

pub Result-cases {ℓ} :
    {A : Type ℓ} (r : Result A) → ((a : A) × (r ≡ ok a)) ⊎ ((e : Error) × (r ≡ err e))
Result-cases (ok a) = inl (a, refl)
Result-cases (err e) = inr (e, refl)

pub ok_injective {ℓ} : {A : Type ℓ} {a b : A} → ok a ≡ ok b → a ≡ b
ok_injective h = cc h

-- if test: raise ValueError
abbrev pub refuse : Bool → Result (Unit {0})
refuse test = if test then err value_error else ok tt

-- `P` holds of what statements return; what they raise is left open.
pub data Ensures {A : Type 0} (P : A → Type 0) : Result A → Type 0 where
  raises : {e : Error} → Ensures P (err e)
  returned : {value : A} → P value → Ensures P (ok value)

module _ {A : Type 0} {P : A → Type 0} where
  infixl 1 ◌⊳◌
  pub ◌⊳◌ :
      {B : Type 0} {Q : B → Type 0} {first : Result A} {rest : A → Result B}
      → Ensures P first
      → ((value : A) → P value → Ensures Q (rest value))
      → Ensures Q (first >>= rest)
  raises ⊳ later = raises
  returned {value} p ⊳ later = later value p

  pub Ensures-ok : {value : A} → Ensures P (ok value) → P value
  Ensures-ok (returned p) = p

-- Nothing is known of a value, which is one of those that are returned.
pub returns_it : {A : Type 0} (r : Result A) → Ensures (λ value. r ≡ ok value) r
returns_it (ok value) = returned refl
returns_it (err e) = raises

pub passes : (test : Bool) → Ensures (λ u. test ≡ false) (refuse test)
passes true = raises
passes false = returned refl

-- What follows from `P` is ensured too.
pub Ensures-implies :
    {A : Type 0} {P Q : A → Type 0} {r : Result A}
    → ((value : A) → P value → Q value)
    → Ensures P r
    → Ensures Q r
Ensures-implies imply raises = raises
Ensures-implies imply (returned {value} p) = returned (imply value p)

-- What holds of the results holds of a result that is known.
pub Ensures-at :
    {A : Type 0} {P : A → Type 0} {r : Result A} {value : A} → Ensures P r → r ≡ ok value → P value
Ensures-at {P} all h = Ensures-ok (subst (λ r. Ensures P r) h all)

-- raise AssertionError unless the test holds
abbrev pub expect : Bool → Result (Unit {0})
expect test = if test then ok tt else err assertion_error

pub holds : (test : Bool) → Ensures (λ u. test ≡ true) (expect test)
holds true = returned refl
holds false = raises

-- An entry that must be there: a missing one is refused.
unfoldable pub found : {V : Type 0} → Option V → Result V
found none = err value_error
found (some value) = ok value

-- What is looked up by a key or an index, which raises if it is not there.
abbrev pub from_some : {A : Type 0} → Option A → Result A
from_some none = err not_found
from_some (some a) = ok a
