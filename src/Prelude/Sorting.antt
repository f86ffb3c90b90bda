-- ===== src/Prelude/Sorting.antt =====
-- Python's stable `sorted` by a numeric key.
use Prim.Native.Nat.{ℕ, ◌+◌, ◌≤◌}
use mathlib.Core.Path.{◌≡◌, refl}
use mathlib.Core.List.{List, [], ◌∷◌}
use native.Mathlib.Omega.{arith}
use mathlib.Core.Logic.{inl, inr}
use lakehouse_ingest_bench.Prelude.Tests.{leb, if◌then◌else◌, Bool-cases}
use lakehouse_ingest_bench.Prelude.Lists.{sum_by, All}

module _ {ℓ} {A : Type ℓ} (key : A → ℕ) where
  -- In front of the first element whose key is not smaller: of equal keys the earlier stays first.
  unfoldable pub insert : A → List A → List A
  insert a [] = a ∷ []
  insert a (x ∷ xs) = if leb (key a) (key x) then a ∷ x ∷ xs else x ∷ insert a xs

  unfoldable pub sort_by : List A → List A
  unfolding insert
  sort_by [] = []
  sort_by (x ∷ xs) = insert x (sort_by xs)

  abbrev pub IsSorted : List A → Type 0
  IsSorted [] = Unit
  IsSorted (x ∷ xs) = All (λ y. key x ≤ key y) xs × IsSorted xs

  sum_by-insert : (f : A → ℕ) (a : A) (xs : List A) → sum_by f (insert a xs) ≡ f a + sum_by f xs
  unfolding insert
  sum_by-insert f a [] = refl
  sum_by-insert f a (x ∷ xs) = ground (arith, sum_by-insert f a xs)

  -- Sorting keeps every element, as often as it is there: any measure adds up to the same.
  pub sum_by-sort_by : (f : A → ℕ) (xs : List A) → sum_by f (sort_by xs) ≡ sum_by f xs
  unfolding sort_by
  sum_by-sort_by f [] = refl
  sum_by-sort_by f (x ∷ xs) = omega (arith, sum_by-insert f x (sort_by xs), sum_by-sort_by f xs)

  All-insert : (P : A → Type 0) (a : A) (xs : List A) → P a → All P xs → All P (insert a xs)
  unfolding insert
  All-insert P a [] p h = (p, tt)
  All-insert P a (x ∷ xs) p h = elim (Bool-cases (leb (key a) (key x))) [
    | inl before ↦ rw before (p, h)
    | inr behind ↦ rw behind (h.0, All-insert P a xs p h.1)
  ]

  All-below : (n m : ℕ) (xs : List A) → n ≤ m → All (λ y. m ≤ key y) xs → All (λ y. n ≤ key y) xs
  All-below n m [] le h = tt
  All-below n m (x ∷ xs) le h = (omega (arith, h.0), All-below n m xs le h.1)

  insert-IsSorted : (a : A) (xs : List A) → IsSorted xs → IsSorted (insert a xs)
  unfolding insert
  insert-IsSorted a [] h = (tt, tt)
  insert-IsSorted a (x ∷ xs) h = elim (Bool-cases (leb (key a) (key x))) [
    | inl before ↦
        let le : key a ≤ key x = ground arith in
        rw before ((le, All-below (key a) (key x) xs le h.0), h)
    | inr behind ↦
        rw behind
          (All-insert (λ y. key x ≤ key y) a xs (ground arith) h.0, insert-IsSorted a xs h.1)
  ]

  pub sort_by-IsSorted : (xs : List A) → IsSorted (sort_by xs)
  unfolding sort_by
  sort_by-IsSorted [] = tt
  sort_by-IsSorted (x ∷ xs) = insert-IsSorted x (sort_by xs) (sort_by-IsSorted xs)

  pub All-sort_by : (P : A → Type 0) (xs : List A) → All P xs → All P (sort_by xs)
  unfolding sort_by
  All-sort_by P [] h = tt
  All-sort_by P (x ∷ xs) h = All-insert P x (sort_by xs) h.0 (All-sort_by P xs h.1)
