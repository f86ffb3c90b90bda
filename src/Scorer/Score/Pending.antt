-- ===== src/Scorer/Score/Pending.antt =====
-- The files of a commit that are still to be read, against those that are applied.
use text.Mathlib.Text.{◌==◌ as str_eq}
use text.Mathlib.TextEquality.{eq_iff}
use lakehouse_ingest_bench.Prelude.{
  ℕ, zero, suc, ◌+◌, ◌*◌, ◌≤◌, String, ◌≡◌, refl, ap, inl, inr, true, List, [], ◌∷◌, arith,
  if◌then◌else◌, Bool-cases, sum_by,
}
use lakehouse_ingest_bench.Scorer.Snapshots.{AddedFile}
use lakehouse_ingest_bench.Scorer.Score.Inputs.{has_path, pending_of}

abbrev pub path_occurs : String → List AddedFile → ℕ
path_occurs p = sum_by (λ f. if str_eq p f.path then 1 else 0)

-- Marking a path as applied takes its files out of the pending ones.
pub pending-cons :
    (g : String → ℕ) (p : String) (applied : List String) (files : List AddedFile)
    → sum_by (λ f. g f.path) (pending_of (p ∷ applied) files)
        + path_occurs p (pending_of applied files) * g p
      ≡ sum_by (λ f. g f.path) (pending_of applied files)
pending-cons g p applied [] = omega arith
pending-cons g p applied (f ∷ files) = elim (Bool-cases (has_path applied f.path)) [
  | inl old ↦ ground (arith, pending-cons g p applied files)
  | inr new ↦ elim (Bool-cases (str_eq p f.path)) [
    | inl same ↦
        let e : p ≡ f.path = (eq_iff p f.path).0 same in
        let ge : g p ≡ g f.path = ap g e in
        rw (new, same) (omega (arith, ge, pending-cons g p applied files))
    | inr other ↦ rw (new, other) (omega (arith, pending-cons g p applied files))
  ]
]

-- Any measure of the files is shared out between the applied paths and the pending files.
abbrev pub IsSplit : List AddedFile → List String → Type 0
IsSplit files applied =
    (g : String → ℕ)
    → sum_by g applied + sum_by (λ f. g f.path) (pending_of applied files)
      ≡ sum_by (λ f. g f.path) files

-- The same files, as often, in another order.
abbrev pub SameFiles : List AddedFile → List AddedFile → Type 0
SameFiles xs ys = (g : AddedFile → ℕ) → sum_by g xs ≡ sum_by g ys

abbrev pub DistinctPaths : List AddedFile → Type 0
DistinctPaths files = (p : String) → path_occurs p files ≤ 1

str_eq_refl : (p : String) → str_eq p p ≡ true
str_eq_refl p = (eq_iff p p).1 refl

-- The next file to complete is pending exactly once.
pub pending_once :
    (files : List AddedFile) (applied : List String) (f : AddedFile) (rest : List AddedFile)
    → DistinctPaths files
    → IsSplit files applied
    → ((g : String → ℕ)
        → g f.path + sum_by (λ x. g x.path) rest
          ≡ sum_by (λ x. g x.path) (pending_of applied files))
    → path_occurs f.path (pending_of applied files) ≡ 1
pending_once files applied f rest distinct split same =
    let p = f.path in
    let now = same (λ q. if str_eq p q then 1 else 0) in
    let whole = split (λ q. if str_eq p q then 1 else 0) in
    let own : (if str_eq p p then 1 else 0) ≡ suc zero = rw (str_eq_refl p) in
    omega (arith, now, whole, own, distinct p)

pub IsSplit-cons :
    (files : List AddedFile) (applied : List String) (p : String)
    → path_occurs p (pending_of applied files) ≡ 1
    → IsSplit files applied
    → IsSplit files (p ∷ applied)
IsSplit-cons files applied p once split g =
    let moved = pending-cons g p applied files in
    let one : path_occurs p (pending_of applied files) * g p ≡ 1 * g p = ap (λ n. n * g p) once in
    omega (arith, moved, one, split g)
