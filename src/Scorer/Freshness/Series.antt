-- ===== src/Scorer/Freshness/Series.antt =====
-- The lag series against a direct description, and the grid it is sampled on.
use lakehouse_ingest_bench.Prelude.Floats.{Floats}
use lakehouse_ingest_bench.Prelude.Sorting.{IsSorted, sort_by-IsSorted}
use lakehouse_ingest_bench.Result.{ok}
use lakehouse_ingest_bench.Prelude.{
  ℕ, zero, suc, ◌+◌, ◌-◌, ◌≤◌, ◌<◌, ◌≡◌, refl, sym, ap, ◌≢◌, inl, inr, true, false, Option, none,
  some, List, [], ◌∷◌, map, arith, ltb, leb, ◌==◌, if◌then◌else◌, Bool-cases, last?, All,
}
use lakehouse_ingest_bench.Scorer.Freshness.{
  Observation, ClockName, timestamp, first_seen, unknown, LagRow, Step, steps_by, grid_from,
  grid_points, advance_steps, lag_row, series_from, series_by, lag_series,
}

-- The last of the steps up to `at_ms`, in the order of the list.
abbrev pub latest : ℕ → Option Observation → List Step → Option Observation
latest at_ms current [] = current
latest at_ms current (s ∷ steps) =
    latest at_ms (if leb s.at_ms at_ms then some s.observation else current) steps

abbrev time : Step → ℕ
time s = s.at_ms

-- From `lo` on the points never go back.
abbrev Chain : ℕ → List ℕ → Type 0
Chain lo [] = Unit
Chain lo (p ∷ points) = (lo ≤ p) × Chain p points

latest-later :
    (at_ms lo : ℕ) (current : Option Observation) (steps : List Step)
    → at_ms < lo
    → All (λ s. lo ≤ time s) steps
    → latest at_ms current steps ≡ current
latest-later at_ms lo current [] lt h = refl
latest-later at_ms lo current (s ∷ steps) lt h =
    let late : leb s.at_ms at_ms ≡ false = ground arith in
    rw late (latest-later at_ms lo current steps lt h.1)

advance_steps-latest :
    (at_ms later : ℕ) (current : Option Observation) (steps : List Step)
    → at_ms ≤ later
    → IsSorted time steps
    → ((advance_steps at_ms current steps).0 ≡ latest at_ms current steps)
      × (latest later (advance_steps at_ms current steps).0 (advance_steps at_ms current steps).1
          ≡ latest later current steps)
      × IsSorted time (advance_steps at_ms current steps).1
unfolding advance_steps
advance_steps-latest at_ms later current [] le h = (refl, refl, tt)
advance_steps-latest at_ms later current (s ∷ steps) le h = elim (Bool-cases (leb s.at_ms at_ms)) [
  | inl seen ↦
      let seen_later : leb s.at_ms later ≡ true = ground arith in
      rw (seen, seen_later) (advance_steps-latest at_ms later (some s.observation) steps le h.1)
  | inr ahead ↦
      let e : latest at_ms current steps ≡ current =
        latest-later at_ms s.at_ms current steps (ground arith) h.0 in
      rw ahead (sym e, refl, h)
]

module _ (fl : Floats) (emit_ms : ℕ → Option ℕ) (t0_ms : ℕ) where
  abbrev row_at : List Step → Option Observation → ℕ → LagRow fl.Float
  row_at steps current at_ms = lag_row fl emit_ms t0_ms at_ms (latest at_ms current steps)

  Chain-map :
      (lo : ℕ) (points : List ℕ) (a b : Option Observation) (xs ys : List Step)
      → Chain lo points
      → ((later : ℕ) → lo ≤ later → latest later a xs ≡ latest later b ys)
      → map (row_at xs a) points ≡ map (row_at ys b) points
  Chain-map lo [] a b xs ys c h = refl
  Chain-map lo (p ∷ points) a b xs ys c h =
      let here = ap (lag_row fl emit_ms t0_ms p) (h p c.0) in
      let there = Chain-map p points a b xs ys c.1 (λ later le. h later (omega (arith, c.0))) in cc

  series_from-latest :
      (lo : ℕ) (points : List ℕ) (current : Option Observation) (steps : List Step)
      → Chain lo points
      → IsSorted time steps
      → series_from fl emit_ms t0_ms points current steps ≡ map (row_at steps current) points
  unfolding series_from
  series_from-latest lo [] current steps c h = refl
  series_from-latest lo (p ∷ points) current steps c h =
      let (now, _, sorted) = advance_steps-latest p p current steps (omega arith) h in
      let here = ap (lag_row fl emit_ms t0_ms p) now in
      let rest =
        series_from-latest p points (advance_steps p current steps).0
          (advance_steps p current steps).1 c.1 sorted in
      let moved =
        Chain-map p points (advance_steps p current steps).0 current
          (advance_steps p current steps).1 steps c.1
          (λ later le. (advance_steps-latest p later current steps le h).1) in
      cc

-- The points follow one another, from `lo` on, at most `grid` apart.
abbrev pub Spaced : ℕ → ℕ → List ℕ → Type 0
Spaced grid lo [] = Unit
Spaced grid lo (p ∷ points) = (lo ≤ p) × (p ≤ lo + grid) × Spaced grid p points

last-cons {ℓ} : {A : Type ℓ} (x e : A) (xs : List A) → last? xs ≡ some e → last? (x ∷ xs) ≡ some e
last-cons x e [] h = absurd (cc h)
last-cons x e (y ∷ xs) h = h

grid_from-Spaced :
    (turns lo at_ms end_ms grid : ℕ)
    → lo ≤ at_ms
    → at_ms ≤ lo + grid
    → lo ≤ end_ms
    → end_ms + 1 ≤ at_ms + turns
    → 0 < grid
    → Spaced grid lo (grid_from turns at_ms end_ms grid)
      × (last? (grid_from turns at_ms end_ms grid) ≡ some end_ms)
unfolding grid_from
grid_from-Spaced zero lo at_ms end_ms grid a b c enough g = ((c, omega arith, tt), refl)
grid_from-Spaced (suc turns) lo at_ms end_ms grid a b c enough g =
    elim (Bool-cases (at_ms == end_ms)) [
      | inl ends ↦ rw ends ((c, ground arith, tt), refl)
      | inr more ↦ elim (Bool-cases (ltb end_ms at_ms)) [
        | inl over ↦ rw (more, over) ((c, ground arith, tt), refl)
        | inr inside ↦
            let (spaced, last) =
              grid_from-Spaced turns at_ms (at_ms + grid) end_ms grid (omega arith) (omega arith)
                (ground arith) (omega arith) g in
            rw (more, inside)
              (
                (a, b, spaced),
                last-cons at_ms end_ms (grid_from turns (at_ms + grid) end_ms grid) last,
              )
      ]
    ]

Spaced-Chain :
    (grid lo low : ℕ) (points : List ℕ) → low ≤ lo → Spaced grid lo points → Chain low points
Spaced-Chain grid lo low [] le h = tt
Spaced-Chain grid lo low (p ∷ points) le h =
    (omega (arith, h.0), Spaced-Chain grid p p points (omega arith) h.2)

-- From the start of the run to its end the samples are at most a grid step apart and the last one
-- stands at the end, so that a stall weighs by its length.
pub grid_points-Spaced :
    (t0_ms end_ms grid : ℕ)
    → t0_ms ≤ end_ms
    → 0 < grid
    → Spaced grid t0_ms (grid_points t0_ms end_ms grid)
      × (last? (grid_points t0_ms end_ms grid) ≡ some end_ms)
unfolding grid_points
grid_points-Spaced t0_ms end_ms grid le g =
    grid_from-Spaced (end_ms + 1 - t0_ms) t0_ms t0_ms end_ms grid (omega arith) (omega arith) le
      (omega arith) g

grid_points-Chain : (t0_ms end_ms grid : ℕ) → 0 < grid → Chain 0 (grid_points t0_ms end_ms grid)
grid_points-Chain t0_ms end_ms grid g = elim (Bool-cases (leb t0_ms end_ms)) [
  | inl le ↦
      Spaced-Chain grid t0_ms 0 _ (omega arith)
        (grid_points-Spaced t0_ms end_ms grid (ground arith) g).0
  | inr over ↦
      unfold grid_points grid_from in
      let none_left : end_ms + 1 - t0_ms ≡ 0 = ground arith in rw none_left (omega arith, tt)
]

abbrev pub chosen_time : ClockName → Observation → ℕ
chosen_time first_seen obs = obs.first_seen_ms
chosen_time _ obs = obs.timestamp_ms

-- For a known clock and a positive grid step the series is defined, and at every grid point it
-- shows the latest commit that the chosen clock has made visible by then: the single pass over the
-- sorted commits skips none and takes none too early.
pub lag_series-latest :
    (fl : Floats) (observations : List Observation) (emit_ms : ℕ → Option ℕ) (t0_ms end_ms grid : ℕ)
    (clock : ClockName)
    → clock ≢ unknown
    → 0 < grid
    → lag_series fl observations emit_ms t0_ms end_ms grid clock
      ≡ ok (
          map
            (λ at_ms.
              lag_row fl emit_ms t0_ms at_ms
                (latest at_ms none (steps_by (chosen_time clock) observations)))
            (grid_points t0_ms end_ms grid))
unfolding lag_series series_by
lag_series-latest fl observations emit_ms t0_ms end_ms grid unknown known g = absurd (known refl)
lag_series-latest fl observations emit_ms t0_ms end_ms grid timestamp known g =
    let positive : (grid == 0) ≡ false = ground arith in
    rw positive (
      ap ok (
        series_from-latest fl emit_ms t0_ms 0 _ none _ (grid_points-Chain t0_ms end_ms grid g)
          (sort_by-IsSorted time _)))
lag_series-latest fl observations emit_ms t0_ms end_ms grid first_seen known g =
    let positive : (grid == 0) ≡ false = ground arith in
    rw positive (
      ap ok (
        series_from-latest fl emit_ms t0_ms 0 _ none _ (grid_points-Chain t0_ms end_ms grid g)
          (sort_by-IsSorted time _)))
