-- ===== src/Scorer/Freshness.antt =====
-- ingest_bench/scorer/freshness.py. Times are milliseconds since 1970, so they are natural numbers;
-- differences are integers and lags are floats (`Floats`). `watermark` is the source's `prefix` plus
-- one, so that -1 is 0.
pub mod Series
pub mod Verdict
pub mod Skew
use mathlib.Core.Option
use lakehouse_ingest_bench.Prelude.Floats.{Floats}
use lakehouse_ingest_bench.Prelude.Sorting.{sort_by}
use lakehouse_ingest_bench.Prelude.Search.{member}
use lakehouse_ingest_bench.Prelude.Int.{sub_ℕ}
use lakehouse_ingest_bench.Result.{value_error, Result, ok, err, ◌>>=◌}
use lakehouse_ingest_bench.Prelude.{
  ℕ, zero, suc, ◌+◌, ◌-◌, ◌*◌, Bool, true, false, not, ◌&&◌, Option, none, some, List, [], ◌∷◌, map,
  ltb, leb, ◌==◌, if◌then◌else◌, keep, last?,
}

pub record Observation : Type 0 where
  pub timestamp_ms : ℕ
  pub first_seen_ms : ℕ
  pub watermark : ℕ

-- TIMESTAMP_CLOCK, FIRST_SEEN_CLOCK, and any other name
pub data ClockName : Type 0 where
  timestamp first_seen unknown : ClockName

-- One sample; `lag_s` is missing when the batch has no emit time.
pub record LagRow (F : Type 0) : Type 0 where
  pub at_ms : ℕ
  pub watermark : ℕ
  pub lag_s : Option F

pub record Step : Type 0 where
  pub at_ms : ℕ
  pub observation : Observation

abbrev pub steps_by : (Observation → ℕ) → List Observation → List Step
steps_by time observations =
    sort_by (λ s. s.at_ms)
      (map (λ obs. record { at_ms = time obs; observation = obs }) observations)

-- range(at, end + 1, grid), with a turn for each millisecond, and the end appended.
unfoldable pub grid_from : ℕ → ℕ → ℕ → ℕ → List ℕ
grid_from zero at_ms end_ms grid = end_ms ∷ []
grid_from (suc turns) at_ms end_ms grid =
    let rest = grid_from turns (at_ms + grid) end_ms grid in
    if at_ms == end_ms then end_ms ∷ [] else if ltb end_ms at_ms then end_ms ∷ [] else at_ms ∷ rest

unfoldable pub grid_points : ℕ → ℕ → ℕ → List ℕ
unfolding grid_from
grid_points t0_ms end_ms grid = grid_from (end_ms + 1 - t0_ms) t0_ms end_ms grid

-- The `while` over the steps: those up to `at_ms` are passed, the last of them is current.
unfoldable pub advance_steps : ℕ → Option Observation → List Step → Option Observation × List Step
advance_steps at_ms current [] = (current, [])
advance_steps at_ms current (s ∷ steps) =
    if leb s.at_ms at_ms
    then advance_steps at_ms (some s.observation) steps
    else (current, s ∷ steps)

abbrev pub watermark_of : Option Observation → ℕ
watermark_of none = 0
watermark_of (some obs) = obs.watermark

-- emit_ms.get(prefix) if prefix >= 0 else t0_ms
abbrev pub reference_ms : (ℕ → Option ℕ) → ℕ → ℕ → Option ℕ
reference_ms emit_ms t0_ms zero = some t0_ms
reference_ms emit_ms t0_ms (suc prefix) = emit_ms prefix

pub record Quantiles (F : Type 0) : Type 0 where
  pub p50_s : F
  pub p95_s : F
  pub p99_s : F
  pub max_s : F

pub record FreshnessResult (F : Type 0) : Type 0 where
  pub window : Option (Quantiles F)
  pub full : Option (Quantiles F)
  pub verdict : Bool
  pub drained : Bool
  pub bound_s : F
  pub max_bound_s : F
  pub warmup_s : ℕ
  pub clock : ClockName
  pub clock_skew_suspected : Bool
  pub min_lag_s : Option F
  pub missing_emit_prefixes : List ℕ

-- sorted(set(xs))
unfoldable pub distinct : List ℕ → List ℕ
distinct [] = []
distinct (x ∷ xs) = let rest = distinct xs in if member x xs then rest else x ∷ rest

abbrev pub is_empty_list : List ℕ → Bool
is_empty_list [] = true
is_empty_list (x ∷ xs) = false

abbrev pub is_drained : List Observation → ℕ → Bool
is_drained observations last = elim (last? observations) [
  | none ↦ false
  | some obs ↦ obs.watermark == last
]

module _ (fl : Floats) where
  open fl use {Float, le, origin, div, twice, percentile, maximum}

  unfoldable pub lag_row : (ℕ → Option ℕ) → ℕ → ℕ → Option Observation → LagRow Float
  lag_row emit_ms t0_ms at_ms current = record {
    at_ms = at_ms;
    watermark = watermark_of current;
    lag_s =
        Option.map (λ ms. div (sub_ℕ at_ms ms) 1000)
          (reference_ms emit_ms t0_ms (watermark_of current));
  }

  unfoldable pub series_from :
      (ℕ → Option ℕ) → ℕ → List ℕ → Option Observation → List Step → List (LagRow Float)
  unfolding lag_row advance_steps
  series_from emit_ms t0_ms [] current steps = []
  series_from emit_ms t0_ms (at_ms ∷ points) current steps =
      let (current', steps') = advance_steps at_ms current steps in
      lag_row emit_ms t0_ms at_ms current' ∷ series_from emit_ms t0_ms points current' steps'

  unfoldable pub series_by :
      (Observation → ℕ) → List Observation → (ℕ → Option ℕ) → ℕ → ℕ → ℕ → List (LagRow Float)
  unfolding series_from
  series_by time observations emit_ms t0_ms end_ms grid =
      series_from emit_ms t0_ms (grid_points t0_ms end_ms grid) none (steps_by time observations)

  -- `range` refuses a step of zero.
  unfoldable pub lag_series :
      List Observation → (ℕ → Option ℕ) → ℕ → ℕ → ℕ → ClockName → Result (List (LagRow Float))
  lag_series observations emit_ms t0_ms end_ms grid unknown = err value_error
  lag_series observations emit_ms t0_ms end_ms grid timestamp =
      if grid == 0
      then err value_error
      else ok (series_by (λ obs. obs.timestamp_ms) observations emit_ms t0_ms end_ms grid)
  lag_series observations emit_ms t0_ms end_ms grid first_seen =
      if grid == 0
      then err value_error
      else ok (series_by (λ obs. obs.first_seen_ms) observations emit_ms t0_ms end_ms grid)

  abbrev pub is_missing : LagRow Float → Bool
  is_missing row = elim row.lag_s [ none ↦ true | some lag ↦ false ]

  unfoldable pub missing_emit_prefixes : List (LagRow Float) → List ℕ
  missing_emit_prefixes series =
      sort_by (λ n. n) (distinct (map (λ row. row.watermark - 1) (keep is_missing series)))

  unfoldable pub lags_of : List (LagRow Float) → Option (List Float)
  lags_of [] = some []
  lags_of (row ∷ series) = elim row.lag_s [
    | none ↦ none
    | some lag ↦ Option.map (λ lags. lag ∷ lags) (lags_of series)
  ]

  -- `none` stands for the quantiles of `_no_quantiles`, all missing.
  unfoldable pub quantiles_of : Option (List Float) → Option (Quantiles Float)
  quantiles_of none = none
  quantiles_of (some []) = none
  quantiles_of (some (lag ∷ lags)) = some (record {
    p50_s = percentile (lag ∷ lags) 50;
    p95_s = percentile (lag ∷ lags) 95;
    p99_s = percentile (lag ∷ lags) 99;
    max_s = maximum (lag ∷ lags);
  })

  unfoldable pub lag_quantiles : List (LagRow Float) → Option (Quantiles Float)
  unfolding lags_of quantiles_of
  lag_quantiles series = quantiles_of (lags_of series)

  abbrev pub observation_lag : (ℕ → Option ℕ) → Observation → Option Float
  observation_lag emit_ms obs = elim obs.watermark [
    | zero ↦ none
    | suc prefix ↦ Option.map (λ ms. div (sub_ℕ obs.timestamp_ms ms) 1000) (emit_ms prefix)
  ]

  -- `_observation_lags_s` and the `min` over it: the first of the least.
  unfoldable pub least : Option Float → List Float → Option Float
  least least_yet [] = least_yet
  least none (x ∷ xs) = least (some x) xs
  least (some m) (x ∷ xs) = least (some (if le m x then m else x)) xs

  unfoldable pub observation_lags_s : List Observation → (ℕ → Option ℕ) → List Float
  observation_lags_s [] emit_ms = []
  observation_lags_s (obs ∷ observations) emit_ms =
      let rest = observation_lags_s observations emit_ms in
      elim (observation_lag emit_ms obs) [ none ↦ rest | some lag ↦ lag ∷ rest ]

  unfoldable pub min_observation_lag_s : List Observation → (ℕ → Option ℕ) → Option Float
  unfolding least observation_lags_s
  min_observation_lag_s observations emit_ms = least none (observation_lags_s observations emit_ms)

  abbrev pub is_negative : Option Float → Bool
  is_negative none = false
  is_negative (some lag) = not (le origin lag)

  unfoldable pub clock_skew_suspected : List Observation → (ℕ → Option ℕ) → Bool
  unfolding min_observation_lag_s
  clock_skew_suspected observations emit_ms =
      is_negative (min_observation_lag_s observations emit_ms)

  -- `[...] or series[-1:]`
  abbrev pub or_last : List (LagRow Float) → List (LagRow Float) → List (LagRow Float)
  or_last [] series = elim (last? series) [ none ↦ [] | some row ↦ row ∷ [] ]
  or_last (row ∷ rows) series = row ∷ rows

  abbrev pub window_of : ℕ → List (LagRow Float) → List (LagRow Float)
  window_of start series = or_last (keep (λ row. leb start row.at_ms) series) series

  abbrev pub in_bounds : Float → Option (Quantiles Float) → Bool
  in_bounds bound_s none = false
  in_bounds bound_s (some q) = le q.p95_s bound_s && le q.max_s (twice bound_s)

  -- `last` is the source's `last_batch` plus one, like a watermark.
  unfoldable pub freshness_result :
      (observations : List Observation) (emit_ms : ℕ → Option ℕ) (epoch_ms end_ms last warmup_s : ℕ)
      (bound_s : Float) (grid : ℕ) (clock : ClockName)
      → Result (FreshnessResult Float)
  freshness_result observations emit_ms epoch_ms end_ms last warmup_s bound_s grid clock = do
    series ← lag_series observations emit_ms epoch_ms end_ms grid clock
    let window = window_of (epoch_ms + warmup_s * 1000) series
    let missing = missing_emit_prefixes series
    ok (record {
      window = lag_quantiles window;
      full = lag_quantiles series;
      verdict =
          is_drained observations last
          && is_empty_list missing
          && in_bounds bound_s (lag_quantiles window);
      drained = is_drained observations last;
      bound_s = bound_s;
      max_bound_s = twice bound_s;
      warmup_s = warmup_s;
      clock = clock;
      clock_skew_suspected = clock_skew_suspected observations emit_ms;
      min_lag_s = min_observation_lag_s observations emit_ms;
      missing_emit_prefixes = missing;
    })
