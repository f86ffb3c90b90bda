-- ===== src/Scorer/Gate.antt =====
-- ingest_bench/scorer/gate.py. The summary gives `aborted` and `lag_s`, the latter a number or
-- none. `age_s > stale_after_s` is compared in milliseconds, which the division by 1000 respects.
pub mod Floors
pub mod Sound
use lakehouse_ingest_bench.Prelude.Floats.{Floats}
use lakehouse_ingest_bench.Prelude.{
  ℕ, ◌+◌, ◌*◌, Bool, false, not, ◌&&◌, Option, none, some, List, [], ◌∷◌, map, ltb, leb,
  if◌then◌else◌, keep, range,
}
use lakehouse_ingest_bench.Scorer.Keepup.{KeepupSample, max_of, min_of}

-- PASS, UNDERSIZED and VOID, each with the reason that the source words.
pub data Verdict : Type 0 where
  void_aborted void_no_sample void_stale void_no_recent : Verdict
  undersized_lag undersized_backlog : Verdict
  pass_waiting pass_running : Verdict

abbrev pub floor_windows : ℕ
floor_windows = 3

-- The samples of the window `index` steps back: `lower_ms <= at_ms < upper_ms`.
abbrev pub in_window : ℕ → ℕ → ℕ → ℕ → Bool
in_window now_ms step_ms index at_ms =
    leb now_ms (at_ms + (index + 1) * step_ms) && ltb (at_ms + index * step_ms) now_ms

module _ {F : Type 0} where
  unfoldable pub backlog_floor : List (KeepupSample F) → ℕ → ℕ → ℕ → Option ℕ
  backlog_floor samples now_ms step_ms index = min_of (
      map (λ (s : KeepupSample F). s.backlog_rows)
        (keep (λ s. in_window now_ms step_ms index s.at_ms) samples))

  unfoldable pub backlog_floors : List (KeepupSample F) → ℕ → ℕ → ℕ → List (Option ℕ)
  unfolding backlog_floor
  backlog_floors samples now_ms window_s windows =
      map (backlog_floor samples now_ms (window_s * 1000)) (range 0 windows)

-- recent > middle > oldest > 0, with all three there
abbrev pub rising : ℕ → Option ℕ → Option ℕ → Bool
rising recent (some middle) (some oldest) = ltb middle recent && ltb oldest middle && ltb 0 oldest
rising recent _ _ = false

-- The end of the gate, on the three floors.
unfoldable pub floor_verdict : List (Option ℕ) → ℕ → ℕ → Verdict
floor_verdict (some recent ∷ middle ∷ oldest ∷ []) now_ms epoch_ms =
    if rising recent middle oldest
    then undersized_backlog
    else if ltb now_ms epoch_ms
    then pass_waiting
    else pass_running
floor_verdict _ now_ms epoch_ms = void_no_recent

module _ (fl : Floats) where
  open fl use {Float, le, twice}

  abbrev pub over_bound : Option Float → Float → Bool
  over_bound none bound_s = false
  over_bound (some lag) bound_s = not (le lag (twice bound_s))

  unfoldable pub gate_verdict :
      (aborted : Bool) (lag_s : Option Float) (samples : List (KeepupSample Float))
      (bound_s : Float) (adaptation_s window_s now_ms epoch_ms stale_after_s : ℕ)
      → Verdict
  gate_verdict aborted lag_s samples bound_s adaptation_s window_s now_ms epoch_ms stale_after_s =
      if aborted
      then void_aborted
      else elim (max_of (map (λ (s : KeepupSample Float). s.at_ms) samples)) [
        | none ↦ void_no_sample
        | some newest_ms ↦
            if ltb (newest_ms + stale_after_s * 1000) now_ms
            then void_stale
            else if leb (epoch_ms + adaptation_s * 1000) now_ms && over_bound lag_s bound_s
            then undersized_lag
            else floor_verdict (backlog_floors samples now_ms window_s floor_windows) now_ms
                epoch_ms
      ]
