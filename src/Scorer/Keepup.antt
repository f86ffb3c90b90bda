-- ===== src/Scorer/Keepup.antt =====
-- ingest_bench/scorer/keepup.py
use mathlib.Core.Option
use lakehouse_ingest_bench.Prelude.Floats.{Floats}
use lakehouse_ingest_bench.Prelude.Int.{pos, sub_ℕ}
use lakehouse_ingest_bench.Prelude.{
  ℕ, ◌-◌, max, min, Option, none, some, List, [], ◌∷◌, map, ltb, leb, if◌then◌else◌, keep, last?,
}

pub record KeepupSample (F : Type 0) : Type 0 where
  pub at_ms : ℕ
  pub offered_rows : ℕ
  pub committed_rows : ℕ
  pub backlog_rows : ℕ
  pub offered_rate : Option F
  pub committed_rate : Option F

pub record KeepupSummary (F : Type 0) : Type 0 where
  pub absorbed_at_offer_end : Option F
  pub drain_s : Option F
  pub backlog_rows_max : Option ℕ
  pub backlog_rows_p50 : Option F

-- max(xs, default=None), min(xs, default=None)
abbrev pub max_of : List ℕ → Option ℕ
max_of [] = none
max_of (x ∷ xs) = elim (max_of xs) [ none ↦ some x | some m ↦ some (max x m) ]

abbrev pub min_of : List ℕ → Option ℕ
min_of [] = none
min_of (x ∷ xs) = elim (min_of xs) [ none ↦ some x | some m ↦ some (min x m) ]

module _ (fl : Floats) where
  open fl use {Float, div, over, percentile}

  abbrev rate : ℕ → ℕ → ℕ → Float
  rate now_rows then_rows gap_ms = over (div (sub_ℕ now_rows then_rows) 1) (div (pos gap_ms) 1000)

  -- `-` stops at 0, as the `max(.., 0)` of the backlog does.
  unfoldable pub make_sample : ℕ → ℕ → ℕ → Option (KeepupSample Float) → KeepupSample Float
  make_sample at_ms offered_rows committed_rows previous = elim previous [
    | none ↦ record {
      at_ms = at_ms;
      offered_rows = offered_rows;
      committed_rows = committed_rows;
      backlog_rows = offered_rows - committed_rows;
      offered_rate = none;
      committed_rate = none;
    }
    | some p ↦ record {
      at_ms = at_ms;
      offered_rows = offered_rows;
      committed_rows = committed_rows;
      backlog_rows = offered_rows - committed_rows;
      offered_rate =
          if ltb p.at_ms at_ms
          then some (rate offered_rows p.offered_rows (at_ms - p.at_ms))
          else none;
      committed_rate =
          if ltb p.at_ms at_ms
          then some (rate committed_rows p.committed_rows (at_ms - p.at_ms))
          else none;
    }
  ]

  -- The share of the final offer that the last sample before its end had committed.
  abbrev absorbed : List (KeepupSample Float) → Option ℕ → Option ℕ → Option Float
  absorbed samples none final = none
  absorbed samples (some end_ms) none = none
  absorbed samples (some end_ms) (some final) =
      elim (last? (keep (λ s. leb s.at_ms end_ms) samples)) [
        | none ↦ none
        | some s ↦ if ltb 0 final then some (div (pos s.committed_rows) final) else none
      ]

  abbrev drain : Option ℕ → Option ℕ → Option Float
  drain (some drained_ms) (some offer_end_ms) = some (div (sub_ℕ drained_ms offer_end_ms) 1000)
  drain _ _ = none

  unfoldable pub keepup_summary :
      List (KeepupSample Float) → Option ℕ → Option ℕ → Option ℕ → KeepupSummary Float
  keepup_summary samples offer_end_ms drained_ms final_offered_rows =
      let backlogs = map (λ (s : KeepupSample Float). s.backlog_rows) samples in
      record {
        absorbed_at_offer_end = absorbed samples offer_end_ms final_offered_rows;
        drain_s = drain drained_ms offer_end_ms;
        backlog_rows_max = max_of backlogs;
        backlog_rows_p50 =
            Option.map (λ m. percentile (map (λ n. div (pos n) 1) backlogs) 50) (max_of backlogs);
      }
