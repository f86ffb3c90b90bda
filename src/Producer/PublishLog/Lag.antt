-- ===== src/Producer/PublishLog/Lag.antt =====
-- The producer's lag and the completion trailers.
use mathlib.Core.List.{reverse-append}
use lakehouse_ingest_bench.Prelude.Int.{ℤ, pos, ◌≤ℤ◌, max_ℤ}
use lakehouse_ingest_bench.Result.{ok}
use lakehouse_ingest_bench.Prelude.{ℕ, ◌+◌, ◌≤◌, ◌≡◌, ◌↔◌, true, false, List, [], ◌∷◌, arith, All}
use lakehouse_ingest_bench.Producer.PublishLog.{
  PublishRecord, Line, trailer, entry, append, append_done, trailed_back, trailed, delay, largest,
  behind_ms,
}

-- A batch was acknowledged at most `bound` milliseconds after it was due.
abbrev pub OnTime : ℕ → PublishRecord → Type 0
OnTime bound r = r.first_ack_ms ≤ r.scheduled_ms + bound

largest_iff :
    (bound : ℕ) (d : ℤ) (records : List PublishRecord)
    → (largest d records ≤ℤ pos bound) ↔ ((d ≤ℤ pos bound) × All (OnTime bound) records)
largest_iff bound d [] = (λ h. (h, tt), λ h. h.0)
largest_iff bound d (r ∷ records) =
    let ih = largest_iff bound (max_ℤ d (delay r)) records in
    (
      λ h. let (now, later) = ih.0 h in (ground arith, (ground arith, later)),
      λ h. ih.1 (ground arith, h.1.1),
    )

-- The lag is within a bound just when every batch was first acknowledged within that bound of its
-- scheduled time.
pub behind_ms_iff :
    (bound : ℕ) (records : List PublishRecord)
    → (behind_ms records ≤ℤ pos bound) ↔ All (OnTime bound) records
unfolding behind_ms
behind_ms_iff bound [] = (λ h. tt, λ h. omega arith)
behind_ms_iff bound (r ∷ records) =
    let both = largest_iff bound (delay r) records in
    (λ h. let (now, later) = both.0 h in (ground arith, later), λ h. both.1 (ground arith, h.1))

-- A log counts as complete once its trailer is appended, and no longer when a batch follows it.
pub trailed-append :
    (lines : List Line) (shard batches : ℕ) (r : PublishRecord)
    → (trailed (append_done lines shard batches) ≡ ok true) × (trailed (append lines r) ≡ ok false)
unfolding trailed trailed_back
trailed-append lines shard batches r = (
  rw (reverse-append lines (trailer shard batches ∷ [])),
  rw (reverse-append lines (entry r ∷ [])),
)
