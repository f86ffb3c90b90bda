-- ===== src/Scorer/Score/State.antt =====
-- The scorer's state and what is read off it. `last_batch` is the source's plus one, like a
-- watermark. `idle_stop_ms` is `idle_stop_s * 1000`.
use lakehouse_ingest_bench.Prelude.Int.{pos, ltb_ℤ}
use lakehouse_ingest_bench.Prelude.{
  ℕ, ◌+◌, max, String, Bool, true, false, not, ◌&&◌, ◌||◌, Option, none, some, List, [], ◌∷◌, ltb,
  leb, ◌==◌, if◌then◌else◌, any, sum_by,
}
use lakehouse_ingest_bench.Producer.PublishLog.{PublishRecord, behind_ms}
use lakehouse_ingest_bench.Scorer.Tally.{BatchTally}
use lakehouse_ingest_bench.Scorer.Exactness.{Exactness}
use lakehouse_ingest_bench.Scorer.Freshness.{Observation, FreshnessResult}
use lakehouse_ingest_bench.Scorer.Keepup.{KeepupSample}
use lakehouse_ingest_bench.Scorer.Snapshots.{Mismatch}

pub record ScoreArgs (F : Type 0) : Type 0 where
  pub epoch_ms : ℕ
  pub idle_stop_ms : ℕ
  pub warmup_s : ℕ
  pub freshness_bound_s : F
  pub behind_max_ms : ℕ
  pub expected_publish_shards : ℕ
  pub engine_owned : Bool
  -- the corpus's columns and published types, and its number of batches
  pub columns : List (String × String)
  pub batch_count : ℕ

pub data RunState : Type 0 where
  running drained idle_stop producer_bound void : RunState

pub data Reason : Type 0 where
  idle_stop_before_drain schema_mismatch scorer_failed : Reason
  producer exactness freshness : Reason

pub record ScoreState (F : Type 0) : Type 0 where
  pub tally : BatchTally
  pub last_new_ms : ℕ
  pub observations : List Observation
  pub samples : List (KeepupSample F)
  pub seen : List ℕ
  pub applied_files : List String
  pub records : List PublishRecord
  pub schema_mismatches : Option (List Mismatch)
  pub table_absent : Bool
  pub offer_ended : Bool
  pub read_failures : ℕ
  pub state : RunState
  pub reason : Option Reason
  pub aborted : Bool
  pub result : Option (FreshnessResult F)
  pub exactness : Option Exactness

abbrev last_of : List PublishRecord → ℕ
last_of [] = 0
last_of (r ∷ records) = max (r.batch + 1) (last_of records)

abbrev pub is_exact : Option Exactness → Bool
is_exact none = false
is_exact (some e) = e.exact

abbrev last_ack : List PublishRecord → Option ℕ
last_ack [] = none
last_ack (r ∷ records) = elim (last_ack records) [
  | none ↦ some r.last_ack_ms
  | some m ↦ some (max r.last_ack_ms m)
]

abbrev first_reaching : ℕ → List Observation → Option ℕ
first_reaching last [] = none
first_reaching last (obs ∷ observations) =
    if leb last obs.watermark then some obs.first_seen_ms else first_reaching last observations

module _ {F : Type 0} where
  unfoldable pub offered_rows : ScoreState F → ℕ
  offered_rows s = sum_by (λ (r : PublishRecord). r.rows) s.records

  unfoldable pub last_batch : ScoreArgs F → ScoreState F → ℕ
  last_batch args s = if s.offer_ended then last_of s.records else args.batch_count

  unfoldable pub is_producer_bound : ScoreArgs F → ScoreState F → Bool
  is_producer_bound args s =
      ltb_ℤ (pos args.behind_max_ms) (behind_ms s.records)
      || any (λ (r : PublishRecord). ltb 0 r.errors) s.records

  abbrev pub has_mismatches : ScoreState F → Bool
  has_mismatches s = elim s.schema_mismatches [
    | none ↦ false
    | some found ↦ elim found [ [] ↦ false | m ∷ ms ↦ true ]
  ]

  abbrev pub is_fresh : Option (FreshnessResult F) → Bool
  is_fresh none = false
  is_fresh (some r) = r.verdict

  unfoldable pub run_valid : ScoreArgs F → ScoreState F → Bool
  run_valid args s =
      not s.aborted
      && not (has_mismatches s)
      && is_fresh s.result
      && is_exact s.exactness
      && not (is_producer_bound args s)

  -- _offer_end_ms, _drained_ms
  unfoldable pub offer_end_ms : ScoreState F → Option ℕ
  offer_end_ms s = if s.offer_ended then last_ack s.records else none

  unfoldable pub drained_ms : ScoreArgs F → ScoreState F → Option ℕ
  drained_ms args s =
      let last = last_batch args s in if last == 0 then none else first_reaching last s.observations
