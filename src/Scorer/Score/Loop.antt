-- ===== src/Scorer/Score/Loop.antt =====
-- `_poll_once`, `_finalize` and `run`. The artifacts, their upload and the log lines are not
-- modelled; a schedule of polls stands for the clock and for what changes outside.
use lakehouse_ingest_bench.Prelude.Floats.{Floats}
use lakehouse_ingest_bench.Result.{Result, ok, err}
use lakehouse_ingest_bench.Prelude.{
  ℕ, ◌+◌, Bool, true, false, not, ◌&&◌, Option, none, some, List, [], ◌∷◌, ◌++◌, map, leb, ◌==◌,
  if◌then◌else◌, last?,
}
use lakehouse_ingest_bench.Producer.PublishLog.{PublishRecord, emit_times}
use lakehouse_ingest_bench.Scorer.Tally.{Bincount, committed_rows}
use lakehouse_ingest_bench.Scorer.Exactness.{Exactness, exactness_result}
use lakehouse_ingest_bench.Scorer.Freshness.{timestamp, FreshnessResult, freshness_result}
use lakehouse_ingest_bench.Scorer.Keepup.{make_sample}
use lakehouse_ingest_bench.Scorer.Score.State.{
  ScoreArgs, RunState, drained, idle_stop, producer_bound, void, Reason, idle_stop_before_drain,
  schema_mismatch, scorer_failed, producer, exactness, freshness, ScoreState, offered_rows,
  last_batch, is_producer_bound, has_mismatches, run_valid,
}
use lakehouse_ingest_bench.Scorer.Score.Inputs.{Action, continue, Reads, read_inputs}

-- GRID_MS, MAX_CONSECUTIVE_READ_FAILURES
abbrev pub grid_ms : ℕ
grid_ms = 1000

abbrev pub max_consecutive_read_failures : ℕ
max_consecutive_read_failures = 5

-- One turn of the loop: what it reads, and the clock after the reads, when it notes new snapshots,
-- when it looks for idleness and when it ends.
pub record Poll : Type 0 where
  pub reads : Reads
  pub at_ms : ℕ
  pub new_ms : ℕ
  pub check_ms : ℕ
  pub end_ms : ℕ

module _ (fl : Floats) (np : Bincount) (args : ScoreArgs fl.Float) where
  unfoldable pub poll_once : Poll → Action (ScoreState fl.Float) Bool
  poll_once poll s =
      let (read, s') = read_inputs np poll.reads args s in
      elim read [
        | err e ↦
            let failures = s'.read_failures + 1 in
            (
              if leb max_consecutive_read_failures failures then err e else ok false,
              record s' { read_failures = failures },
            )
        | ok seen_new ↦ (
          ok seen_new,
          record s' {
            read_failures = 0;
            samples =
                s'.samples
                ++ make_sample fl poll.at_ms (offered_rows s') (committed_rows s'.tally)
                    (last? s'.samples)
                  ∷ [];
          },
        )
      ]

  -- `_invalid_reason`
  abbrev pub invalid_reason : ScoreState fl.Float → Exactness → Reason
  invalid_reason s exact =
      if is_producer_bound args s
      then producer
      else if not exact.exact
      then exactness
      else freshness

  -- What `_finalize` makes of state, reason and aborted, by the ending.
  unfoldable pub conclude : RunState → ScoreState fl.Float → ScoreState fl.Float
  conclude void s = record s { state = void; reason = some schema_mismatch }
  conclude idle_stop s = record s {
    state = if is_producer_bound args s then producer_bound else idle_stop;
    reason = some idle_stop_before_drain;
    aborted = true;
  }
  conclude ending s = record s {
    state = if is_producer_bound args s then producer_bound else ending;
  }

  -- if state.reason is None and not state.run_valid()
  unfoldable pub explain : Exactness → ScoreState fl.Float → ScoreState fl.Float
  explain exact s = elim s.reason [
    | some r ↦ s
    | none ↦ if run_valid args s then s else record s { reason = some (invalid_reason s exact) }
  ]

  abbrev pub exit_code : RunState → ℕ
  exit_code drained = 0
  exit_code _ = 2

  abbrev pub freshness_of : ℕ → ScoreState fl.Float → Result (FreshnessResult fl.Float)
  freshness_of end_ms s =
      freshness_result fl s.observations (emit_times s.records) args.epoch_ms end_ms
        (last_batch args s) args.warmup_s args.freshness_bound_s grid_ms timestamp

  abbrev pub exactness_of : ScoreState fl.Float → Result Exactness
  exactness_of s = exactness_result s.tally (map (λ (r : PublishRecord). r.batch) s.records)

  unfoldable pub finalize : RunState → ℕ → Action (ScoreState fl.Float) ℕ
  unfolding conclude explain
  finalize ending end_ms s =
      continue (freshness_of end_ms s)
        (λ result s.
          continue (exactness_of s)
            (λ exact s. (
              ok (exit_code ending),
              explain exact (conclude ending (record s { exactness = some exact })),
            ))
            (record s { result = some result }))
        s

  abbrev pub stop : Poll → RunState → Action (ScoreState fl.Float) (Option ℕ)
  stop poll ending s =
      let (code, s') = finalize ending poll.end_ms s in continue code (λ n s. (ok (some n), s)) s'

  -- The end of a turn: the three ways to stop, or another turn.
  abbrev pub stop_or :
      Poll → Action (ScoreState fl.Float) (Option ℕ) → Action (ScoreState fl.Float) (Option ℕ)
  stop_or poll next s =
      if has_mismatches s
      then stop poll void s
      else if s.offer_ended && s.tally.watermark == last_batch args s
      then stop poll drained s
      else if leb (s.last_new_ms + args.idle_stop_ms) poll.check_ms
      then stop poll idle_stop s
      else next s

  abbrev pub note_new : Poll → Bool → ScoreState fl.Float → ScoreState fl.Float
  note_new poll seen_new s = if seen_new then record s { last_new_ms = poll.new_ms } else s

  -- The `while True`, over the turns that a schedule gives; `none` is a run that has not ended yet.
  unfoldable pub run_polls : List Poll → Action (ScoreState fl.Float) (Option ℕ)
  unfolding poll_once finalize
  run_polls [] s = (ok none, s)
  run_polls (poll ∷ polls) s =
      let (read, s') = poll_once poll s in
      continue read (λ seen_new s. stop_or poll (run_polls polls) (note_new poll seen_new s)) s'

  -- The `except` of `run`, which marks the state and passes the exception on.
  abbrev pub except :
      Result (Option ℕ) × ScoreState fl.Float → Result (Option ℕ) × ScoreState fl.Float
  except (ok n, s) = (ok n, s)
  except (err e, s) = (err e, record s { aborted = true; reason = some scorer_failed })

  unfoldable pub run : List Poll → Action (ScoreState fl.Float) (Option ℕ)
  run polls s = except (run_polls polls s)
