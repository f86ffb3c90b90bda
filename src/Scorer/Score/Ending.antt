-- ===== src/Scorer/Score/Ending.antt =====
-- How a run ends: its exit code, and what its final state says.
use lakehouse_ingest_bench.Result.{Result, Result-cases, ok, err}
use lakehouse_ingest_bench.Prelude.{
  ℕ, ◌+◌, ◌≡◌, refl, subst, ◌⊎◌, inl, inr, Bool, true, false, ◌&&◌, Option, none, some, List, [],
  ◌∷◌, arith, leb, ◌==◌, ==_iff, Bool-cases, Option-cases,
}
use lakehouse_ingest_bench.Scorer.Tally.{Bincount}
use lakehouse_ingest_bench.Prelude.Floats.{Floats}
use lakehouse_ingest_bench.Scorer.Score.State.{
  ScoreArgs, ScoreState, RunState, running, drained, idle_stop, producer_bound, void, Reason,
  last_batch, has_mismatches, run_valid, is_producer_bound,
}
use lakehouse_ingest_bench.Scorer.Exactness.{Exactness}
use lakehouse_ingest_bench.Scorer.Score.Inputs.{Action, continue}
use lakehouse_ingest_bench.Scorer.Score.Loop.{
  Poll, conclude, explain, exit_code, finalize, stop, stop_or, note_new, run_polls, run,
  invalid_reason, freshness_of, exactness_of, except, poll_once,
}
use lakehouse_ingest_bench.Result.{Result, Result-cases, ok, err}

module _ (fl : Floats) (np : Bincount) (args : ScoreArgs fl.Float) where
  -- What `_finalize` reads of the state, and leaves.
  record SameInputs (s s' : ScoreState fl.Float) : Type 0 where
    tally : s'.tally ≡ s.tally
    records : s'.records ≡ s.records
    offer_ended : s'.offer_ended ≡ s.offer_ended
    schema_mismatches : s'.schema_mismatches ≡ s.schema_mismatches

  conclude-SameInputs :
      (ending : RunState) (s : ScoreState fl.Float) → SameInputs s (conclude fl np args ending s)
  unfolding conclude
  conclude-SameInputs running s = record {
    tally = refl;
    records = refl;
    offer_ended = refl;
    schema_mismatches = refl;
  }
  conclude-SameInputs drained s = record {
    tally = refl;
    records = refl;
    offer_ended = refl;
    schema_mismatches = refl;
  }
  conclude-SameInputs idle_stop s = record {
    tally = refl;
    records = refl;
    offer_ended = refl;
    schema_mismatches = refl;
  }
  conclude-SameInputs producer_bound s = record {
    tally = refl;
    records = refl;
    offer_ended = refl;
    schema_mismatches = refl;
  }
  conclude-SameInputs void s = record {
    tally = refl;
    records = refl;
    offer_ended = refl;
    schema_mismatches = refl;
  }

  -- A state that `explain` leaves as it is has a reason or is valid; another gets a reason.
  explain-cases :
      (exact : Exactness) (s : ScoreState fl.Float)
      → ((explain fl np args exact s ≡ s) × (s.reason ≡ none → run_valid args s ≡ true))
        ⊎ ((r : Reason) × (explain fl np args exact s ≡ record s { reason = some r }))
  unfolding explain run_valid is_producer_bound
  explain-cases exact s = elim (Option-cases s.reason) [
    | inl none_yet ↦ elim (Bool-cases (run_valid args s)) [
      | inl valid ↦ inl (rw (none_yet, valid) refl, λ h. valid)
      | inr invalid ↦ inr (invalid_reason fl np args s exact, rw (none_yet, invalid) refl)
    ]
    | inr (r, given) ↦ inl (rw given refl, λ h. absurd (cc (given, h)))
  ]

  -- What a run that ends with code `n` leaves.
  pub record Concludes (n : ℕ) (s : ScoreState fl.Float) : Type 0 where
    pub code : (n ≡ 0) ⊎ (n ≡ 2)
    pub drains :
        n ≡ 0
        → (s.offer_ended ≡ true)
          × (s.tally.watermark ≡ last_batch args s)
          × (has_mismatches s ≡ false)
    pub explained : s.reason ≡ none → run_valid args s ≡ true

  -- The final state has what was read, and a reason unless the run is valid.
  record Finalized (s s' : ScoreState fl.Float) : Type 0 where
    same : SameInputs s s'
    explained : s'.reason ≡ none → run_valid args s' ≡ true

  explain-Finalized :
      (exact : Exactness) (s s' : ScoreState fl.Float)
      → SameInputs s s'
      → Finalized s (explain fl np args exact s')
  explain-Finalized exact s s' same = elim (explain-cases exact s') [
    | inl (e, valid) ↦ rw e (record { same = same; explained = valid })
    | inr (r, e) ↦ rw e (record {
      same = record {
        tally = same.tally;
        records = same.records;
        offer_ended = same.offer_ended;
        schema_mismatches = same.schema_mismatches;
      };
      explained = λ h. absurd (cc h);
    })
  ]

  finalize-Finalized :
      (ending : RunState) (end_ms : ℕ) (s s' : ScoreState fl.Float) (n : ℕ)
      → finalize fl np args ending end_ms s ≡ (ok n, s')
      → (n ≡ exit_code fl np args ending) × Finalized s s'
  unfolding finalize
  finalize-Finalized ending end_ms s s' n h =
      elim (Result-cases (freshness_of fl np args end_ms s)) [
        | inr (e, failed) ↦ absurd (cc (rw failed at h))
        | inl (result, found) ↦
            elim (Result-cases (exactness_of fl np args (record s { result = some result }))) [
              | inr (e, failed) ↦ absurd (cc (rw (found, failed) at h))
              | inl (exact, found') ↦
                  let before = record s { result = some result; exactness = some exact } in
                  let same = conclude-SameInputs ending before in
                  let kept : SameInputs s (conclude fl np args ending before) = record {
                    tally = same.tally;
                    records = same.records;
                    offer_ended = same.offer_ended;
                    schema_mismatches = same.schema_mismatches;
                  } in
                  let h' = rw (found, found') at h in
                  (
                    cc h',
                    subst (Finalized s) (cc h')
                        (explain-Finalized exact s (conclude fl np args ending before) kept),
                  )
            ]
      ]

  -- A stop, at a turn that `_finalize` accepts.
  stop-code :
      (poll : Poll) (ending : RunState) (s s' : ScoreState fl.Float) (n : ℕ)
      → stop fl np args poll ending s ≡ (ok (some n), s')
      → (n ≡ exit_code fl np args ending) × Finalized s s'
  stop-code poll ending s s' n h = go (finalize fl np args ending poll.end_ms s) refl h
    where
      go :
          (r : Result ℕ × ScoreState fl.Float)
          → finalize fl np args ending poll.end_ms s ≡ r
          → continue {B = Option ℕ} r.0 (λ n s. (ok (some n), s)) r.1 ≡ (ok (some n), s')
          → (n ≡ exit_code fl np args ending) × Finalized s s'
      go (ok m, t) e h = finalize-Finalized ending poll.end_ms s s' n (cc (e, h))
      go (err x, t) e h = absurd (cc h)

  drained_lem :
      (s s' : ScoreState fl.Float)
      → SameInputs s s'
      → has_mismatches s ≡ false
      → s.offer_ended && s.tally.watermark == last_batch args s ≡ true
      → (s'.offer_ended ≡ true)
        × (s'.tally.watermark ≡ last_batch args s')
        × (has_mismatches s' ≡ false)
  unfolding last_batch
  drained_lem s s' same none_found empty =
      rw (same.offer_ended, same.tally, same.records, same.schema_mismatches)
        (ground arith, (==_iff s.tally.watermark (last_batch args s)).0 (ground arith), none_found)

  stop_or-Concludes :
      (poll : Poll) (next : Action (ScoreState fl.Float) (Option ℕ)) (s s' : ScoreState fl.Float)
      (n : ℕ)
      → (next s ≡ (ok (some n), s') → Concludes n s')
      → stop_or fl np args poll next s ≡ (ok (some n), s')
      → Concludes n s'
  stop_or-Concludes poll next s s' n later h = elim (Bool-cases (has_mismatches s)) [
    | inl found ↦
        let (code, end) = stop-code poll void s s' n (rw found at h) in
        record {
          code = inr code;
          drains = λ z. absurd (ground (arith, code, z));
          explained = end.explained;
        }
    | inr none_found ↦ elim (Bool-cases (s.offer_ended && s.tally.watermark == last_batch args s)) [
      | inl empty ↦
          let (code, end) = stop-code poll drained s s' n (rw (none_found, empty) at h) in
          record {
            code = inl code;
            drains = λ z. drained_lem s s' end.same none_found empty;
            explained = end.explained;
          }
      | inr left ↦ elim (Bool-cases (leb (s.last_new_ms + args.idle_stop_ms) poll.check_ms)) [
        | inl idle ↦
            let (code, end) = stop-code poll idle_stop s s' n (rw (none_found, left, idle) at h) in
            record {
              code = inr code;
              drains = λ z. absurd (ground (arith, code, z));
              explained = end.explained;
            }
        | inr busy ↦ later (rw (none_found, left, busy) at h)
      ]
    ]
  ]

  run_polls-Concludes :
      (polls : List Poll) (s s' : ScoreState fl.Float) (n : ℕ)
      → run_polls fl np args polls s ≡ (ok (some n), s')
      → Concludes n s'
  unfolding run_polls
  run_polls-Concludes [] s s' n h = absurd (cc h)
  run_polls-Concludes (poll ∷ polls) s s' n h =
      go (poll_once fl np args poll s) (λ t. run_polls-Concludes polls t s' n) h
    where
      go :
          (r : Result Bool × ScoreState fl.Float)
          → ((t : ScoreState fl.Float)
              → run_polls fl np args polls t ≡ (ok (some n), s')
              → Concludes n s')
          → continue {B = Option ℕ} r.0
              (λ seen_new s.
                stop_or fl np args poll
                  (run_polls fl np args polls)
                  (note_new fl np args poll seen_new s))
              r.1
            ≡ (ok (some n), s')
          → Concludes n s'
      go (ok seen_new, t) later h =
          stop_or-Concludes poll (run_polls fl np args polls) (note_new fl np args poll seen_new t)
            s' n (later (note_new fl np args poll seen_new t)) h
      go (err x, t) later h = absurd (cc h)

  -- A run that ends returns 0 or 2. With 0 the offer has ended, the watermark has reached the last
  -- batch offered and the table's schema has no mismatch. Its final state has a reason unless the
  -- run is valid.
  pub run-Concludes :
      (polls : List Poll) (s s' : ScoreState fl.Float) (n : ℕ)
      → run fl np args polls s ≡ (ok (some n), s')
      → Concludes n s'
  unfolding run
  run-Concludes polls s s' n h = go (run_polls fl np args polls s) refl h
    where
      go :
          (r : Result (Option ℕ) × ScoreState fl.Float)
          → run_polls fl np args polls s ≡ r
          → except fl np args r ≡ (ok (some n), s')
          → Concludes n s'
      go (ok m, t) e h = run_polls-Concludes polls s s' n (cc (e, h))
      go (err x, t) e h = absurd (cc h)
