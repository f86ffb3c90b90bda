-- ===== src/Producer/Produce/Complete.antt =====
-- What the publish log of a producer says of its run.
use mathlib.Core.List.{append_assoc}
use native.Mathlib.Nat.{add-zero}
use lakehouse_ingest_bench.Prelude.{
  ℕ, zero, suc, ◌+◌, ◌≡◌, ◌≢◌, ◌⊎◌, refl, sym, ap, ◌∙◌, true, false, List, [], ◌∷◌, ◌++◌, map,
  length, All, arith, Bool-cases, inl, inr, ◌==◌, ==_iff,
}
use lakehouse_ingest_bench.Prelude.Floats.{Floats}
use lakehouse_ingest_bench.Result.{Error, Result, ok, err, Result-cases, bind_returns, ok_injective}
use lakehouse_ingest_bench.Corpus.Batch.{BatchRecord}
use lakehouse_ingest_bench.Producer.Pacing.{scheduled_ms}
use lakehouse_ingest_bench.Producer.PublishLog.{
  PublishRecord, Line, entry, trailer, append, append_done, trailed, trailed_back,
}
use lakehouse_ingest_bench.Producer.PublishLog.Lag.{trailed-append}
use lakehouse_ingest_bench.Producer.Produce.{
  Corpus, ProduceArgs, produce_batch, keys_of, produce_one, upload_between, upload_last, prepare,
  produce_from, produce,
}

trailed-append_done :
    (lines : List Line) (shard batches : ℕ) → trailed (append_done lines shard batches) ≡ ok true
trailed-append_done lines shard batches =
    (trailed-append lines shard batches (record {
      batch = 0;
      scheduled_ms = 0;
      first_ack_ms = 0;
      last_ack_ms = 0;
      rows = 0;
      bytes = 0;
      errors = 0;
    })).0

module _ (fl : Floats) (args : ProduceArgs fl.Float) (corpus : Corpus) where
  produce_one-batch :
      (b : BatchRecord) (r : PublishRecord)
      → produce_one fl args corpus b ≡ ok r
      → r.batch ≡ b.batch
  unfolding produce_one
  produce_one-batch b r h =
      let (due, _, h1) = bind_returns (scheduled_ms fl args.epoch_ms b.offset_ms args.speed) _ h in
      let (keys, _, h2) = bind_returns (keys_of fl args corpus args.key_column b) _ h1 in
      let (frames, _, h3) = bind_returns (corpus.batch_frames b.uri) _ h2 in
      let (outcome, _, h4) =
        bind_returns (produce_batch args.value_prefix frames keys (corpus.reports_of b)) _ h3 in
      sym (ap (λ (q : PublishRecord). q.batch) (ok_injective h4))

  -- The four ways of a batch.
  produce_from-failed :
      (b : BatchRecord) (selected : List BatchRecord) (batches next : ℕ) (log : List Line)
      (e : Error)
      → produce_one fl args corpus b ≡ err e
      → produce_from fl args corpus (b ∷ selected) batches next log ≡ (err e, log)
  unfolding produce_from
  produce_from-failed b selected batches next log e h = rw (h, produce_from)

  produce_from-lost :
      (b : BatchRecord) (selected : List BatchRecord) (batches next : ℕ) (log : List Line)
      (r : PublishRecord) (e : Error)
      → produce_one fl args corpus b ≡ ok r
      → upload_between fl args corpus b next ≡ err e
      → produce_from fl args corpus (b ∷ selected) batches next log ≡ (err e, append log r)
  unfolding produce_from
  produce_from-lost b selected batches next log r e h h' = rw (h, produce_from) (rw h')

  produce_from-errors :
      (b : BatchRecord) (selected : List BatchRecord) (batches next next' : ℕ) (log : List Line)
      (r : PublishRecord)
      → produce_one fl args corpus b ≡ ok r
      → upload_between fl args corpus b next ≡ ok next'
      → (r.errors == 0) ≡ false
      → produce_from fl args corpus (b ∷ selected) batches next log
        ≡ (upload_last fl args corpus 1, append log r)
  unfolding produce_from
  produce_from-errors b selected batches next next' log r h h' h'' =
      rw (h, produce_from) (rw h' (rw h''))

  produce_from-sent :
      (b : BatchRecord) (selected : List BatchRecord) (batches next next' : ℕ) (log : List Line)
      (r : PublishRecord)
      → produce_one fl args corpus b ≡ ok r
      → upload_between fl args corpus b next ≡ ok next'
      → (r.errors == 0) ≡ true
      → produce_from fl args corpus (b ∷ selected) batches next log
        ≡ produce_from fl args corpus selected (batches + 1) next' (append log r)
  unfolding produce_from
  produce_from-sent b selected batches next next' log r h h' h'' =
      rw (h, produce_from) (rw h' (rw h''))

  -- The records behind a log that began as `log` and ends as `out`.
  abbrev pub Records : List BatchRecord → ℕ → List Line → List Line → Type 0
  Records selected batches log out =
      (records : List PublishRecord) × (out
        ≡ log ++ (map entry records ++ trailer args.shard (batches + length selected) ∷ []))
      × (map (λ (r : PublishRecord). r.batch) records ≡ map (λ (b : BatchRecord). b.batch) selected)
      × All (λ (r : PublishRecord). r.errors ≡ zero) records

  -- The run returns 0, or the upload behind the trailer raises.
  abbrev pub Returns : Result ℕ → Type 0
  Returns result =
      (result ≡ ok 0)
      ⊎ ((e : Error) × (result ≡ err e)
          × (args.has_upload_prefix ≡ true)
          × (corpus.last_upload ≡ err e))

  -- What a log says that began as `log`, by the run's result.
  abbrev pub Tells : List BatchRecord → ℕ → List Line → Result ℕ × List Line → Type 0
  Tells selected batches log out =
      ((trailed out.1 ≡ ok true) × Returns out.0 × Records selected batches log out.1)
      ⊎ ((trailed out.1 ≡ ok false) × (out.0 ≢ ok 0))

  extend :
      (b : BatchRecord) (selected : List BatchRecord) (batches : ℕ) (log out : List Line)
      (r : PublishRecord)
      → Records selected (batches + 1) (append log r) out
      → r.batch ≡ b.batch
      → r.errors ≡ zero
      → Records (b ∷ selected) batches log out
  extend b selected batches log out r (records, same, numbers, fine) own none_failed =
      let ended = map entry records ++ trailer args.shard (batches + 1 + length selected) ∷ [] in
      let count : batches + 1 + length selected ≡ batches + suc (length selected) = omega arith in
      (
        r ∷ records,
        same
            ∙ append_assoc log (entry r ∷ []) ended
            ∙ ap (λ n. log ++ entry r ∷ (map entry records ++ trailer args.shard n ∷ [])) count,
        rw (own, numbers) refl,
        (none_failed, fine),
      )

  upload_last-Returns : Returns (upload_last fl args corpus 0)
  unfolding upload_last
  upload_last-Returns = elim (Bool-cases args.has_upload_prefix) [
    | inr none_given ↦ inl (rw none_given refl)
    | inl given ↦ elim (Result-cases corpus.last_upload) [
      | inl (done, h) ↦ inl (rw (given, h) refl)
      | inr (e, h) ↦ inr (e, rw (given, h) refl, given, h)
    ]
  ]

  upload_last-fails : upload_last fl args corpus 1 ≢ ok 0
  unfolding upload_last
  upload_last-fails h = elim (Bool-cases args.has_upload_prefix) [
    | inr none_given ↦ absurd (cc (rw none_given at h))
    | inl given ↦ elim (Result-cases corpus.last_upload) [
      | inl (done, h') ↦ absurd (cc (rw (given, h') at h))
      | inr (e, h') ↦ absurd (cc (rw (given, h') at h))
    ]
  ]

  produce_from-Tells :
      (selected : List BatchRecord) (batches next : ℕ) (log : List Line)
      → trailed log ≡ ok false
      → Tells selected batches log (produce_from fl args corpus selected batches next log)
  unfolding produce_from
  produce_from-Tells [] batches next log open_yet = inl (
    trailed-append_done log args.shard batches,
    upload_last-Returns,
    ([], ap (λ n. log ++ trailer args.shard n ∷ []) (sym (add-zero batches)), refl, tt),
  )
  produce_from-Tells (b ∷ selected) batches next log open_yet =
      elim (Result-cases (produce_one fl args corpus b)) [
        | inr (e, failed) ↦
            rw (produce_from-failed b selected batches next log e failed)
              (inr (open_yet, λ h. absurd (cc h)))
        | inl (r, sent) ↦
            let marked = (trailed-append log args.shard batches r).1 in
            elim (Result-cases (upload_between fl args corpus b next)) [
              | inr (e, lost) ↦
                  rw (produce_from-lost b selected batches next log r e sent lost)
                    (inr (marked, λ h. absurd (cc h)))
              | inl (next', kept) ↦ elim (Bool-cases (r.errors == 0)) [
                | inr errors ↦
                    rw (produce_from-errors b selected batches next next' log r sent kept errors)
                      (inr (marked, upload_last-fails))
                | inl fine ↦
                    rw (produce_from-sent b selected batches next next' log r sent kept fine) (
                      grow b selected batches log r (produce_one-batch b r sent)
                        ((==_iff r.errors 0).0 fine) _
                        (produce_from-Tells selected (batches + 1) next' (append log r) marked))
              ]
            ]
      ]
    where
      grow :
          (b : BatchRecord) (selected : List BatchRecord) (batches : ℕ) (log : List Line)
          (r : PublishRecord)
          → r.batch ≡ b.batch
          → r.errors ≡ zero
          → (out : Result ℕ × List Line) → Tells selected (batches + 1) (append log r) out
          → Tells (b ∷ selected) batches log out
      grow b selected batches log r own none_failed out (inr open_still) = inr open_still
      grow b selected batches log r own none_failed out (inl (marked, returns, records)) =
          inl (marked, returns, extend b selected batches log out.1 r records own none_failed)

  -- A run on a new log that selects batches and gets its client. Either its log counts as complete, and then
  -- it returns 0 or the upload behind the trailer raises, and the log holds, in front of the trailer with
  -- their number, one record for each batch of the shard's selection, in order, none of them with an error.
  -- Or the log does not count as complete, and the run does not return 0.
  pub produce-Tells :
      (manifest selected : List BatchRecord)
      → prepare fl args corpus manifest ≡ ok selected
      → Tells selected 0 [] (produce fl args corpus manifest [])
  unfolding produce trailed trailed_back
  produce-Tells manifest selected h = rw (h, produce) (produce_from-Tells selected 0 0 [] refl)
