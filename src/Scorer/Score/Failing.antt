-- ===== src/Scorer/Score/Failing.antt =====
-- What a poll whose reading fails leaves of the loop's own state.
use lakehouse_ingest_bench.Prelude.{
  ◌+◌, ◌≡◌, ◌≢◌, refl, ap, ◌⊎◌, inl, inr, Bool, false, List, [], ◌∷◌, ◌++◌, leb, if◌then◌else◌,
  last?, Option,
}
use lakehouse_ingest_bench.Prelude.Floats.{Floats}
use lakehouse_ingest_bench.Result.{Error, Result, ok, err, ◌>>=◌, Result-cases}
use lakehouse_ingest_bench.Scorer.Keepup.{KeepupSample, make_sample}
use lakehouse_ingest_bench.Scorer.Snapshots.{Snapshot, SchemaField}
use lakehouse_ingest_bench.Scorer.Tally.{Bincount, committed_rows}
use lakehouse_ingest_bench.Scorer.Score.State.{ScoreArgs, ScoreState, offered_rows}
use lakehouse_ingest_bench.Scorer.Score.Inputs.{
  Action, continue, TableRead, failed, absent, present, Reads, load_table, read_inputs, offer_ended,
}
use lakehouse_ingest_bench.Producer.PublishLog.{PublishRecord, read_all}
use lakehouse_ingest_bench.Scorer.Score.Loop.{Poll, poll_once, max_consecutive_read_failures}
use lakehouse_ingest_bench.Scorer.Score.SameLoop.{read_inputs-SameLoop}

module _ {F : Type 0} (np : Bincount) (reads : Reads) where
  -- What has not failed where a poll's reads succeed: the trailers and the records of the logs, and the
  -- table's being loaded.
  abbrev pub HasRead : ScoreArgs F → Type 0
  HasRead args =
      ((ended : Bool) × ((reads.logs_for_done >>= offer_ended args.expected_publish_shards)
          ≡ ok ended))
      × ((records : List PublishRecord) × ((reads.logs_for_records >>= read_all) ≡ ok records))
      × (reads.table ≢ failed)

  continue-ok :
      {A B : Type 0} (r : Result A) (f : A → Action (ScoreState F) B) (s : ScoreState F) (b : B)
      → (continue r f s).0 ≡ ok b
      → (a : A) × (r ≡ ok a) × ((f a s).0 ≡ ok b)
  continue-ok (ok a) f s b h = (a, refl, h)
  continue-ok (err e) f s b h = absurd (cc h)

  load_table-failed :
      (args : ScoreArgs F) (table : TableRead) (s : ScoreState F)
      (found : Option (List SchemaField × List Snapshot))
      → (load_table args table s).0 ≡ ok found
      → table ≢ failed
  unfolding load_table
  load_table-failed args failed s found h same = absurd (cc h)
  load_table-failed args absent s found h same = cc same
  load_table-failed args (present schema snapshots) s found h same = cc same

  read_inputs-HasRead :
      (args : ScoreArgs F) (s : ScoreState F) (seen_new : Bool)
      → (read_inputs np reads args s).0 ≡ ok seen_new
      → HasRead args
  unfolding read_inputs
  read_inputs-HasRead args s seen_new h =
      let (ended, done, h1) =
        continue-ok (reads.logs_for_done >>= offer_ended args.expected_publish_shards) _ s seen_new
          h in
      let (records, all, h2) = continue-ok (reads.logs_for_records >>= read_all) _ s seen_new h1 in
      let s' = record s { records = records; offer_ended = ended } in
      let (table, loaded, _) =
        continue-ok (load_table args reads.table s').0 _ (load_table args reads.table s').1 seen_new
          h2 in
      ((ended, done), (records, all), load_table-failed args reads.table s' table loaded)

module _ (fl : Floats) (np : Bincount) (args : ScoreArgs fl.Float) where
  -- A poll that reads, and one that fails.
  abbrev pub Works : Poll → ScoreState fl.Float → Type 0
  Works poll s =
      (seen_new : Bool) × (sample : KeepupSample fl.Float) × ((read_inputs np poll.reads args s).0
        ≡ ok seen_new)
      × HasRead np poll.reads args
      × ((poll_once fl np args poll s).0 ≡ ok seen_new)
      × ((poll_once fl np args poll s).1.read_failures ≡ 0)
      × ((poll_once fl np args poll s).1.samples ≡ s.samples ++ sample ∷ [])

  abbrev pub Fails : Poll → ScoreState fl.Float → Type 0
  Fails poll s =
      (e : Error) × ((read_inputs np poll.reads args s).0 ≡ err e)
      × ((poll_once fl np args poll s).0
          ≡ (if leb max_consecutive_read_failures (s.read_failures + 1) then err e else ok false))
      × ((poll_once fl np args poll s).1.read_failures ≡ s.read_failures + 1)
      × ((poll_once fl np args poll s).1.samples ≡ s.samples)

  -- Either a poll's reads succeed, so that the logs could be read both times and the table could be loaded,
  -- and then it ends the row of failures, adds one sample to those before it and says whether a snapshot was
  -- new. Or they raise, and then it adds no sample and one failure to the row; the exception is passed on from the
  -- fifth failure in a row on, and before that the loop goes on.
  pub poll_once-Works_or_Fails :
      (poll : Poll) (s : ScoreState fl.Float) → Works poll s ⊎ Fails poll s
  unfolding poll_once
  poll_once-Works_or_Fails poll s =
      let same = read_inputs-SameLoop np poll.reads args s in
      let read = (read_inputs np poll.reads args s).1 in
      let sample =
        make_sample fl poll.at_ms (offered_rows read) (committed_rows read.tally)
          (last? read.samples) in
      elim (Result-cases (read_inputs np poll.reads args s).0) [
        | inl (seen_new, h) ↦ inl (
          seen_new,
          sample,
          h,
          read_inputs-HasRead np poll.reads args s seen_new h,
          rw (poll_once, h) refl,
          rw (poll_once, h) refl,
          rw (poll_once, h) (ap (λ xs. xs ++ sample ∷ []) same.samples),
        )
        | inr (e, h) ↦ inr (
          e,
          h,
          rw (poll_once, h)
              (ap (λ n. if leb max_consecutive_read_failures (n + 1) then err e else ok false)
                same.read_failures),
          rw (poll_once, h) (ap (λ n. n + 1) same.read_failures),
          rw (poll_once, h) same.samples,
        )
      ]
