-- ===== src/Producer/Pacing/Shards.antt =====
-- The shards of a replay share its batches out.
use native.Mathlib.Nat.{mod-lt}
use mathlib.Core.Path.{fun_ext}
use lakehouse_ingest_bench.Prelude.Floats.{Floats}
use lakehouse_ingest_bench.Result.{Result, ok, err}
use lakehouse_ingest_bench.Prelude.{
  ℕ, zero, suc, ◌+◌, ◌%◌, ◌≤◌, ◌<◌, ◌≡◌, refl, ap, ◌∙◌, false, ◌&&◌, Option, List, [], ◌∷◌, arith,
  ltb, leb, ◌==◌, if◌then◌else◌, keep, sum_by, range,
}
use lakehouse_ingest_bench.Corpus.Batch.{BatchRecord}
use lakehouse_ingest_bench.Producer.Pacing.{scheduled_ms, within, select_batches}

sum_by-add : (f g : ℕ → ℕ) (xs : List ℕ) → sum_by (λ x. f x + g x) xs ≡ sum_by f xs + sum_by g xs
sum_by-add f g [] = refl
sum_by-add f g (x ∷ xs) = omega (arith, sum_by-add f g xs)

sum_by-zero : (xs : List ℕ) → sum_by (λ x. 0) xs ≡ zero
sum_by-zero [] = refl
sum_by-zero (x ∷ xs) = omega (arith, sum_by-zero xs)

-- One entry of a range is hit, or none.
sum_by-hit :
    (k v i n : ℕ)
    → sum_by (λ s. if k == s then v else 0) (range i n)
      ≡ (if leb i k && ltb k (i + n) then v else 0)
sum_by-hit k v i zero = ground arith
sum_by-hit k v i (suc n) = ground (arith, sum_by-hit k v (suc i) n)

-- The measure `f` of what one shard sends; a refusal sends nothing.
abbrev pub sent : (BatchRecord → ℕ) → Result (List BatchRecord) → ℕ
sent f (ok records) = sum_by f records
sent f (err e) = 0

module _ (f : BatchRecord → ℕ) (shards : ℕ) (some_shards : 0 < shards) (seconds : Option ℕ) where
  share : List BatchRecord → ℕ → ℕ
  share records shard = sum_by f (keep (λ r. r.batch % shards == shard && within seconds r) records)

  share-cons :
      (r : BatchRecord) (records : List BatchRecord) (shard : ℕ)
      → share (r ∷ records) shard
        ≡ (if r.batch % shards == shard then (if within seconds r then f r else 0) else 0)
          + share records shard
  unfolding share
  share-cons r records shard = ground arith

  hit :
      (r : BatchRecord)
      → sum_by
          (λ s. if r.batch % shards == s then (if within seconds r then f r else 0) else 0)
          (range 0 shards)
        ≡ (if within seconds r then f r else 0)
  hit r =
      sum_by-hit (r.batch % shards) (if within seconds r then f r else 0) 0 shards
      ∙ ground (arith, mod-lt r.batch some_shards)

  sum_shares-cons :
      (r : BatchRecord) (records : List BatchRecord)
      → sum_by (share (r ∷ records)) (range 0 shards)
        ≡ (if within seconds r then f r else 0) + sum_by (share records) (range 0 shards)
  sum_shares-cons r records = rw (fun_ext (share-cons r records)) (
      sum_by-add _ (share records) (range 0 shards)
      ∙ ap (λ n. n + sum_by (share records) (range 0 shards)) (hit r))

  sum_shares :
      (records : List BatchRecord)
      → sum_by (share records) (range 0 shards) ≡ sum_by f (keep (within seconds) records)
  unfolding share
  sum_shares [] = sum_by-zero (range 0 shards)
  sum_shares (r ∷ records) = ground (arith, sum_shares-cons r records, sum_shares records)

  sum_sent :
      (i n : ℕ) (records : List BatchRecord)
      → i + n ≤ shards
      → sum_by (λ shard. sent f (select_batches records shard shards seconds)) (range i n)
        ≡ sum_by (share records) (range i n)
  unfolding select_batches share
  sum_sent i zero records h = refl
  sum_sent i (suc n) records h = ground (arith, sum_sent (suc i) n records (omega arith))

  -- With at least one shard, every shard's selection is accepted and the shards together send each
  -- batch within the time limit exactly once: for any measure of a batch, what the shards send adds
  -- up to what the manifest holds within the limit.
  pub shards_share :
      (records : List BatchRecord)
      → sum_by (λ shard. sent f (select_batches records shard shards seconds)) (range 0 shards)
        ≡ sum_by f (keep (within seconds) records)
  shards_share records = sum_sent 0 shards records (omega arith) ∙ sum_shares records

module _ (fl : Floats) where
  open fl use {Float, le, origin, round_mono}

  -- At a positive speed a batch with a later offset is never due earlier, and every due time exists
  -- and is not before the epoch.
  pub scheduled_ms_mono :
      (epoch_ms a b : ℕ) (speed : Float)
      → le speed origin ≡ false
      → a ≤ b
      → (x : ℕ) × (y : ℕ) × (scheduled_ms fl epoch_ms a speed ≡ ok x)
        × (scheduled_ms fl epoch_ms b speed ≡ ok y)
        × (epoch_ms ≤ x)
        × (x ≤ y)
  unfolding scheduled_ms
  scheduled_ms_mono epoch_ms a b speed positive h = (
    epoch_ms + fl.round_div a speed,
    epoch_ms + fl.round_div b speed,
    rw positive,
    rw positive,
    omega arith,
    omega (arith, round_mono a b speed positive h),
  )
