-- ===== src/Scorer/Freshness/Verdict.antt =====
-- What a freshness verdict of true says.
use lakehouse_ingest_bench.Prelude.Floats.{Floats}
use lakehouse_ingest_bench.Prelude.Search.{member}
use lakehouse_ingest_bench.Prelude.Sorting.{insert, sort_by}
use lakehouse_ingest_bench.Result.{Result, ok, err, bind_returns}
use lakehouse_ingest_bench.Prelude.{
  ℕ, ◌+◌, ◌-◌, ◌*◌, ◌≡◌, refl, ap, ◌∙◌, inl, inr, Bool, true, false, ◌&&◌, Option, none, some, List,
  [], ◌∷◌, map, arith, Bool-cases, Option-cases, keep, any, leb, ◌<◌, ◌⊎◌, last?, All,
}
use lakehouse_ingest_bench.Scorer.Freshness.{
  Observation, ClockName, LagRow, distinct, lag_series, is_missing, missing_emit_prefixes, lags_of,
  quantiles_of, lag_quantiles, is_empty_list, window_of, or_last, in_bounds, is_drained,
  FreshnessResult, freshness_result,
}

module _ (fl : Floats) where
  open fl use {Float, le, twice, maximum, maximum_upper, le_trans}

  -- The sample has a lag, and it is at most `limit`.
  abbrev pub Within : Float → LagRow Float → Type 0
  Within limit row = (lag : Float) × (row.lag_s ≡ some lag) × (le lag limit ≡ true)

  lags_of-cons :
      (row : LagRow Float) (rows : List (LagRow Float)) (lags : List Float)
      → lags_of fl (row ∷ rows) ≡ some lags
      → (x : Float) × (xs : List Float) × (row.lag_s ≡ some x)
        × (lags_of fl rows ≡ some xs)
        × (lags ≡ x ∷ xs)
  unfolding lags_of
  lags_of-cons row rows lags e = elim (Option-cases row.lag_s) [
    | inl missing ↦ absurd (cc (rw missing at e))
    | inr (x, here) ↦ elim (Option-cases (lags_of fl rows)) [
      | inl missing ↦ absurd (cc (rw (here, missing) at e))
      | inr (xs, there) ↦ (x, xs, here, there, cc (rw (here, there) at e))
    ]
  ]

  lags-Within :
      (limit : Float) (rows : List (LagRow Float)) (lags : List Float)
      → lags_of fl rows ≡ some lags
      → All (λ x. le x limit ≡ true) lags
      → All (Within limit) rows
  lags-Within limit [] lags e h = tt
  lags-Within limit (row ∷ rows) lags e h =
      let (x, xs, here, there, same) = lags_of-cons row rows lags e in
      let fits : All (λ y. le y limit ≡ true) (x ∷ xs) = rw same at h in
      ((x, here, fits.0), lags-Within limit rows xs there fits.1)

  All-le :
      (m limit : Float) (xs : List Float)
      → le m limit ≡ true
      → All (λ x. le x m ≡ true) xs
      → All (λ x. le x limit ≡ true) xs
  All-le m limit [] le_limit h = tt
  All-le m limit (x ∷ xs) le_limit h =
      (le_trans x m limit h.0 le_limit, All-le m limit xs le_limit h.1)

  quantiles-Within :
      (bound_s : Float) (rows : List (LagRow Float)) (found : Option (List Float))
      → lags_of fl rows ≡ found
      → in_bounds fl bound_s (quantiles_of fl found) ≡ true
      → All (Within (twice bound_s)) rows
  unfolding quantiles_of
  quantiles-Within bound_s rows none e h = absurd (cc h)
  quantiles-Within bound_s rows (some []) e h = absurd (cc h)
  quantiles-Within bound_s rows (some (x ∷ xs)) e h =
      lags-Within (twice bound_s) rows (x ∷ xs) e
        (All-le (maximum (x ∷ xs)) (twice bound_s) (x ∷ xs) (ground arith) (maximum_upper x xs))

  -- The sample is not of the time from `start` on, or it has a lag of at most `limit`.
  abbrev pub Settled : ℕ → Float → LagRow Float → Type 0
  Settled start limit row = (row.at_ms < start) ⊎ Within limit row

  -- The last sample has a lag of at most `limit`.
  abbrev pub NewestWithin : Float → List (LagRow Float) → Type 0
  NewestWithin limit series =
      (newest : LagRow Float) × (last? series ≡ some newest) × Within limit newest

  -- What a run looks like whose verdict is true.
  pub record IsFresh (observations : List Observation) (last : ℕ) (bound_s : Float) (start : ℕ)
      (series : List (LagRow Float)) : Type 0 where
    pub final : Observation
    pub is_final : last? observations ≡ some final
    pub reached : final.watermark ≡ last
    pub settled : All (Settled start (twice bound_s)) series
    pub last_settled :
        any (λ (row : LagRow Float). leb start row.at_ms) series ≡ true
        ⊎ NewestWithin (twice bound_s) series
    pub has_lags : All (λ (row : LagRow Float). (lag : Float) × (row.lag_s ≡ some lag)) series

  keep-Settled :
      (start : ℕ) (limit : Float) (series : List (LagRow Float))
      → All (Within limit) (keep (λ row. leb start row.at_ms) series)
      → All (Settled start limit) series
  keep-Settled start limit [] h = tt
  keep-Settled start limit (row ∷ series) h = elim (Bool-cases (leb start row.at_ms)) [
    | inl late ↦
        let both : All (Within limit) (row ∷ keep (λ r. leb start r.at_ms) series) = rw late at h in
        (inr both.0, keep-Settled start limit series both.1)
    | inr early ↦ (inl (ground arith), keep-Settled start limit series (rw early at h))
  ]

drained-final :
    (observations : List Observation) (last : ℕ)
    → is_drained observations last ≡ true
    → (obs : Observation) × (last? observations ≡ some obs) × (obs.watermark ≡ last)
drained-final observations last h = ground arith

abbrev is_empty_rows : {F : Type 0} → List (LagRow F) → Bool
is_empty_rows [] = true
is_empty_rows (row ∷ rows) = false

abbrev verdict_of : {F : Type 0} → Result (FreshnessResult F) → Bool
verdict_of (ok r) = r.verdict
verdict_of (err e) = false

distinct-cons : (x : ℕ) (xs : List ℕ) → is_empty_list (distinct (x ∷ xs)) ≡ false
unfolding distinct
distinct-cons x [] = refl
distinct-cons x (y ∷ ys) = elim (Bool-cases (member x (y ∷ ys))) [
  | inl again ↦ rw again (distinct-cons y ys)
  | inr new ↦ rw new
]

insert-nonempty : (x : ℕ) (xs : List ℕ) → is_empty_list (insert (λ n. n) x xs) ≡ false
unfolding insert
insert-nonempty x [] = refl
insert-nonempty x (y ∷ ys) = ground arith

sorted-empty : (xs : List ℕ) → is_empty_list (sort_by (λ n. n) (distinct xs)) ≡ true → xs ≡ []
unfolding sort_by
sorted-empty [] h = refl
sorted-empty (x ∷ xs) h = go (distinct (x ∷ xs)) (distinct-cons x xs) h
  where
    go :
        (ys : List ℕ)
        → is_empty_list ys ≡ false
        → is_empty_list (sort_by (λ n. n) ys) ≡ true
        → (x ∷ xs) ≡ []
    go [] e h = absurd (cc e)
    go (y ∷ ys) e h = absurd (cc (insert-nonempty y (sort_by (λ n. n) ys), h))

module _ (fl : Floats) where
  open fl use {Float}

  no_missing :
      (series : List (LagRow Float))
      → map (λ (row : LagRow Float). row.watermark - 1) (keep (is_missing fl) series) ≡ []
      → All (λ (row : LagRow Float). (lag : Float) × (row.lag_s ≡ some lag)) series
  no_missing [] h = tt
  no_missing (row ∷ series) h = elim (Option-cases row.lag_s) [
    | inl missing ↦ absurd (cc (rw missing at h))
    | inr (lag, known) ↦ ((lag, known), no_missing series (rw known at h))
  ]

  none_kept :
      (start : ℕ) (limit : Float) (series : List (LagRow Float))
      → keep (λ row. leb start row.at_ms) series ≡ []
      → All (Settled fl start limit) series
  none_kept start limit series h = keep-Settled fl start limit series (rw h tt)

  some_kept :
      (start : ℕ) (row : LagRow Float) (kept series : List (LagRow Float))
      → keep (λ row. leb start row.at_ms) series ≡ row ∷ kept
      → any (λ (row : LagRow Float). leb start row.at_ms) series ≡ true
  some_kept start row kept [] h = absurd (cc h)
  some_kept start row kept (first ∷ series) h = elim (Bool-cases (leb start first.at_ms)) [
    | inl late ↦ rw late refl
    | inr early ↦ rw early (some_kept start row kept series (rw early at h))
  ]

  -- The samples of a window are those from `start` on, or else the last.
  window-settles :
      (start : ℕ) (limit : Float) (series kept : List (LagRow Float))
      → keep (λ row. leb start row.at_ms) series ≡ kept
      → is_empty_rows (or_last fl kept series) ≡ false
      → All (Within fl limit) (or_last fl kept series)
      → All (Settled fl start limit) series
        × (any (λ (row : LagRow Float). leb start row.at_ms) series ≡ true
            ⊎ NewestWithin fl limit series)
  window-settles start limit series [] e filled h = elim (Option-cases (last? series)) [
    | inl nothing ↦ absurd (cc (rw (is_empty_rows, nothing) at filled))
    | inr (newest, is_newest) ↦
        let all : All (Within fl limit) (newest ∷ []) = rw (All, is_newest) at h in
        (none_kept start limit series e, inr (newest, is_newest, all.0))
  ]
  window-settles start limit series (row ∷ kept) e filled h =
      (keep-Settled fl start limit series (rw e h), inl (some_kept start row kept series e))

  quantiles-filled :
      (bound_s : Float) (rows : List (LagRow Float))
      → in_bounds fl bound_s (quantiles_of fl (lags_of fl rows)) ≡ true
      → is_empty_rows rows ≡ false
  unfolding lags_of quantiles_of
  quantiles-filled bound_s [] h = absurd (cc h)
  quantiles-filled bound_s (row ∷ rows) h = refl

  -- A verdict of true means: the last commit covers the last batch, every sample of the whole run has a
  -- lag, every sample from the end of the warmup on has one of at most twice the bound, and where no sample
  -- comes after the warmup, the last one has.
  pub freshness_result-IsFresh :
      (observations : List Observation) (emit_ms : ℕ → Option ℕ) (epoch_ms end_ms last warmup_s : ℕ)
      (bound_s : Float) (grid : ℕ) (clock : ClockName) (r : FreshnessResult Float)
      → freshness_result fl observations emit_ms epoch_ms end_ms last warmup_s bound_s grid clock
        ≡ ok r
      → r.verdict ≡ true
      → (series : List (LagRow Float)) × (lag_series fl observations emit_ms epoch_ms end_ms grid
            clock
          ≡ ok series)
        × IsFresh fl observations last bound_s (epoch_ms + warmup_s * 1000) series
  unfolding freshness_result lag_quantiles missing_emit_prefixes
  freshness_result-IsFresh observations emit_ms epoch_ms end_ms last warmup_s bound_s grid clock r e
        v =
      let (series, found, same) =
        bind_returns (lag_series fl observations emit_ms epoch_ms end_ms grid clock) _ e in
      let verdict : (is_drained observations last
            && is_empty_list (missing_emit_prefixes fl series)
            && in_bounds fl bound_s
                (lag_quantiles fl (window_of fl (epoch_ms + warmup_s * 1000) series)))
          ≡ true =
        ap verdict_of same ∙ v in
      let start = epoch_ms + warmup_s * 1000 in
      let window = window_of fl start series in
      let bounded : in_bounds fl bound_s (quantiles_of fl (lags_of fl window)) ≡ true =
        ground arith in
      let (settled, last_settled) =
        window-settles start _ series _ refl (quantiles-filled bound_s window bounded)
          (quantiles-Within fl bound_s window (lags_of fl window) refl bounded) in
      let (final, is_final, reached) = drained-final observations last (ground arith) in
      (
        series,
        found,
        record {
          final = final;
          is_final = is_final;
          reached = reached;
          settled = settled;
          last_settled = last_settled;
          has_lags = no_missing series (sorted-empty _ (ground arith));
        },
      )
