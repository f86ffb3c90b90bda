-- ===== src/Scorer/Freshness/Skew.antt =====
-- The clock-skew flag.
use mathlib.Core.Option
use lakehouse_ingest_bench.Prelude.Floats.{Floats}
use lakehouse_ingest_bench.Prelude.Int.{sub_ℕ}
use lakehouse_ingest_bench.Prelude.{
  ℕ, zero, suc, ◌≤◌, ◌≡◌, refl, ◌↔◌, inl, inr, true, false, Option, none, some, List, [], ◌∷◌,
  arith, Bool-cases, All,
}
use lakehouse_ingest_bench.Scorer.Freshness.{
  Observation, least, observation_lags_s, is_negative, clock_skew_suspected,
}

-- The commit does not carry an earlier time than the emit time of its batch, where that is known.
abbrev pub NotBefore : ℕ → Option ℕ → Type 0
NotBefore timestamp_ms none = Unit
NotBefore timestamp_ms (some ms) = ms ≤ timestamp_ms

abbrev pub InOrderAt : (ℕ → Option ℕ) → ℕ → ℕ → Type 0
InOrderAt emit_ms timestamp_ms zero = Unit
InOrderAt emit_ms timestamp_ms (suc prefix) = NotBefore timestamp_ms (emit_ms prefix)

abbrev pub InOrder : (ℕ → Option ℕ) → Observation → Type 0
InOrder emit_ms obs = InOrderAt emit_ms obs.timestamp_ms obs.watermark

module _ (fl : Floats) where
  open fl use {Float, le, origin, div, div_sign, le_trans, le_total}

  abbrev Fine : Float → Type 0
  Fine x = le origin x ≡ true

  -- The least is not negative just when nothing is.
  least-IsFine :
      (m : Float) (xs : List Float)
      → (is_negative fl (least fl (some m) xs) ≡ false) ↔ (Fine m × All Fine xs)
  unfolding least
  least-IsFine m [] = (λ h. (ground arith, tt), λ h. rw h.0)
  least-IsFine m (x ∷ xs) = elim (Bool-cases (le m x)) [
    | inl smaller ↦
        let ih = least-IsFine m xs in
        rw smaller (
          λ h. let (fm, fx) = ih.0 h in (fm, (le_trans origin m x fm smaller, fx)),
          λ h. ih.1 (h.0, h.1.1),
        )
    | inr larger ↦
        let ih = least-IsFine x xs in
        rw larger (
          λ h. let (fx, fs) = ih.0 h in (le_trans origin x m fx (le_total m x larger), (fx, fs)),
          λ h. ih.1 (h.1.0, h.1.1),
        )
  ]

  abbrev with_lag : Option Float → List Float → List Float
  with_lag lag rest = elim lag [ none ↦ rest | some x ↦ x ∷ rest ]

  known_emit :
      (timestamp_ms : ℕ) (emitted : Option ℕ) (rest : List Float) (Q : Type 0)
      → (All Fine rest ↔ Q)
      → All Fine (with_lag (Option.map (λ ms. div (sub_ℕ timestamp_ms ms) 1000) emitted) rest)
        ↔ (NotBefore timestamp_ms emitted × Q)
  known_emit timestamp_ms none rest Q h = (λ a. (tt, h.0 a), λ q. h.1 q.1)
  known_emit timestamp_ms (some ms) rest Q h =
      let sign = div_sign (sub_ℕ timestamp_ms ms) in
      (
        λ a. let ahead = sign.0 a.0 in (ground arith, h.0 a.1),
        λ q. let le : ms ≤ timestamp_ms = q.0 in (sign.1 (ground arith), h.1 q.1),
      )

  lag_at :
      (watermark timestamp_ms : ℕ) (emit_ms : ℕ → Option ℕ) (rest : List Float) (Q : Type 0)
      → (All Fine rest ↔ Q)
      → All Fine (
          with_lag
            (elim watermark [
              | zero ↦ none
              | suc prefix ↦ Option.map (λ ms. div (sub_ℕ timestamp_ms ms) 1000) (emit_ms prefix)
            ])
            rest)
        ↔ (InOrderAt emit_ms timestamp_ms watermark × Q)
  lag_at zero timestamp_ms emit_ms rest Q h = (λ a. (tt, h.0 a), λ q. h.1 q.1)
  lag_at (suc prefix) timestamp_ms emit_ms rest Q h =
      known_emit timestamp_ms (emit_ms prefix) rest Q h

  lags-InOrder :
      (observations : List Observation) (emit_ms : ℕ → Option ℕ)
      → All Fine (observation_lags_s fl observations emit_ms) ↔ All (InOrder emit_ms) observations
  unfolding observation_lags_s
  lags-InOrder [] emit_ms = (λ h. tt, λ h. tt)
  lags-InOrder (obs ∷ observations) emit_ms =
      lag_at obs.watermark obs.timestamp_ms emit_ms (observation_lags_s fl observations emit_ms) _
        (lags-InOrder observations emit_ms)

  least-All : (xs : List Float) → (is_negative fl (least fl none xs) ≡ false) ↔ All Fine xs
  unfolding least
  least-All [] = (λ h. tt, λ h. refl)
  least-All (x ∷ xs) = least-IsFine x xs

  -- The flag stays down just when no commit is stamped earlier than the emit time of the batch that
  -- it covers; commits that cover no batch, or a batch of unknown emit time, do not count.
  pub clock_skew-InOrder :
      (observations : List Observation) (emit_ms : ℕ → Option ℕ)
      → (clock_skew_suspected fl observations emit_ms ≡ false) ↔ All (InOrder emit_ms) observations
  unfolding clock_skew_suspected
  clock_skew-InOrder observations emit_ms =
      let fine = least-All (observation_lags_s fl observations emit_ms) in
      let ordered = lags-InOrder observations emit_ms in
      (λ h. ordered.0 (fine.0 h), λ h. fine.1 (ordered.1 h))
