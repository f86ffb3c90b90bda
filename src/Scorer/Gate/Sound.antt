-- ===== src/Scorer/Gate/Sound.antt =====
-- What the gate's verdicts say of the samples.
use lakehouse_ingest_bench.Prelude.Floats.{Floats}
use lakehouse_ingest_bench.Prelude.{
  ℕ, ◌+◌, ◌*◌, ◌≤◌, ◌<◌, ◌≡◌, refl, subst, ◌↔◌, ◌⊎◌, inl, inr, Bool, false, ◌&&◌, Option, none,
  some, List, [], ◌∷◌, map, arith, ltb, leb, Bool-cases, Option-cases,
}
use lakehouse_ingest_bench.Scorer.Keepup.{KeepupSample, max_of}
use lakehouse_ingest_bench.Scorer.Gate.{
  Verdict, void_aborted, void_no_sample, void_stale, undersized_lag, undersized_backlog,
  pass_waiting, pass_running, backlog_floor, backlog_floors, rising, floor_verdict, over_bound,
  gate_verdict,
}
use lakehouse_ingest_bench.Scorer.Gate.Floors.{
  Any, IsFloor, IsLevel, LagFits, backlog_floor-IsFloor, IsFloor-unique, rising-IsLevel,
  IsLevel-rising, max_of-Any, Any-max_of, fits-from, from-fits,
}

abbrev pub IsPass : Verdict → Type 0
IsPass v = (v ≡ pass_waiting) ⊎ (v ≡ pass_running)

-- What a run that may go on looks like: the scorer is alive and has a recent sample, the lag is within
-- twice the bound once the adaptation time is over, the recent window has a sample, and the backlog
-- floor is not rising.
pub record IsHealthy (fl : Floats) (aborted : Bool) (lag_s : Option fl.Float)
    (samples : List (KeepupSample fl.Float)) (bound_s : fl.Float)
    (adaptation_s window_s now_ms epoch_ms stale_after_s : ℕ) : Type 0 where
  pub alive : aborted ≡ false
  pub is_recent :
      Any (λ (s : KeepupSample fl.Float). now_ms ≤ s.at_ms + stale_after_s * 1000) samples
  pub lag_fits : (now_ms < epoch_ms + adaptation_s * 1000) ⊎ LagFits fl lag_s bound_s
  pub recent : ℕ
  pub middle : Option ℕ
  pub oldest : Option ℕ
  pub is_floor : IsFloor now_ms (window_s * 1000) 0 samples (some recent)
  pub is_middle : IsFloor now_ms (window_s * 1000) 1 samples middle
  pub is_oldest : IsFloor now_ms (window_s * 1000) 2 samples oldest
  pub level : IsLevel recent middle oldest

floor_verdict-pass :
    (a b c : Option ℕ) (now_ms epoch_ms : ℕ)
    → IsPass (floor_verdict (a ∷ b ∷ c ∷ []) now_ms epoch_ms)
    → (r : ℕ) × (a ≡ some r) × (rising r b c ≡ false)
unfolding floor_verdict
floor_verdict-pass none b c now_ms epoch_ms h = absurd (ground arith)
floor_verdict-pass (some r) b c now_ms epoch_ms h = elim (Bool-cases (rising r b c)) [
  | inl up ↦ absurd (pass_ne (rw up at h))
  | inr level ↦ (r, refl, level)
]
  where
    pass_ne : IsPass undersized_backlog → ⊥
    pass_ne (inl e) = cc
    pass_ne (inr e) = cc

IsPass-floor_verdict :
    (a b c : Option ℕ) (now_ms epoch_ms r : ℕ)
    → a ≡ some r
    → rising r b c ≡ false
    → IsPass (floor_verdict (a ∷ b ∷ c ∷ []) now_ms epoch_ms)
unfolding floor_verdict
IsPass-floor_verdict a b c now_ms epoch_ms r e level = rw e (
    rw level (elim (Bool-cases (ltb now_ms epoch_ms)) [
      | inl early ↦ inl (rw early)
      | inr running ↦ inr (rw running)
    ]))

not_pass : (v : Verdict) → (v ≡ pass_waiting → ⊥) → (v ≡ pass_running → ⊥) → IsPass v → ⊥
not_pass v a b (inl e) = a e
not_pass v a b (inr e) = b e

module _ (fl : Floats) (aborted : Bool) (lag_s : Option fl.Float)
    (samples : List (KeepupSample fl.Float)) (bound_s : fl.Float)
    (adaptation_s window_s now_ms epoch_ms stale_after_s : ℕ) where
  abbrev verdict : Verdict
  verdict =
      gate_verdict fl aborted lag_s samples bound_s adaptation_s window_s now_ms epoch_ms
        stale_after_s

  abbrev Healthy : Type 0
  Healthy =
      IsHealthy fl aborted lag_s samples bound_s adaptation_s window_s now_ms epoch_ms stale_after_s

  pass→IsHealthy : IsPass verdict → Healthy
  unfolding gate_verdict backlog_floors
  pass→IsHealthy h = elim (Bool-cases aborted) [
    | inl down ↦ absurd (not_pass void_aborted (λ e. cc) (λ e. cc) (rw down at h))
    | inr alive ↦
        elim (Option-cases (max_of (map (λ (s : KeepupSample fl.Float). s.at_ms) samples))) [
          | inl missing ↦
              absurd (not_pass void_no_sample (λ e. cc) (λ e. cc) (rw (alive, missing) at h))
          | inr (newest_ms, is_newest) ↦
              elim (Bool-cases (ltb (newest_ms + stale_after_s * 1000) now_ms)) [
                | inl old ↦
                    absurd
                      (not_pass void_stale (λ e. cc) (λ e. cc) (rw (alive, is_newest, old) at h))
                | inr recent ↦
                    elim (Bool-cases (
                      leb (epoch_ms + adaptation_s * 1000) now_ms && over_bound fl lag_s bound_s)) [
                        | inl late ↦ absurd (
                            not_pass undersized_lag (λ e. cc) (λ e. cc)
                              (rw (alive, is_newest, recent, late) at h))
                        | inr fits ↦
                            let (floor, is_floor, level) =
                              floor_verdict-pass _ _ _ now_ms epoch_ms
                                (rw (alive, is_newest, recent, fits) at h) in
                            let step_ms = window_s * 1000 in
                            let at0 = backlog_floor-IsFloor now_ms step_ms 0 samples in
                            record {
                              alive = alive;
                              is_recent =
                                  max_of-Any samples newest_ms _ now_ms is_newest (ground arith);
                              lag_fits = fits-from fl lag_s bound_s _ now_ms fits;
                              recent = floor;
                              middle = _;
                              oldest = _;
                              is_floor = subst (IsFloor now_ms step_ms 0 samples) is_floor at0;
                              is_middle = backlog_floor-IsFloor now_ms step_ms 1 samples;
                              is_oldest = backlog_floor-IsFloor now_ms step_ms 2 samples;
                              level = rising-IsLevel floor _ _ level;
                            }
                      ]
              ]
        ]
  ]

  IsHealthy→pass : Healthy → IsPass verdict
  unfolding gate_verdict backlog_floors
  IsHealthy→pass h =
      let step_ms = window_s * 1000 in
      let (newest_ms, is_newest, is_recent) = Any-max_of samples _ now_ms h.is_recent in
      let fresh : ltb (newest_ms + stale_after_s * 1000) now_ms ≡ false = ground arith in
      let fits = from-fits fl lag_s bound_s _ now_ms h.lag_fits in
      let recent =
        IsFloor-unique now_ms step_ms 0 samples _ _ (backlog_floor-IsFloor now_ms step_ms 0 samples)
          h.is_floor in
      let middle =
        IsFloor-unique now_ms step_ms 1 samples _ _ h.is_middle
          (backlog_floor-IsFloor now_ms step_ms 1 samples) in
      let oldest =
        IsFloor-unique now_ms step_ms 2 samples _ _ h.is_oldest
          (backlog_floor-IsFloor now_ms step_ms 2 samples) in
      let level : rising h.recent (backlog_floor samples now_ms step_ms 1)
            (backlog_floor samples now_ms step_ms 2)
          ≡ false =
        IsLevel-rising h.recent _ _ (rw (middle, oldest) at h.level) in
      rw (h.alive, is_newest)
        (rw (fresh, fits) (IsPass-floor_verdict _ _ _ now_ms epoch_ms h.recent recent level))

  -- The gate passes a run exactly when it is healthy: the scorer has not aborted and one of its samples is
  -- recent, the lag is within twice the bound or the adaptation time is not over, the recent window has a
  -- sample, and the least backlogs of the three windows do not rise from a positive oldest one.
  pub gate_verdict-IsPass_iff : IsPass verdict ↔ Healthy
  gate_verdict-IsPass_iff = (pass→IsHealthy, IsHealthy→pass)
