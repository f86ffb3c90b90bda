-- ===== src/Scorer/Gate/Floors.antt =====
-- The least backlogs of the gate's windows, said of the samples one by one.
use lakehouse_ingest_bench.Prelude.Floats.{Floats}
use lakehouse_ingest_bench.Prelude.{
  ℕ, ◌+◌, ◌*◌, ◌≤◌, ◌<◌, ◌≡◌, refl, sym, ap, subst, ◌⊎◌, inl, inr, true, false, ◌&&◌, Option, none,
  some, List, [], ◌∷◌, map, arith, leb, Bool-cases, Option-cases, All, max, min,
}
use lakehouse_ingest_bench.Scorer.Keepup.{KeepupSample, max_of}
use lakehouse_ingest_bench.Scorer.Gate.{backlog_floor, rising, in_window, over_bound}

abbrev pub Any : {A : Type 0} → (A → Type 0) → List A → Type 0
Any P [] = ⊥
Any P (x ∷ xs) = P x ⊎ Any P xs

-- The time lies in the half-open window `index` steps back from now, or it does not.
abbrev Inside : (now_ms step_ms index at_ms : ℕ) → Type 0
Inside now_ms step_ms index at_ms =
    (now_ms ≤ at_ms + (index + 1) * step_ms) × (at_ms + index * step_ms < now_ms)

abbrev Outside : (now_ms step_ms index at_ms : ℕ) → Type 0
Outside now_ms step_ms index at_ms =
    (at_ms + (index + 1) * step_ms < now_ms) ⊎ (now_ms ≤ at_ms + index * step_ms)

-- The least backlog among the samples of a window, or none where no sample lies in it.
abbrev pub IsFloor :
    {F : Type 0} → (now_ms step_ms index : ℕ) → List (KeepupSample F) → Option ℕ → Type 0
IsFloor {F} now_ms step_ms index samples none =
    All (λ (s : KeepupSample F). Outside now_ms step_ms index s.at_ms) samples
IsFloor {F} now_ms step_ms index samples (some floor) =
    Any (λ (s : KeepupSample F). Inside now_ms step_ms index s.at_ms × (s.backlog_rows ≡ floor))
      samples
    × All (λ (s : KeepupSample F). Outside now_ms step_ms index s.at_ms ⊎ (floor ≤ s.backlog_rows))
        samples

-- The floors do not rise from a positive oldest over the middle to the recent one.
abbrev pub IsLevel : ℕ → Option ℕ → Option ℕ → Type 0
IsLevel recent (some middle) (some oldest) = (oldest ≡ 0) ⊎ (middle ≤ oldest) ⊎ (recent ≤ middle)
IsLevel recent _ _ = Unit

-- The lag is none, or at most twice the bound.
abbrev pub LagFits : (fl : Floats) → Option fl.Float → fl.Float → Type 0
LagFits fl none bound_s = Unit
LagFits fl (some lag) bound_s = fl.le lag (fl.twice bound_s) ≡ true

module _ (now_ms step_ms index : ℕ) where
  in_window-Inside :
      (at_ms : ℕ) → in_window now_ms step_ms index at_ms ≡ true → Inside now_ms step_ms index at_ms
  in_window-Inside at_ms h = (ground arith, ground arith)

  in_window-Outside :
      (at_ms : ℕ)
      → in_window now_ms step_ms index at_ms ≡ false
      → Outside now_ms step_ms index at_ms
  in_window-Outside at_ms h = ground arith

  not_both :
      (at_ms : ℕ) → Inside now_ms step_ms index at_ms → Outside now_ms step_ms index at_ms → ⊥
  not_both at_ms h (inl early) = omega arith
  not_both at_ms h (inr late) = omega arith

module _ {F : Type 0} (now_ms step_ms index : ℕ) where
  IsFloor-Outside :
      (s : KeepupSample F) (samples : List (KeepupSample F)) (floor : Option ℕ)
      → Outside now_ms step_ms index s.at_ms
      → IsFloor now_ms step_ms index samples floor
      → IsFloor now_ms step_ms index (s ∷ samples) floor
  IsFloor-Outside s samples none out h = (out, h)
  IsFloor-Outside s samples (some floor) out h = (inr h.0, (inl out, h.1))

  All-lower :
      (low floor : ℕ) (samples : List (KeepupSample F))
      → low ≤ floor
      → All
          (λ (s : KeepupSample F). Outside now_ms step_ms index s.at_ms ⊎ (floor ≤ s.backlog_rows))
          samples
      → All
          (λ (s : KeepupSample F). Outside now_ms step_ms index s.at_ms ⊎ (low ≤ s.backlog_rows))
          samples
  All-lower low floor [] le h = tt
  All-lower low floor (s ∷ samples) le (inl out, h) = (inl out, All-lower low floor samples le h)
  All-lower low floor (s ∷ samples) le (inr above, h) =
      (inr (omega arith), All-lower low floor samples le h)

  All-Outside :
      (low : ℕ) (samples : List (KeepupSample F))
      → All (λ (s : KeepupSample F). Outside now_ms step_ms index s.at_ms) samples
      → All
          (λ (s : KeepupSample F). Outside now_ms step_ms index s.at_ms ⊎ (low ≤ s.backlog_rows))
          samples
  All-Outside low [] h = tt
  All-Outside low (s ∷ samples) (out, h) = (inl out, All-Outside low samples h)

  IsFloor-Inside :
      (s : KeepupSample F) (samples : List (KeepupSample F)) (floor : Option ℕ)
      → Inside now_ms step_ms index s.at_ms
      → IsFloor now_ms step_ms index samples floor
      → IsFloor now_ms step_ms index
          (s ∷ samples)
          (elim floor [ none ↦ some s.backlog_rows | some m ↦ some (min s.backlog_rows m) ])
  IsFloor-Inside s samples none here h =
      (inl (here, refl), (inr (omega arith), All-Outside s.backlog_rows samples h))
  IsFloor-Inside s samples (some m) here (found, above) = elim (Bool-cases (leb s.backlog_rows m)) [
    | inl low ↦
        let same : min s.backlog_rows m ≡ s.backlog_rows = ground arith in
        (
          inl (here, sym same),
          (inr (omega arith), All-lower (min s.backlog_rows m) m samples (omega arith) above),
        )
    | inr high ↦
        let same : m ≡ min s.backlog_rows m = ground arith in
        (
          inr (
              subst
                (λ k.
                  Any
                    (λ (s : KeepupSample F).
                      Inside now_ms step_ms index s.at_ms × (s.backlog_rows ≡ k))
                    samples)
                same found),
          (inr (omega arith), All-lower (min s.backlog_rows m) m samples (omega arith) above),
        )
  ]

  pub backlog_floor-IsFloor :
      (samples : List (KeepupSample F))
      → IsFloor now_ms step_ms index samples (backlog_floor samples now_ms step_ms index)
  unfolding backlog_floor
  backlog_floor-IsFloor [] = tt
  backlog_floor-IsFloor (s ∷ samples) = elim (Bool-cases (in_window now_ms step_ms index s.at_ms)) [
    | inr out ↦
        rw (backlog_floor, out)
          (IsFloor-Outside s samples _ (in_window-Outside now_ms step_ms index s.at_ms out)
            (backlog_floor-IsFloor samples))
    | inl here ↦
        rw (backlog_floor, here)
          (IsFloor-Inside s samples _ (in_window-Inside now_ms step_ms index s.at_ms here)
            (backlog_floor-IsFloor samples))
  ]

  floor_le :
      (samples : List (KeepupSample F)) (a b : ℕ)
      → Any
          (λ (s : KeepupSample F). Inside now_ms step_ms index s.at_ms × (s.backlog_rows ≡ b))
          samples
      → All
          (λ (s : KeepupSample F). Outside now_ms step_ms index s.at_ms ⊎ (a ≤ s.backlog_rows))
          samples
      → a ≤ b
  floor_le [] a b found above = absurd found
  floor_le (s ∷ samples) a b (inl (here, same)) (inl out, above) =
      absurd (not_both now_ms step_ms index s.at_ms here out)
  floor_le (s ∷ samples) a b (inl (here, same)) (inr le, above) = omega arith
  floor_le (s ∷ samples) a b (inr found) (first, above) = floor_le samples a b found above

  none-Inside :
      (samples : List (KeepupSample F)) (b : ℕ)
      → Any
          (λ (s : KeepupSample F). Inside now_ms step_ms index s.at_ms × (s.backlog_rows ≡ b))
          samples
      → All (λ (s : KeepupSample F). Outside now_ms step_ms index s.at_ms) samples
      → ⊥
  none-Inside [] b found out = found
  none-Inside (s ∷ samples) b (inl (here, same)) (out, rest) =
      not_both now_ms step_ms index s.at_ms here out
  none-Inside (s ∷ samples) b (inr found) (out, rest) = none-Inside samples b found rest

  pub IsFloor-unique :
      (samples : List (KeepupSample F)) (a b : Option ℕ)
      → IsFloor now_ms step_ms index samples a
      → IsFloor now_ms step_ms index samples b
      → a ≡ b
  IsFloor-unique samples none none h k = refl
  IsFloor-unique samples none (some b) h (found, above) = absurd (none-Inside samples b found h)
  IsFloor-unique samples (some a) none (found, above) k = absurd (none-Inside samples a found k)
  IsFloor-unique samples (some a) (some b) (found, above) (found', above') =
      let le = floor_le samples a b found' above in
      let ge = floor_le samples b a found above' in ap some (omega arith)

pub rising-IsLevel : (r : ℕ) (b c : Option ℕ) → rising r b c ≡ false → IsLevel r b c
rising-IsLevel r none c h = tt
rising-IsLevel r (some m) none h = tt
rising-IsLevel r (some m) (some o) h = ground arith

pub IsLevel-rising : (r : ℕ) (b c : Option ℕ) → IsLevel r b c → rising r b c ≡ false
IsLevel-rising r none c h = refl
IsLevel-rising r (some m) none h = refl
IsLevel-rising r (some m) (some o) h = ground arith

module _ {F : Type 0} where
  pub max_of-Any :
      (samples : List (KeepupSample F)) (newest stale now_ms : ℕ)
      → max_of (map (λ (s : KeepupSample F). s.at_ms) samples) ≡ some newest
      → now_ms ≤ newest + stale
      → Any (λ (s : KeepupSample F). now_ms ≤ s.at_ms + stale) samples
  max_of-Any [] newest stale now_ms h le = absurd (cc h)
  max_of-Any (s ∷ samples) newest stale now_ms h le =
      elim (Option-cases (max_of (map (λ (s : KeepupSample F). s.at_ms) samples))) [
        | inl nothing ↦ let e : s.at_ms ≡ newest = cc (rw nothing at h) in inl (omega arith)
        | inr (m, found) ↦
            let e : max s.at_ms m ≡ newest = cc (rw found at h) in
            elim (Bool-cases (leb m s.at_ms)) [
              | inl here ↦ inl (ground arith)
              | inr later ↦ inr (max_of-Any samples m stale now_ms found (ground arith))
            ]
      ]

  pub Any-max_of :
      (samples : List (KeepupSample F)) (stale now_ms : ℕ)
      → Any (λ (s : KeepupSample F). now_ms ≤ s.at_ms + stale) samples
      → (newest : ℕ) × (max_of (map (λ (s : KeepupSample F). s.at_ms) samples) ≡ some newest)
        × (now_ms ≤ newest + stale)
  Any-max_of [] stale now_ms h = absurd h
  Any-max_of (s ∷ samples) stale now_ms (inr h) =
      let (m, found, le) = Any-max_of samples stale now_ms h in
      (max s.at_ms m, rw found refl, omega arith)
  Any-max_of (s ∷ samples) stale now_ms (inl h) =
      elim (Option-cases (max_of (map (λ (s : KeepupSample F). s.at_ms) samples))) [
        | inl nothing ↦ (s.at_ms, rw nothing refl, h)
        | inr (m, found) ↦ (max s.at_ms m, rw found refl, omega arith)
      ]

module _ (fl : Floats) where
  pub fits-from :
      (lag_s : Option fl.Float) (bound_s : fl.Float) (due_ms now_ms : ℕ)
      → leb due_ms now_ms && over_bound fl lag_s bound_s ≡ false
      → (now_ms < due_ms) ⊎ LagFits fl lag_s bound_s
  fits-from none bound_s due_ms now_ms h = inr tt
  fits-from (some lag) bound_s due_ms now_ms h = ground arith

  pub from-fits :
      (lag_s : Option fl.Float) (bound_s : fl.Float) (due_ms now_ms : ℕ)
      → (now_ms < due_ms) ⊎ LagFits fl lag_s bound_s
      → leb due_ms now_ms && over_bound fl lag_s bound_s ≡ false
  from-fits none bound_s due_ms now_ms h = ground arith
  from-fits (some lag) bound_s due_ms now_ms h = ground arith
