-- ===== src/Scorer/Geometry/Intervals.antt =====
-- The commits that the points of a report are about.
use mathlib.Core.List.{append_assoc, append-nil}
use lakehouse_ingest_bench.Prelude.{
  ℕ, zero, suc, ◌+◌, ◌*◌, ◌≤◌, ◌≡◌, refl, sym, ap, ◌∙◌, true, Option, none, some, List, [], ◌∷◌,
  ◌++◌, ltb, take, drop, last?, take-append-drop, arith, Bool-cases, Option-cases, inl, inr, map,
}
use lakehouse_ingest_bench.Result.{ok, bind_returns, ok_injective}
use lakehouse_ingest_bench.Scorer.Snapshots.{
  Snapshot, SnapshotInfo, snapshots_in_order, added_files,
}
use lakehouse_ingest_bench.Scorer.Geometry.{
  prefix_end, PerCommit, per_commit, Point, point, data_files_at, point_at, points_at, ascends,
  Report, final_point, report_of, geometry_report,
}

abbrev pub commits_at : Option Point → List SnapshotInfo
commits_at none = []
commits_at (some p) = p.per_commit.commits

abbrev pub commits_of : List (Option Point) → List SnapshotInfo
commits_of [] = []
commits_of (p ∷ points) = commits_at p ++ commits_of points

per_commit-commits :
    (snapshots : List Snapshot) (commits : List SnapshotInfo) (p : PerCommit)
    → per_commit snapshots commits ≡ ok p
    → p.commits ≡ commits
unfolding per_commit
per_commit-commits snapshots [] p h = sym (ap (λ (q : PerCommit). q.commits) (ok_injective h))
per_commit-commits snapshots (info ∷ commits) p h =
    let (files, _, h1) = bind_returns (added_files snapshots info.snapshot_id) _ h in
    let (rest, found, h2) = bind_returns (per_commit snapshots commits) _ h1 in
    let ih = per_commit-commits snapshots commits rest found in
    sym (ap (λ (q : PerCommit). q.commits) (ok_injective h2)) ∙ ap (λ l. info ∷ l) ih

point-commits :
    (snapshots : List Snapshot) (info : SnapshotInfo) (commits : List SnapshotInfo) (p : Point)
    → point snapshots info commits ≡ ok p
    → p.per_commit.commits ≡ commits
unfolding point
point-commits snapshots info commits p h =
    let (files, _, h1) = bind_returns (data_files_at snapshots info.snapshot_id) _ h in
    let (added, found, h2) = bind_returns (per_commit snapshots commits) _ h1 in
    sym (ap (λ (q : Point). q.per_commit.commits) (ok_injective h2))
    ∙ per_commit-commits snapshots commits added found

prefix_end_mono :
    (ordered : List SnapshotInfo) (a b : ℕ) → a ≤ b → prefix_end ordered a ≤ prefix_end ordered b
unfolding prefix_end
prefix_end_mono [] a b h = omega arith
prefix_end_mono (info ∷ ordered) a b h = ground (arith, prefix_end_mono ordered a b h)

take-drop-take {ℓ} :
    {A : Type ℓ} (b r : ℕ) (xs : List A) → b ≤ r → take b xs ++ drop b (take r xs) ≡ take r xs
take-drop-take zero r xs h = refl
take-drop-take (suc b) zero xs h = absurd (omega (arith, h))
take-drop-take (suc b) (suc r) [] h = refl
take-drop-take (suc b) (suc r) (x ∷ xs) h =
    ap (λ l. x ∷ l) (take-drop-take b r xs (omega (arith, h)))

module _ (snapshots : List Snapshot) (ordered : List SnapshotInfo) (epoch_ms last_ms : ℕ) where
  -- How many commits an offset reaches.
  abbrev reach : ℕ → ℕ
  reach offset_s = prefix_end ordered (epoch_ms + offset_s * 1000)

  point_at-commits :
      (boundary offset_s : ℕ) (found : Option Point × ℕ)
      → boundary ≤ reach offset_s
      → point_at snapshots ordered epoch_ms last_ms boundary offset_s ≡ ok found
      → (take boundary ordered ++ commits_at found.0 ≡ take found.1 ordered)
        × (found.1 ≤ reach offset_s)
  unfolding point_at
  point_at-commits boundary offset_s found le h =
      elim (Bool-cases (ltb last_ms (epoch_ms + offset_s * 1000))) [
        | inl over ↦ rw (← ok_injective (rw over at h)) (append-nil _, le)
        | inr inside ↦ elim (Option-cases (last? (take (reach offset_s) ordered))) [
          | inl none_seen ↦ rw (← ok_injective (rw (inside, none_seen) at h)) (append-nil _, le)
          | inr (info, seen) ↦
              let (p, made, h1) =
                bind_returns (point snapshots info (drop boundary (take (reach offset_s) ordered)))
                  _ (rw (inside, seen) at h) in
              rw (← ok_injective h1, point-commits snapshots info _ p made)
                (take-drop-take boundary (reach offset_s) ordered le, omega arith)
        ]
      ]

  -- The first offset reaches at least the boundary.
  abbrev IsBelow : ℕ → List ℕ → Type 0
  IsBelow boundary [] = Unit
  IsBelow boundary (offset_s ∷ offsets_s) = boundary ≤ reach offset_s

  reach_next :
      (boundary offset_s : ℕ) (offsets_s : List ℕ)
      → boundary ≤ reach offset_s
      → ascends (offset_s ∷ offsets_s) ≡ true
      → (ascends offsets_s ≡ true) × IsBelow boundary offsets_s
  reach_next boundary offset_s [] le h = (refl, tt)
  reach_next boundary offset_s (next ∷ offsets_s) le h =
      let mono =
        prefix_end_mono ordered (epoch_ms + offset_s * 1000) (epoch_ms + next * 1000)
          (ground arith) in
      (ground arith, omega (arith, le, mono))

  points_at-commits :
      (boundary : ℕ) (offsets_s : List ℕ) (found : List (Option Point) × ℕ)
      → ascends offsets_s ≡ true
      → IsBelow boundary offsets_s
      → points_at snapshots ordered epoch_ms last_ms boundary offsets_s ≡ ok found
      → take boundary ordered ++ commits_of found.0 ≡ take found.1 ordered
  unfolding points_at
  points_at-commits boundary [] found up below h = rw (← ok_injective h) (append-nil _)
  points_at-commits boundary (offset_s ∷ offsets_s) found up below h =
      let (first, made, h1) =
        bind_returns (point_at snapshots ordered epoch_ms last_ms boundary offset_s) _ h in
      let (rest, made', h2) =
        bind_returns (points_at snapshots ordered epoch_ms last_ms first.1 offsets_s) _ h1 in
      let (now, reached) = point_at-commits boundary offset_s first below made in
      let (up', below') = reach_next first.1 offset_s offsets_s reached up in
      let later = points_at-commits first.1 offsets_s rest up' below' made' in
      rw (← ok_injective h2) (
        sym (append_assoc (take boundary ordered) (commits_at first.0) (commits_of rest.0))
        ∙ ap (λ l. l ++ commits_of rest.0) now
        ∙ later)

last?-none {ℓ} : {A : Type ℓ} (xs : List A) → last? xs ≡ none → [] ≡ xs
last?-none [] h = refl
last?-none (x ∷ []) h = absurd (cc h)
last?-none (x ∷ y ∷ xs) h = absurd (cc (last?-none (y ∷ xs) h))

commits_of-absent : (offsets_s : List ℕ) → commits_of (map (λ offset_s. none) offsets_s) ≡ []
commits_of-absent [] = refl
commits_of-absent (offset_s ∷ offsets_s) = commits_of-absent offsets_s

zero-IsBelow :
    (snapshots : List Snapshot) (ordered : List SnapshotInfo) (epoch_ms last_ms : ℕ)
    (offsets_s : List ℕ)
    → IsBelow snapshots ordered epoch_ms last_ms 0 offsets_s
zero-IsBelow snapshots ordered epoch_ms last_ms [] = tt
zero-IsBelow snapshots ordered epoch_ms last_ms (offset_s ∷ offsets_s) = omega arith

report-commits :
    (snapshots : List Snapshot) (ordered : List SnapshotInfo) (epoch_ms : ℕ) (offsets_s : List ℕ)
    (r : Report)
    → ascends offsets_s ≡ true
    → report_of snapshots ordered epoch_ms offsets_s true ≡ ok r
    → ordered ≡ commits_of r.at_offsets ++ commits_at r.final
unfolding report_of final_point
report-commits snapshots ordered epoch_ms offsets_s r up h = elim (Option-cases (last? ordered)) [
  | inl nothing ↦
      rw (← ok_injective (rw (nothing, report_of) at h), commits_of-absent offsets_s)
        (sym (last?-none ordered nothing))
  | inr (newest, seen) ↦
      let last_ms = newest.timestamp_ms in
      let (points, made, h1) =
        bind_returns (points_at snapshots ordered epoch_ms last_ms 0 offsets_s) _
          (rw (seen, report_of) at h) in
      let (end, made', h2) =
        bind_returns (final_point snapshots newest (drop points.1 ordered) true) _ h1 in
      let (p, made'', h3) = bind_returns (point snapshots newest (drop points.1 ordered)) _ made' in
      let before =
        points_at-commits snapshots ordered epoch_ms last_ms 0 offsets_s points up
          (zero-IsBelow snapshots ordered epoch_ms last_ms offsets_s) made in
      rw (← ok_injective h2, ← ok_injective h3, before, point-commits snapshots newest _ p made'')
        (sym (take-append-drop points.1 ordered))
]

-- In a report with a final point the commits are shared out: the commits of the points, in the
-- order of their offsets, and then those of the final point are together exactly the table's
-- commits in order, so that each commit is counted in exactly one interval.
pub geometry_report-commits :
    (snapshots : List Snapshot) (epoch_ms : ℕ) (offsets_s : List ℕ) (r : Report)
    → geometry_report snapshots epoch_ms offsets_s true ≡ ok r
    → snapshots_in_order snapshots ≡ ok (commits_of r.at_offsets ++ commits_at r.final)
unfolding geometry_report
geometry_report-commits snapshots epoch_ms offsets_s r h = elim (Bool-cases (ascends offsets_s)) [
  | inr down ↦ absurd (cc (rw down at h))
  | inl up ↦
      let (ordered, found, h1) = bind_returns (snapshots_in_order snapshots) _ (rw up at h) in
      found ∙ ap ok (report-commits snapshots ordered epoch_ms offsets_s r up h1)
]
