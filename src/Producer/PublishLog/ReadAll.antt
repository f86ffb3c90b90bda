-- ===== src/Producer/PublishLog/ReadAll.antt =====
-- What `read_all` returns, and the producer's lag as the scorer reads it.
use lakehouse_ingest_bench.Prelude.Sorting.{sort_by, IsSorted, sum_by-sort_by, sort_by-IsSorted}
use lakehouse_ingest_bench.Prelude.Search.{member}
use lakehouse_ingest_bench.Result.{ok, bind_returns}
use lakehouse_ingest_bench.Prelude.{
  ℕ, ◌≤◌, ◌<◌, ◌≡◌, refl, ◌∙◌, inl, inr, true, false, some, List, [], ◌∷◌, ◌++◌, arith, ◌==◌,
  if◌then◌else◌, ==_iff, Bool-cases, sum_by, All, sum_by-append,
}
use lakehouse_ingest_bench.Producer.PublishLog.{
  PublishRecord, Line, blank, trailer, entry, missing_key, garbled, parse, LogFile, log_names,
  claim, read_logs, read_all,
}

-- The batch records among the lines of a log.
abbrev pub entries : List Line → List PublishRecord
entries [] = []
entries (entry r ∷ lines) = r ∷ entries lines
entries (_ ∷ lines) = entries lines

-- How many of the records are of batch `b`.
abbrev pub records_of : ℕ → List PublishRecord → ℕ
records_of b = sum_by (λ r. if r.batch == b then 1 else 0)

-- Each batch stands in the records at most once, and not among the owned ones.
abbrev Distinct : List ℕ → List PublishRecord → Type 0
Distinct owner [] = Unit
Distinct owner (r ∷ records) = (member r.batch owner ≡ false) × Distinct (r.batch ∷ owner) records

claim-Distinct :
    (owner : List ℕ) (xs ys : List PublishRecord) {owner' : List ℕ}
    → claim owner xs ≡ ok owner'
    → Distinct owner' ys
    → Distinct owner (xs ++ ys)
unfolding claim
claim-Distinct owner [] ys h d = let e : owner ≡ _ = cc in rw e d
claim-Distinct owner (x ∷ xs) ys h d = elim (Bool-cases (member x.batch owner)) [
  | inl taken ↦ absurd (cc (rw taken at h))
  | inr free ↦ (free, claim-Distinct (x.batch ∷ owner) xs ys (rw free at h) d)
]

records_of-Distinct :
    (owner : List ℕ) (records : List PublishRecord) (b : ℕ)
    → Distinct owner records
    → (records_of b records ≤ 1) × (member b owner ≡ true → records_of b records ≡ 0)
records_of-Distinct owner [] b d = (omega arith, λ h. refl)
records_of-Distinct owner (r ∷ records) b d =
    let (once, gone) = records_of-Distinct (r.batch ∷ owner) records b d.1 in
    elim (Bool-cases (r.batch == b)) [
      | inl same ↦
          let e : r.batch ≡ b = (==_iff r.batch b).0 same in
          let rest : records_of b records ≡ 0 = gone (rw same) in
          (rw same (omega (arith, rest)), λ h. absurd (cc (d.0, e)))
      | inr other ↦ rw other (omega (arith, once), λ h. omega (arith, gone (rw (other, h))))
    ]

parse-entries :
    (lines : List Line) (records : List PublishRecord)
    → parse lines ≡ ok records
    → records ≡ entries lines
unfolding parse
parse-entries [] records h = cc
parse-entries (blank ∷ lines) records h = parse-entries lines records h
parse-entries (trailer s n ∷ lines) records h = parse-entries lines records h
parse-entries (entry r ∷ lines) records h =
    let (rest, e, same) = bind_returns (parse lines) (λ rest. ok (r ∷ rest)) h in
    let ih = parse-entries lines rest e in cc
parse-entries (missing_key ∷ lines) records h = absurd (cc h)
parse-entries (garbled ∷ lines) records h = absurd (cc h)

read_logs-cons :
    (owner : List ℕ) (file : LogFile) (files : List LogFile) (records : List PublishRecord)
    → read_logs owner (file ∷ files) ≡ ok records
    → (owner' : List ℕ) × (rest : List PublishRecord) × (claim owner (entries file.lines)
        ≡ ok owner')
      × (read_logs owner' files ≡ ok rest)
      × (records ≡ entries file.lines ++ rest)
unfolding read_logs
read_logs-cons owner file files records h =
    let (own, parsed, h1) = bind_returns (parse file.lines) _ h in
    let (owner', claimed, h2) = bind_returns (claim owner own) _ h1 in
    let (rest, others, e) = bind_returns (read_logs owner' files) _ h2 in
    let same = parse-entries file.lines own parsed in
    (owner', rest, rw (← same) claimed, others, rw (← same) (cc e))

read_logs-Distinct :
    (owner : List ℕ) (files : List LogFile) (records : List PublishRecord)
    → read_logs owner files ≡ ok records
    → Distinct owner records
unfolding read_logs
read_logs-Distinct owner [] records h = let e : [] ≡ records = cc in rw (← e) tt
read_logs-Distinct owner (file ∷ files) records h =
    let (owner', rest, claimed, others, e) = read_logs-cons owner file files records h in
    rw e (
      claim-Distinct owner (entries file.lines) rest claimed
        (read_logs-Distinct owner' files rest others))

sum_by-read_logs :
    (f : PublishRecord → ℕ) (owner : List ℕ) (files : List LogFile) (records : List PublishRecord)
    → read_logs owner files ≡ ok records
    → sum_by f records ≡ sum_by (λ (file : LogFile). sum_by f (entries file.lines)) files
unfolding read_logs
sum_by-read_logs f owner [] records h = let e : [] ≡ records = cc in rw (← e) refl
sum_by-read_logs f owner (file ∷ files) records h =
    let (owner', rest, claimed, others, e) = read_logs-cons owner file files records h in
    rw e (
      omega (
        arith,
        sum_by-append f (entries file.lines) rest,
        sum_by-read_logs f owner' files rest others,
      ))

abbrev pub IsAscending : List PublishRecord → Type 0
IsAscending [] = Unit
IsAscending (r ∷ records) = All (λ s. r.batch < s.batch) records × IsAscending records

All-above :
    (b : ℕ) (records : List PublishRecord)
    → All (λ s. b ≤ s.batch) records
    → records_of b records ≡ 0
    → All (λ s. b < s.batch) records
All-above b [] h none_left = tt
All-above b (r ∷ records) h none_left = (ground arith, All-above b records h.1 (omega arith))

IsSorted-IsAscending :
    (records : List PublishRecord)
    → IsSorted (λ r. r.batch) records
    → ((b : ℕ) → records_of b records ≤ 1)
    → IsAscending records
IsSorted-IsAscending [] h once = tt
IsSorted-IsAscending (r ∷ records) h once = (
  All-above r.batch records h.0 (ground (arith, once r.batch)),
  IsSorted-IsAscending records h.1 (λ b. omega (arith, once b)),
)

-- If `read_all` returns, its records stand in strictly ascending order of their batches, so none is
-- there twice, and they are the records of all the logs: every sum over them (of rows, of errors,
-- of any other measure) is the sum over the logs.
pub read_all-records :
    (listing : List LogFile) (records : List PublishRecord)
    → read_all (some listing) ≡ ok records
    → IsAscending records
      × ((f : PublishRecord → ℕ)
          → sum_by f records
            ≡ sum_by (λ (file : LogFile). sum_by f (entries file.lines)) (log_names listing))
unfolding read_all
read_all-records listing records h =
    let (all, found, e) = bind_returns (read_logs [] (log_names listing)) _ h in
    let same : sort_by (λ (r : PublishRecord). r.batch) all ≡ records = cc e in
    let distinct = read_logs-Distinct [] (log_names listing) all found in
    (
      rw (← same) (
          IsSorted-IsAscending _ (sort_by-IsSorted (λ r. r.batch) all) (λ b. omega (
            arith,
            sum_by-sort_by (λ (r : PublishRecord). r.batch) (λ r. if r.batch == b then 1 else 0)
                all,
            (records_of-Distinct [] all b distinct).0,
          ))),
      λ f. rw (← same) (
          sum_by-sort_by (λ r. r.batch) f all
          ∙ sum_by-read_logs f [] (log_names listing) all found),
    )
