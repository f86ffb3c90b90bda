-- ===== src/Corpus/Merge/Order.antt =====
-- The order of a merged manifest.
use lakehouse_ingest_bench.Result.{Error, ok, err, Ensures, returned, ◌⊳◌, returns_it, passes}
use lakehouse_ingest_bench.Prelude.{
  ℕ, zero, suc, String, ◌≡◌, refl, sym, ap, ◌∙◌, subst, Bool, true, not, List, [], ◌∷◌, map, arith,
  if◌then◌else◌, le→leb, not-false, length, sum_by, All, All-append, range,
}
use lakehouse_ingest_bench.Prelude.Sorting.{
  sort_by, insert, IsSorted, sort_by-IsSorted, sum_by-sort_by, All-sort_by,
}
use lakehouse_ingest_bench.Corpus.Batch.{BatchRecord}
use lakehouse_ingest_bench.Corpus.Merge.{
  Shard, placed, records_of, merged_records, refuse_shards, read_manifest, resolved, absolute,
  is_absolute, fill_range,
}
use lakehouse_ingest_bench.Uri.{join}
use lakehouse_ingest_bench.Uri.Places.{IsPlace, join-IsPlace}
use lakehouse_ingest_bench.Scorer.Tally.{BatchTally, init, same_numbers}

same_numbers-same : (xs ys : List ℕ) → same_numbers xs ys ≡ true → xs ≡ ys
same_numbers-same [] [] h = refl
same_numbers-same [] (y ∷ ys) h = absurd (cc h)
same_numbers-same (x ∷ xs) [] h = absurd (cc h)
same_numbers-same (x ∷ xs) (y ∷ ys) h =
    let first : x ≡ y = ground arith in
    let rest = same_numbers-same xs ys (ground arith) in rw (first, rest) refl

length-range : (first n : ℕ) → length (range first n) ≡ n
length-range first zero = refl
length-range first (suc n) = ap suc (length-range (suc first) n)

length-map : (records : List BatchRecord) → length (map (λ r. r.batch) records) ≡ length records
length-map [] = refl
length-map (r ∷ records) = ap suc (length-map records)

sort_by-sorted : {A : Type 0} (key : A → ℕ) (xs : List A) → IsSorted key xs → sort_by key xs ≡ xs
unfolding sort_by insert
sort_by-sorted key [] h = refl
sort_by-sorted key (x ∷ []) h = refl
sort_by-sorted key (x ∷ y ∷ xs) (first, rest) =
    let le = le→leb (key x) (key y) first.0 in rw (sort_by-sorted key (y ∷ xs) rest, le) refl

abbrev pub ArePlaced : List (String × String) → Type 0
ArePlaced key_uris = All (λ (entry : String × String). is_absolute entry.1 ≡ true) key_uris

-- Every reference of a record is absolute.
abbrev pub IsPlaced : BatchRecord → Type 0
IsPlaced batch = (is_absolute batch.uri ≡ true) × ArePlaced batch.key_uris

resolved-key_uris :
    (corpus_uri : String) (key_uris : List (String × String))
    → ArePlaced key_uris
    → map (λ entry. (entry.0, absolute corpus_uri entry.1)) key_uris ≡ key_uris
unfolding absolute
resolved-key_uris corpus_uri [] h = refl
resolved-key_uris corpus_uri ((name, reference) ∷ key_uris) (first, rest) =
    rw (first, resolved-key_uris corpus_uri key_uris rest) refl

map-resolved :
    (corpus_uri : String) (records : List BatchRecord)
    → All IsPlaced records
    → map (resolved corpus_uri) records ≡ records
unfolding absolute
map-resolved corpus_uri [] h = refl
map-resolved corpus_uri (batch ∷ records) ((at, keys), rest) =
    rw (at, resolved-key_uris corpus_uri batch.key_uris keys, map-resolved corpus_uri records rest)
      refl

map-placed :
    (base : String) (manifest : List BatchRecord)
    → IsPlace base
    → All IsPlaced (map (placed base) manifest)
map-placed base [] h = tt
map-placed base (batch ∷ manifest) h =
    ((join-IsPlace base batch.uri h, keys-placed batch.key_uris), map-placed base manifest h)
  where
    keys-placed :
        (key_uris : List (String × String))
        → ArePlaced (map (λ entry. (entry.0, join base (entry.1 ∷ []))) key_uris)
    keys-placed [] = tt
    keys-placed ((name, reference) ∷ key_uris) =
        (join-IsPlace base reference h, keys-placed key_uris)

records_of-IsPlaced :
    (shards : List Shard)
    → All (λ shard. IsPlace shard.uri) shards
    → All IsPlaced (records_of shards)
unfolding records_of
records_of-IsPlaced [] h = tt
records_of-IsPlaced (shard ∷ shards) (at, rest) =
    All-append IsPlaced _ _ (map-placed shard.uri shard.manifest at)
      (records_of-IsPlaced shards rest)

-- What a merged manifest is: the batches in order from 0 on, each record of the shards once, accepted
-- by the tally, and read back as it is.
abbrev pub IsManifest : List Shard → ℕ → List BatchRecord → Type 0
IsManifest shards batch_count records =
    (map (λ r. r.batch) records ≡ range 0 batch_count)
    × ((measure : BatchRecord → ℕ) → sum_by measure records ≡ sum_by measure (records_of shards))
    × ((p : ℕ) → (t : BatchTally) × (init records p ≡ ok t))
    × ((corpus_uri : String) → read_manifest corpus_uri batch_count records ≡ ok records)

if-ok :
    {A : Type 0} (test : Bool) (value : A) (e : Error)
    → test ≡ true
    → (t : A) × ((if test then ok value else err e) ≡ ok t)
if-ok test value e h = (value, rw h refl)

init-accepts :
    (records : List BatchRecord) (n p : ℕ)
    → fill_range (map (λ r. r.batch) records) n ≡ true
    → (t : BatchTally) × (init records p ≡ ok t)
unfolding init
init-accepts records n p h =
    let same = same_numbers-same (map (λ r. r.batch) records) (range 0 n) h in
    let size : length records ≡ n = sym (length-map records) ∙ ap length same ∙ length-range 0 n in
    let test : same_numbers (map (λ r. r.batch) records) (range 0 (length records)) ≡ true =
      subst (λ k. same_numbers (map (λ r. r.batch) records) (range 0 k) ≡ true) (sym size) h in
    if-ok _ _ _ test

read_manifest-sorted :
    (corpus_uri : String) (n : ℕ) (records : List BatchRecord)
    → IsSorted (λ r. r.batch) records
    → All IsPlaced records
    → fill_range (map (λ r. r.batch) records) n ≡ true
    → read_manifest corpus_uri n records ≡ ok records
unfolding read_manifest
read_manifest-sorted corpus_uri n records sorted at h =
    rw (sort_by-sorted (λ r. r.batch) records sorted, h, map-resolved corpus_uri records at) refl

-- Shards that are each at a path from the root or at a scheme with more than slashes behind it, and are merged
-- without an error, give a manifest with the batches 0, 1, … of the preset, which holds the shards' records and
-- no others, is what a scorer's tally takes, and is read back with the references that merging wrote.
pub merged_records-IsManifest :
    (shards : List Shard) (batch_count : ℕ)
    → All (λ shard. IsPlace shard.uri) shards
    → Ensures (IsManifest shards batch_count) (merged_records shards batch_count)
unfolding merged_records
merged_records-IsManifest shards batch_count at =
    let given = records_of shards in
    let records = sort_by (λ r. r.batch) given in
    returns_it (refuse_shards (map (λ shard. shard.meta) shards)) ⊳ λ _ _.
    passes (not (fill_range (map (λ r. r.batch) records) batch_count)) ⊳ λ _ h.
    let held = not-false _ h in
    let placed = All-sort_by (λ r. r.batch) IsPlaced given (records_of-IsPlaced shards at) in
    returned (
      same_numbers-same (map (λ r. r.batch) records) (range 0 batch_count) held,
      (λ measure. sum_by-sort_by (λ r. r.batch) measure given),
      (λ p. init-accepts records batch_count p held),
      (λ corpus_uri.
          read_manifest-sorted corpus_uri batch_count records
            (sort_by-IsSorted (λ r. r.batch) given) placed held),
    )
