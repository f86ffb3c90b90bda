-- ===== src/Producer/PublishLog.antt =====
-- ingest_bench/producer/publish_log.py. A file is its lines as `json.loads` reads them, a name its
-- characters' codes; digits are the ASCII ones.
pub mod ReadAll
pub mod Lag
use mathlib.Core.List.{reverse}
use lakehouse_ingest_bench.Prelude.Sorting.{sort_by}
use lakehouse_ingest_bench.Prelude.Search.{member}
use lakehouse_ingest_bench.Prelude.Int.{ℤ, pos, sub_ℕ, max_ℤ}
use lakehouse_ingest_bench.Result.{value_error, Result, ok, err, ◌>>=◌}
use lakehouse_ingest_bench.Prelude.{
  ℕ, ◌+◌, ◌-◌, ◌*◌, Bool, true, false, ◌&&◌, Option, none, some, List, [], ◌∷◌, ◌++◌, leb, ◌==◌,
  if◌then◌else◌, length, take, drop, keep, every,
}

pub record PublishRecord : Type 0 where
  pub batch : ℕ
  pub scheduled_ms : ℕ
  pub first_ack_ms : ℕ
  pub last_ack_ms : ℕ
  pub rows : ℕ
  pub bytes : ℕ
  pub errors : ℕ

-- A line: blank, a completion trailer, a batch record, an object that lacks a key of the record, or
-- text that is no JSON.
pub data Line : Type 0 where
  blank : Line
  trailer : (shard batches : ℕ) → Line
  entry : PublishRecord → Line
  missing_key : Line
  garbled : Line

unfoldable pub parse : List Line → Result (List PublishRecord)
parse [] = ok []
parse (blank ∷ lines) = parse lines
parse (trailer shard batches ∷ lines) = parse lines
parse (entry r ∷ lines) = do rest ← parse lines; ok (r ∷ rest)
parse (missing_key ∷ lines) = err value_error
parse (garbled ∷ lines) = err value_error

-- append, append_done
abbrev pub append : List Line → PublishRecord → List Line
append lines r = lines ++ entry r ∷ []

abbrev pub append_done : List Line → ℕ → ℕ → List Line
append_done lines shard batches = lines ++ trailer shard batches ∷ []

-- The loop of `_trailed`, over the lines from the last one back.
unfoldable pub trailed_back : List Line → Result Bool
trailed_back [] = ok false
trailed_back (blank ∷ lines) = trailed_back lines
trailed_back (trailer shard batches ∷ lines) = ok true
trailed_back (entry r ∷ lines) = ok false
trailed_back (missing_key ∷ lines) = ok false
trailed_back (garbled ∷ lines) = err value_error

unfoldable pub trailed : List Line → Result Bool
unfolding trailed_back
trailed lines = trailed_back (reverse lines)

abbrev pub Text : Type 0
Text = List ℕ

-- "publish_log-" and ".jsonl"
abbrev pub log_name_prefix : Text
log_name_prefix =
    b'p' ∷ b'u' ∷ b'b' ∷ b'l' ∷ b'i' ∷ b's' ∷ b'h' ∷ b'_' ∷ b'l' ∷ b'o' ∷ b'g' ∷ b'-' ∷ []

abbrev pub log_name_suffix : Text
log_name_suffix = b'.' ∷ b'j' ∷ b's' ∷ b'o' ∷ b'n' ∷ b'l' ∷ []

abbrev pub starts_with : Text → Text → Bool
starts_with [] name = true
starts_with (c ∷ cs) [] = false
starts_with (c ∷ cs) (d ∷ name) = c == d && starts_with cs name

abbrev pub ends_with : Text → Text → Bool
ends_with suffix name = starts_with (reverse suffix) (reverse name)

pub record LogFile : Type 0 where
  pub name : Text
  pub lines : List Line

unfoldable pub log_names : List LogFile → List LogFile
log_names listing =
    keep (λ f. starts_with log_name_prefix f.name && ends_with log_name_suffix f.name) listing

abbrev is_digit : ℕ → Bool
is_digit c = leb b'0' c && leb c b'9'

abbrev number_from : ℕ → Text → ℕ
number_from n [] = n
number_from n (c ∷ cs) = number_from (10 * n + (c - b'0')) cs

abbrev read_number : Text → Result ℕ
read_number [] = err value_error
read_number (c ∷ cs) =
    if every is_digit (c ∷ cs) then ok (number_from 0 (c ∷ cs)) else err value_error

-- name[len(prefix) : -len(suffix)]
unfoldable pub shard_index : Text → Result ℕ
shard_index name =
    let raw = drop (length log_name_prefix) (take (length name - length log_name_suffix) name) in
    read_number raw

-- Only the index of a file with a trailer is read.
unfoldable pub done_from : List LogFile → Result (List ℕ)
unfolding trailed shard_index
done_from [] = ok []
done_from (file ∷ files) = do
  last ← trailed file.lines
  if last
      then (do index ← shard_index file.name; rest ← done_from files; ok (index ∷ rest))
      else done_from files

-- `none` is a prefix with nothing under it.
unfoldable pub shards_done : Option (List LogFile) → Result (List ℕ)
unfolding done_from log_names
shards_done none = ok []
shards_done (some listing) = done_from (log_names listing)

-- The inner loop of `read_all`: `owner` holds the batches that were read before.
unfoldable pub claim : List ℕ → List PublishRecord → Result (List ℕ)
claim owner [] = ok owner
claim owner (r ∷ records) =
    if member r.batch owner then err value_error else claim (r.batch ∷ owner) records

unfoldable pub read_logs : List ℕ → List LogFile → Result (List PublishRecord)
unfolding claim parse
read_logs owner [] = ok []
read_logs owner (file ∷ files) = do
  records ← parse file.lines
  owner' ← claim owner records
  rest ← read_logs owner' files
  ok (records ++ rest)

unfoldable pub read_all : Option (List LogFile) → Result (List PublishRecord)
unfolding read_logs log_names sort_by
read_all none = ok []
read_all (some listing) = do
  records ← read_logs [] (log_names listing)
  ok (sort_by (λ r. r.batch) records)

-- first_ack_ms - scheduled_ms
abbrev pub delay : PublishRecord → ℤ
delay r = sub_ℕ r.first_ack_ms r.scheduled_ms

abbrev largest : ℤ → List PublishRecord → ℤ
largest d [] = d
largest d (r ∷ records) = largest (max_ℤ d (delay r)) records

unfoldable pub behind_ms : List PublishRecord → ℤ
behind_ms [] = pos 0
behind_ms (r ∷ records) = largest (delay r) records

-- The dictionary {batch: last_ack_ms}, read at a batch; a later record of a batch wins.
unfoldable pub emit_times : List PublishRecord → ℕ → Option ℕ
emit_times [] b = none
emit_times (r ∷ records) b = elim (emit_times records b) [
  | some at_ms ↦ some at_ms
  | none ↦ if r.batch == b then some r.last_ack_ms else none
]
