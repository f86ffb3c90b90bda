-- ===== src/Corpus/Batch.antt =====
-- The manifest's batch records (ingest_bench/corpus/generate.py) and the constants of the row ids
-- (ingest_bench/corpus/columns.py).
use lakehouse_ingest_bench.Prelude.{ℕ, ◌+◌, ◌*◌, ◌/◌, ◌%◌, ◌^◌, List, String}

-- P, the modulus of the checksums.
abbrev pub checksum_modulus : ℕ
checksum_modulus = 1_000_000_007

-- ID_BLOCK: row ids are `batch * id_block + position`.
abbrev pub id_block : ℕ
id_block = 2 ^ 32

pub record BatchRecord : Type 0 where
  pub batch : ℕ
  pub offset_ms : ℕ
  pub rows : ℕ
  pub id_min : ℕ
  pub id_max : ℕ
  pub checksum : ℕ
  pub encoded_bytes : ℕ
  pub stored_bytes : ℕ
  pub sha256 : String
  pub uri : String
  pub key_uris : List (String × String)

unfoldable pub closed_form_checksum : ℕ → ℕ → ℕ → ℕ
closed_form_checksum id_min id_max rows = (id_min + id_max) * rows / 2 % checksum_modulus
