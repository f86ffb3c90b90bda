-- ===== src/Corpus/Frames.antt =====
-- ingest_bench/corpus/frames.py: length-prefixed frames. A byte string is a list of numbers. The
-- compression calls, the digest and the file names are not modelled.
pub mod RoundTrip
pub mod Decode
use lakehouse_ingest_bench.Prelude.{
  ℕ, zero, suc, ◌+◌, ◌*◌, ◌/◌, ◌%◌, ◌^◌, List, [], ◌∷◌, ◌++◌, map, ltb, ◌==◌, length, take, drop,
  sum_by, if◌then◌else◌,
}
use lakehouse_ingest_bench.Result.{Error, value_error, struct_error, Result, ok, err, ◌>>=◌}

abbrev pub Bytes : Type 0
Bytes = List ℕ

-- What a generator hands out: values, then its end or what it raises.
pub data Stream {ℓ} (A : Type ℓ) : Type ℓ where
  done : Stream A
  raised : Error → Stream A
  yields : A → Stream A → Stream A

-- FRAME_HEADER = struct.Struct("<I"): four bytes, the lowest first.
abbrev pub header_size : ℕ
header_size = 4

unfoldable pub pack : ℕ → Bytes
pack n = n % 256 ∷ n / 256 % 256 ∷ n / 65536 % 256 ∷ n / 16777216 % 256 ∷ []

unfoldable pub unpack : ℕ → ℕ → ℕ → ℕ → ℕ
unpack a b c d = a + 256 * b + 65536 * c + 16777216 * d

-- The loop of `frame_stream`, with `records` the bytes from `src` on. `pack_into` refuses a size
-- that does not fit its four bytes.
unfoldable pub frame_loop : Bytes → List ℕ → Result Bytes
frame_loop records [] = ok []
frame_loop records (size ∷ sizes) =
    if ltb size (2 ^ 32)
    then (do
      rest ← frame_loop (drop size records) sizes
      ok (pack size ++ (take size records ++ rest)))
    else err struct_error

unfoldable pub frame_stream : Bytes → List ℕ → Result Bytes
unfolding frame_loop
frame_stream records sizes =
    if sum_by (λ n. n) sizes == length records then frame_loop records sizes else err value_error

-- One turn of the `while` of `iter_frames`, over the bytes from `offset` on; `next` goes on behind
-- the frame.
unfoldable pub iter_step : (Bytes → Stream Bytes) → Bytes → Stream Bytes
iter_step next [] = done
iter_step next (a ∷ b ∷ c ∷ d ∷ view) =
    let size = unpack a b c d in
    let rest = next (drop size view) in
    if ltb (length view) size then raised value_error else yields (take size view) rest
iter_step next _ = raised value_error

-- Each turn takes at least a header off, so as many turns as there are bytes are enough.
unfoldable pub iter_from : ℕ → Bytes → Stream Bytes
unfolding iter_step unpack
iter_from zero view = done
iter_from (suc turns) view = iter_step (iter_from turns) view

unfoldable pub iter_frames : Bytes → Stream Bytes
unfolding iter_from
iter_frames view = iter_from (length view) view

-- b"".join(parts)
abbrev pub join : List Bytes → Bytes
join [] = []
join (part ∷ parts) = part ++ join parts

-- string_frames, for values that are encoded already.
unfoldable pub string_frames : List Bytes → Result Bytes
string_frames encoded = frame_stream (join encoded) (map length encoded)
