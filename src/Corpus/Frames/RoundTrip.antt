-- ===== src/Corpus/Frames/RoundTrip.antt =====
-- Reading back what `frame_stream` wrote.
use lakehouse_ingest_bench.Prelude.{
  ℕ, zero, suc, ◌+◌, ◌≤◌, ◌<◌, ◌^◌, ◌≡◌, refl, ap, ◌∙◌, inl, inr, List, [], ◌∷◌, ◌++◌, arith, ◌%◌,
  ◌/◌, ltb, ◌==◌, ltb→lt, ==_iff, Bool-cases, length, take, drop, sum_by, length-append,
  length-take, length-drop, map, All, lt→ltb,
}
use lakehouse_ingest_bench.Result.{ok, bind_returns}
use lakehouse_ingest_bench.Corpus.Frames.{
  Bytes, Stream, done, yields, pack, unpack, frame_loop, frame_stream, iter_step, iter_from,
  iter_frames, string_frames, join,
}

abbrev pub of_list {ℓ} : {A : Type ℓ} → List A → Stream A
of_list [] = done
of_list (x ∷ xs) = yields x (of_list xs)

-- The stretches of `records` that have the given sizes.
abbrev pub slices : Bytes → List ℕ → List Bytes
slices records [] = []
slices records (size ∷ sizes) = take size records ∷ slices (drop size records) sizes

byte_split :
    (n : ℕ)
    → n < 2 ^ 32
    → unpack (n % 256) (n / 256 % 256) (n / 65536 % 256) (n / 16777216 % 256) ≡ n
unfolding unpack
byte_split n h = omega arith

pub take-append {ℓ} : {A : Type ℓ} (xs ys : List A) → take (length xs) (xs ++ ys) ≡ xs
take-append [] ys = refl
take-append (x ∷ xs) ys = ap (λ l. x ∷ l) (take-append xs ys)

pub drop-append {ℓ} : {A : Type ℓ} (xs ys : List A) → drop (length xs) (xs ++ ys) ≡ ys
drop-append [] ys = refl
drop-append (x ∷ xs) ys = drop-append xs ys

le-append {ℓ} : {A : Type ℓ} (xs ys : List A) → length xs ≤ length (xs ++ ys)
le-append xs ys = omega (arith, length-append xs ys)

iter_from-frame :
    (turns size : ℕ) (payload rest : Bytes)
    → length payload ≡ size
    → size < 2 ^ 32
    → iter_from (suc turns) (pack size ++ (payload ++ rest)) ≡ yields payload (iter_from turns rest)
unfolding iter_from iter_step pack
iter_from-frame turns size payload rest e h = rw (← e) (
    rw
      (
        byte_split (length payload) (rw (← e) at h),
        take-append payload rest,
        drop-append payload rest,
      )
      (ground (arith, le-append payload rest)))

take_rest : (size : ℕ) (records : Bytes) → size ≤ length records → length (take size records) ≡ size
take_rest size records h = omega (arith, length-take size records)

iter_from-nil : (turns : ℕ) → iter_from turns [] ≡ done
unfolding iter_from iter_step
iter_from-nil zero = refl
iter_from-nil (suc turns) = refl

frame_loop-cons :
    (records : Bytes) (size : ℕ) (sizes : List ℕ) (out : Bytes)
    → frame_loop records (size ∷ sizes) ≡ ok out
    → (rest : Bytes) × (size < 2 ^ 32)
      × (frame_loop (drop size records) sizes ≡ ok rest)
      × (pack size ++ (take size records ++ rest) ≡ out)
unfolding frame_loop
frame_loop-cons records size sizes out h = elim (Bool-cases (ltb size (2 ^ 32))) [
  | inl fits ↦
      let (rest, loop, e) =
        bind_returns (frame_loop (drop size records) sizes)
          (λ rest. ok (pack size ++ (take size records ++ rest))) (rw fits at h) in
      (rest, ltb→lt _ _ fits, loop, cc)
  | inr large ↦ absurd (cc (rw large at h))
]

frame_loop-iter :
    (records : Bytes) (sizes : List ℕ) (out : Bytes) (turns : ℕ)
    → sum_by (λ n. n) sizes ≡ length records
    → frame_loop records sizes ≡ ok out
    → length out ≤ turns
    → iter_from turns out ≡ of_list (slices records sizes)
unfolding frame_loop pack
frame_loop-iter records [] out turns e h enough =
    let empty : [] ≡ out = cc in rw (← empty) (iter_from-nil turns)
frame_loop-iter records (size ∷ sizes) out zero e h enough =
    let (rest, fits, loop, whole) = frame_loop-cons records size sizes out h in
    absurd (omega (arith, ap (length {A = ℕ}) whole))
frame_loop-iter records (size ∷ sizes) out (suc turns) e h enough =
    let (rest, fits, loop, whole) = frame_loop-cons records size sizes out h in
    let split : length (take size records ++ rest) ≡ length (take size records) + length rest =
      length-append (take size records) rest in
    let kept : length (take size records) ≡ size = take_rest size records (omega arith) in
    let ih =
      frame_loop-iter (drop size records) sizes rest turns (omega (arith, length-drop size records))
        loop (omega (arith, ap (length {A = ℕ}) whole, split)) in
    rw (← whole) (
      iter_from-frame turns size (take size records) rest kept fits
      ∙ ap (yields (take size records)) ih)

-- If `frame_stream` accepts the bytes and their sizes, `iter_frames` hands out the stretches of
-- those sizes, in order, and ends without an error.
pub iter_frames-frame_stream :
    (records : Bytes) (sizes : List ℕ) (out : Bytes)
    → frame_stream records sizes ≡ ok out
    → iter_frames out ≡ of_list (slices records sizes)
unfolding frame_stream iter_frames
iter_frames-frame_stream records sizes out h =
    elim (Bool-cases (sum_by (λ n. n) sizes == length records)) [
      | inl same ↦
          frame_loop-iter records sizes out (length out) ((==_iff _ _).0 same) (rw same at h)
            (omega arith)
      | inr other ↦ absurd (cc (rw other at h))
    ]

slices-join : (parts : List Bytes) → slices (join parts) (map length parts) ≡ parts
slices-join [] = refl
slices-join (part ∷ parts) =
    rw (take-append part (join parts), drop-append part (join parts))
      (ap (λ l. part ∷ l) (slices-join parts))

pub sum-join : (parts : List Bytes) → sum_by (λ n. n) (map length parts) ≡ length (join parts)
sum-join [] = refl
sum-join (part ∷ parts) = omega (arith, length-append part (join parts), sum-join parts)

frame_loop-join :
    (parts : List Bytes)
    → All (λ p. length p < 2 ^ 32) parts
    → (out : Bytes) × (frame_loop (join parts) (map length parts) ≡ ok out)
unfolding frame_loop
frame_loop-join [] fits = ([], refl)
frame_loop-join (part ∷ parts) fits =
    let (rest, e) = frame_loop-join parts fits.1 in
    (
      pack (length part) ++ (part ++ rest),
      rw (
        lt→ltb (length part) (2 ^ 32) fits.0,
        take-append part (join parts),
        drop-append part (join parts),
        e,
      ),
    )

-- Values below 4 GiB each are always framed, and `iter_frames` hands out those values again, in
-- order, with no error.
pub iter_frames-string_frames :
    (values : List Bytes)
    → All (λ value. length value < 2 ^ 32) values
    → (out : Bytes) × (string_frames values ≡ ok out) × (iter_frames out ≡ of_list values)
unfolding string_frames frame_stream
iter_frames-string_frames values fits =
    let (out, loop) = frame_loop-join values fits in
    let framed : frame_stream (join values) (map length values) ≡ ok out =
      rw ((==_iff _ _).1 (sum-join values)) loop in
    (
      out,
      framed,
      iter_frames-frame_stream (join values) (map length values) out framed
          ∙ ap of_list (slices-join values),
    )
