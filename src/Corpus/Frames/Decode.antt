-- ===== src/Corpus/Frames/Decode.antt =====
-- What `iter_frames` accepts.
use lakehouse_ingest_bench.Prelude.{
  ℕ, zero, suc, ◌≤◌, ◌<◌, ◌^◌, ◌≡◌, refl, ◌∙◌, inl, inr, List, [], ◌∷◌, ◌++◌, map, arith, ltb,
  lt→ltb, ==_iff, Bool-cases, length, take, drop, length-take, length-drop, All, take-append-drop,
  sym, ◌≢◌,
}
use lakehouse_ingest_bench.Result.{Error, ok, value_error}
use lakehouse_ingest_bench.Corpus.Frames.{
  Bytes, Stream, raised, yields, pack, unpack, frame_loop, frame_stream, iter_step, iter_from,
  iter_frames, join, string_frames, Error,
}
use lakehouse_ingest_bench.Corpus.Frames.RoundTrip.{of_list, sum-join, take-append, drop-append}

abbrev pub IsBytes : Bytes → Type 0
IsBytes data' = All (λ b. b < 256) data'

pack-unpack :
    (a b c d : ℕ)
    → a < 256
    → b < 256
    → c < 256
    → d < 256
    → (pack (unpack a b c d) ≡ a ∷ b ∷ c ∷ d ∷ []) × (unpack a b c d < 2 ^ 32)
unfolding pack unpack
pack-unpack a b c d ha hb hc hd = (ground arith, omega arith)

All-drop : (P : ℕ → Type 0) (n : ℕ) (xs : List ℕ) → All P xs → All P (drop n xs)
All-drop P zero xs h = h
All-drop P (suc n) [] h = h
All-drop P (suc n) (x ∷ xs) h = All-drop P n xs h.1

raised-ne-of_list : (e : Error) (values : List Bytes) → raised e ≢ of_list values
raised-ne-of_list e [] h = cc
raised-ne-of_list e (value ∷ values) h = cc

iter_step-frame :
    (next : Bytes → Stream Bytes) (a b c d : ℕ) (view : Bytes) (values : List Bytes)
    → iter_step next (a ∷ b ∷ c ∷ d ∷ view) ≡ of_list values
    → (value : Bytes) × (rest : List Bytes) × (values ≡ value ∷ rest)
      × (value ≡ take (unpack a b c d) view)
      × (length value ≡ unpack a b c d)
      × (next (drop (unpack a b c d) view) ≡ of_list rest)
unfolding iter_step
iter_step-frame next a b c d view [] h = absurd (ground arith)
iter_step-frame next a b c d view (value ∷ rest) h =
    elim (Bool-cases (ltb (length view) (unpack a b c d))) [
      | inl short ↦ absurd (cc (rw short at h))
      | inr fits ↦
          let e : yields (take (unpack a b c d) view) (next (drop (unpack a b c d) view))
              ≡ yields value (of_list rest) =
            rw fits at h in
          let same : take (unpack a b c d) view ≡ value = cc in
          (
            value,
            rest,
            refl,
            sym same,
            rw (← same) (ground (arith, length-take (unpack a b c d) view)),
            cc,
          )
    ]

frame_loop-iter_from :
    (turns : ℕ) (view : Bytes) (values : List Bytes)
    → length view ≤ turns
    → IsBytes view
    → iter_from turns view ≡ of_list values
    → frame_loop (join values) (map length values) ≡ ok view
unfolding iter_from iter_step frame_loop
frame_loop-iter_from zero [] [] enough bytes h = refl
frame_loop-iter_from zero [] (value ∷ values) enough bytes h = absurd (cc h)
frame_loop-iter_from zero (a ∷ view) values enough bytes h = absurd (omega arith)
frame_loop-iter_from (suc turns) [] [] enough bytes h = refl
frame_loop-iter_from (suc turns) [] (value ∷ values) enough bytes h = absurd (cc h)
frame_loop-iter_from (suc turns) (a ∷ []) values enough bytes h =
    absurd (raised-ne-of_list value_error values h)
frame_loop-iter_from (suc turns) (a ∷ b ∷ []) values enough bytes h =
    absurd (raised-ne-of_list value_error values h)
frame_loop-iter_from (suc turns) (a ∷ b ∷ c ∷ []) values enough bytes h =
    absurd (raised-ne-of_list value_error values h)
frame_loop-iter_from (suc turns) (a ∷ b ∷ c ∷ d ∷ view) values enough (ha, (hb, (hc, (hd, bytes))))
      h =
    let (value, rest, split, taken, size, more) =
      iter_step-frame (iter_from turns) a b c d view values h in
    let small : length (drop (unpack a b c d) view) ≤ turns =
      omega (arith, length-drop (unpack a b c d) view) in
    let ih =
      frame_loop-iter_from turns (drop (unpack a b c d) view) rest small
        (All-drop (λ b. b < 256) (unpack a b c d) view bytes) more in
    let (packed, fits) = pack-unpack a b c d ha hb hc hd in
    let framed : frame_loop (join (value ∷ rest)) (map length (value ∷ rest))
        ≡ ok (pack (unpack a b c d) ++ (value ++ drop (unpack a b c d) view)) =
      rw (
        take-append value (join rest),
        drop-append value (join rest),
        size,
        lt→ltb (unpack a b c d) (2 ^ 32) fits,
        ih,
      ) in
    let whole : value ++ drop (unpack a b c d) view ≡ view =
      rw taken (take-append-drop (unpack a b c d) view) in
    rw split (framed ∙ rw (packed, whole))

-- Bytes that `iter_frames` reads to their end without an error are exactly the bytes that
-- `string_frames` writes for the values it handed out.
pub string_frames-iter_frames :
    (view : Bytes) (values : List Bytes)
    → IsBytes view
    → iter_frames view ≡ of_list values
    → string_frames values ≡ ok view
unfolding iter_frames string_frames frame_stream
string_frames-iter_frames view values bytes h =
    rw ((==_iff _ _).1 (sum-join values))
      (frame_loop-iter_from (length view) view values (omega arith) bytes h)
