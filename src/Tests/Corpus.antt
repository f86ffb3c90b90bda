-- ===== src/Tests/Corpus.antt =====
-- Runs of the frame codec.
use lakehouse_ingest_bench.Prelude.{◌≡◌, refl, List, [], ◌∷◌, arith}
use lakehouse_ingest_bench.Result.{ok}
use lakehouse_ingest_bench.Corpus.Frames.{
  Bytes, frame_stream, frame_loop, iter_step, iter_from, iter_frames, string_frames, pack, unpack,
}
use lakehouse_ingest_bench.Corpus.Frames.RoundTrip.{
  of_list, slices, iter_frames-frame_stream, iter_frames-string_frames,
}
use lakehouse_ingest_bench.Corpus.Frames.Decode.{IsBytes, string_frames-iter_frames}

abbrev two_values : List Bytes
two_values = (7 ∷ 8 ∷ []) ∷ [] ∷ []

abbrev two_frames : Bytes
two_frames = 2 ∷ 0 ∷ 0 ∷ 0 ∷ 7 ∷ 8 ∷ 0 ∷ 0 ∷ 0 ∷ 0 ∷ []

framed : frame_stream (7 ∷ 8 ∷ []) (2 ∷ 0 ∷ []) ≡ ok two_frames
unfolding frame_stream frame_loop pack
framed = refl

read_back : iter_frames two_frames ≡ of_list two_values
unfolding iter_frames iter_from iter_step unpack
read_back = refl

iter_frames-frame_stream_example :
    iter_frames two_frames ≡ of_list (slices (7 ∷ 8 ∷ []) (2 ∷ 0 ∷ []))
iter_frames-frame_stream_example =
    iter_frames-frame_stream (7 ∷ 8 ∷ []) (2 ∷ 0 ∷ []) two_frames framed

iter_frames-string_frames_example :
    (out : Bytes) × (string_frames two_values ≡ ok out) × (iter_frames out ≡ of_list two_values)
iter_frames-string_frames_example =
    iter_frames-string_frames two_values (omega arith, (omega arith, tt))

two_frames-IsBytes : IsBytes two_frames
two_frames-IsBytes = (
  omega arith,
  (
    omega arith,
    (
      omega arith,
      (
        omega arith,
        (
          omega arith,
          (omega arith, (omega arith, (omega arith, (omega arith, (omega arith, tt))))),
        ),
      ),
    ),
  ),
)

string_frames-iter_frames_example : string_frames two_values ≡ ok two_frames
string_frames-iter_frames_example =
    string_frames-iter_frames two_frames two_values two_frames-IsBytes read_back
