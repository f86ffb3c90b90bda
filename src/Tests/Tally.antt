-- ===== src/Tests/Tally.antt =====
-- Runs of the tally and of the exactness document.
use lakehouse_ingest_bench.Prelude.{◌+◌, ◌≡◌, ◌↔◌, refl, List, [], ◌∷◌, arith, true}
use lakehouse_ingest_bench.Prelude.Int.{ℤ, pos}
use lakehouse_ingest_bench.Result.{ok}
use lakehouse_ingest_bench.Corpus.Batch.{id_block}
use lakehouse_ingest_bench.Tests.Samples.{manifest, small_p, tally_of, fresh_tally}
use lakehouse_ingest_bench.Tests.Numpy.{numpy}
use lakehouse_ingest_bench.Scorer.Tally.{
  BatchTally, init, add_ids, add_chunks, add_chunk, advance, covered, violations,
}
use lakehouse_ingest_bench.Scorer.Tally.Adding.{IsTally, Counts, add_ids-Counts}
use lakehouse_ingest_bench.Scorer.Tally.Watermark.{
  IsAdvanced, add_ids-IsAdvanced, add_ids-IsTally, init-IsTally,
}
use lakehouse_ingest_bench.Scorer.Exactness.{Exactness, summarize, exactness_result, scored}
use lakehouse_ingest_bench.Scorer.Exactness.Accounts.{AllComplete, exact_iff, rows-balance}

initial : init manifest small_p ≡ ok fresh_tally
unfolding init
initial = refl

init-IsTally_example : IsTally fresh_tally
init-IsTally_example = init-IsTally manifest small_p fresh_tally (omega arith) (omega arith) initial

pub fresh_tally-IsTally : IsTally fresh_tally
fresh_tally-IsTally = init-IsTally manifest small_p fresh_tally (omega arith) (omega arith) initial

-- The whole of batch 0, and a row of batch 1 that arrives twice.
abbrev some_ids : List ℤ
some_ids = pos 1 ∷ pos id_block ∷ pos 0 ∷ pos id_block ∷ []

abbrev after : BatchTally
after = tally_of (2 ∷ 2 ∷ []) (1 ∷ 70 ∷ []) 2

added : add_ids numpy fresh_tally some_ids ≡ ok after
unfolding add_ids add_chunks add_chunk advance covered
added = refl

add_ids-Counts_example : Counts fresh_tally some_ids after
add_ids-Counts_example = add_ids-Counts numpy fresh_tally after some_ids fresh_tally-IsTally added

add_ids-IsAdvanced_example : IsAdvanced fresh_tally after
add_ids-IsAdvanced_example =
    add_ids-IsAdvanced numpy fresh_tally after (pos 1) (pos id_block ∷ pos 0 ∷ pos id_block ∷ [])
      fresh_tally-IsTally added

add_ids-IsTally_example : IsTally after
add_ids-IsTally_example = add_ids-IsTally numpy fresh_tally after some_ids fresh_tally-IsTally added

-- Batch 0 alone is exact; with batch 1 a row is counted twice.
first_only : exactness_result after (0 ∷ []) ≡ ok (summarize after (0 ∷ []) [])
unfolding exactness_result scored summarize violations
first_only = refl

exact_iff_example : ((summarize after (0 ∷ []) []).exact ≡ true) ↔ AllComplete after (0 ∷ [])
exact_iff_example = exact_iff after (0 ∷ []) (summarize after (0 ∷ []) []) first_only

abbrev both_scored : Exactness
both_scored = summarize after (0 ∷ 1 ∷ []) (violations after true)

both : exactness_result after (1 ∷ 0 ∷ []) ≡ ok both_scored
unfolding exactness_result scored summarize violations
both = refl

rows-balance_example :
    both_scored.rows + both_scored.loss_rows
    ≡ both_scored.expected_rows + both_scored.duplicate_rows
rows-balance_example = rows-balance after (1 ∷ 0 ∷ []) both_scored both
