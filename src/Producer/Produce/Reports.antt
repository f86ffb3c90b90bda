-- ===== src/Producer/Produce/Reports.antt =====
-- The rows of a batch against its delivery reports.
use lakehouse_ingest_bench.Prelude.{
  ℕ, suc, ◌+◌, ◌≡◌, refl, ap, ◌∙◌, not, Option, none, some, List, [], ◌∷◌, length, keep, map,
  sum_by, arith, Bool-cases, inl, inr, ◌==◌,
}
use lakehouse_ingest_bench.Result.{Ensures, returned, raises, ◌⊳◌}
use lakehouse_ingest_bench.Corpus.Frames.{Bytes, Stream, done, raised, yields}
use lakehouse_ingest_bench.Producer.Produce.{
  BatchOutcome, Delivery, Acks, on_delivery, deliver, no_acks, send, produce_batch,
}

abbrev failures : List Delivery → List Delivery
failures reports = keep (λ (d : Delivery). d.failed) reports

deliver-errors :
    (a : Acks) (reports : List Delivery)
    → (deliver a reports).errors ≡ a.errors + length (failures reports)
deliver-errors a [] = omega arith
deliver-errors a (d ∷ reports) = ground (arith, deliver-errors (on_delivery a d) reports)

deliver-length :
    (a : Acks) (reports : List Delivery)
    → (deliver a reports).acked + (deliver a reports).errors ≡ a.acked + a.errors + length reports
deliver-length a [] = omega arith
deliver-length a (d ∷ reports) = ground (arith, deliver-length (on_delivery a d) reports)

-- A generator that hands out the values and ends.
abbrev ending : {A : Type 0} → List A → Stream A
ending [] = done
ending (x ∷ xs) = yields x (ending xs)

abbrev ack_times : List Delivery → List ℕ
ack_times reports = map (λ (d : Delivery). d.now_ms) (keep (λ (d : Delivery). not d.failed) reports)

abbrev last_or : ℕ → List ℕ → ℕ
last_or other [] = other
last_or other (x ∷ xs) = last_or x xs

deliver-last :
    (a : Acks) (reports : List Delivery)
    → (deliver a reports).last ≡ last_or a.last (ack_times reports)
deliver-last a [] = refl
deliver-last a (d ∷ reports) = elim (Bool-cases d.failed) [
  | inl failed ↦ deliver-last (on_delivery a d) reports ∙ rw failed refl
  | inr fine ↦ deliver-last (on_delivery a d) reports ∙ rw fine refl
]

-- The keys of frames: none at all, or one for each.
abbrev MatchKeys : ℕ → Option (Stream Bytes) → Type 0
MatchKeys count none = Unit
MatchKeys count (some keys) = (held : List Bytes) × (keys ≡ ending held) × (length held ≡ count)

-- What was sent: all values of the frames, with the prefix in front of each.
abbrev IsSent : Bytes → Stream Bytes → Option (Stream Bytes) → ℕ × ℕ → Type 0
IsSent value_prefix frames keys sent =
    (held : List Bytes) × (frames ≡ ending held)
    × MatchKeys (length held) keys
    × (sent.0 ≡ length held)
    × (sent.1 ≡ sum_by (λ frame. length value_prefix + length frame) held)

send-IsSent :
    (value_prefix : Bytes) (frames : Stream Bytes) (keys : Option (Stream Bytes))
    → Ensures (IsSent value_prefix frames keys) (send value_prefix frames keys)
unfolding send
send-IsSent value_prefix (raised e) keys = raises
send-IsSent value_prefix done none = returned ([], refl, tt, refl, refl)
send-IsSent value_prefix done (some done) = returned ([], refl, ([], refl, refl), refl, refl)
send-IsSent value_prefix done (some (raised e)) = raises
send-IsSent value_prefix done (some (yields key keys)) = raises
send-IsSent value_prefix (yields frame frames) none =
    send-IsSent value_prefix frames none ⊳ λ rest (held, same, matched, rows, bytes).
    returned (frame ∷ held, ap (yields frame) same, tt, ap suc rows, rw bytes refl)
send-IsSent value_prefix (yields frame frames) (some done) = raises
send-IsSent value_prefix (yields frame frames) (some (raised e)) = raises
send-IsSent value_prefix (yields frame frames) (some (yields key keys)) =
    send-IsSent value_prefix frames (some keys)
    ⊳ λ rest (held, same, (key_list, keys_same, sized), rows, bytes). returned (
      frame ∷ held,
      ap (yields frame) same,
      (key ∷ key_list, ap (yields key) keys_same, ap suc sized),
      ap suc rows,
      rw bytes refl,
    )

-- What the outcome of a batch says: the frames end, and every one was sent, under a key of its own where
-- there are keys.
pub record IsOutcome (value_prefix : Bytes) (frames : Stream Bytes) (keys : Option (Stream Bytes))
    (reports : List Delivery) (out : BatchOutcome) : Type 0 where
  sent : IsSent value_prefix frames keys (out.rows, out.bytes)
  reported : out.rows ≡ length reports
  errors : out.errors ≡ length (failures reports)
  last_ack : out.last_ack_ms ≡ last_or 0 (ack_times reports)

-- If a batch is sent, its frames end, its rows are all of them and its bytes are theirs with a prefix for
-- each, and there is a key for each where there are keys. There are as many delivery reports as rows; the
-- errors recorded are the number of failures among them, and the last acknowledgement is the time of the
-- last that is none.
pub produce_batch-IsOutcome :
    (value_prefix : Bytes) (frames : Stream Bytes) (keys : Option (Stream Bytes))
    (reports : List Delivery)
    → Ensures
        (IsOutcome value_prefix frames keys reports)
        (produce_batch value_prefix frames keys reports)
unfolding produce_batch
produce_batch-IsOutcome value_prefix frames keys reports =
    send-IsSent value_prefix frames keys ⊳ λ sent is_sent.
    let acks = deliver no_acks reports in
    elim (Bool-cases (acks.acked + acks.errors == sent.0)) [
      | inr other ↦ rw other raises
      | inl all ↦ rw all (
          returned (record {
            sent = is_sent;
            reported = ground (arith, deliver-length no_acks reports);
            errors = ground (arith, deliver-errors no_acks reports);
            last_ack = deliver-last no_acks reports;
          }))
    ]
