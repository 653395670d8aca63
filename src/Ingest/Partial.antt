-- ===== src/Ingest/Partial.antt =====
-- A batch with an invalid entry after valid ones.
use sentinellog.Prelude.{
  ℕ, suc, ◌+◌, ◌≤◌, ◌≡◌, sym, ap, ◌∙◌, false, Text, List, [], ◌∷◌, ◌++◌, none, some, All, length,
  arith, append-nil, append_assoc, u64, length-append,
}
use sentinellog.Prelude.Float.{Float}
use sentinellog.Model.{LogEntry, Time, Error, validate, error_text}
use sentinellog.Buffer.{Buffer, publish_sent}
use sentinellog.Redaction.{Redactor}
use sentinellog.Ingest.Gains.{publish_loop-sent, publish_loop-invalid}
use sentinellog.Ingest.{bad_request, prepare, publish_loop}

module _ ⦃fl : Float⦄ (r : Redactor) (tenant : Text) (clock : ℕ → Time) where
  -- The entries as the handler publishes them from the index `i` on.
  unfoldable pub prepared : ℕ → List LogEntry → List LogEntry
  prepared i [] = []
  prepared i (e ∷ es) = prepare r tenant (clock i) e ∷ prepared (suc i) es

  -- If an entry is invalid and all before it are valid, an open buffer with room keeps those before
  -- it, although the answer is 400 with the error of the invalid entry: a client that mends the batch
  -- and sends it again has the first entries stored twice.
  pub partial_batch :
      (before after : List LogEntry) (e : LogEntry) (err : Error) (i accepted shed : ℕ) (b : Buffer)
      → All (λ x. validate x ≡ none) before
      → validate e ≡ some err
      → b.closed ≡ false
      → length b.queue + length before ≤ b.capacity
      → ((publish_loop r tenant clock i (before ++ e ∷ after) accepted shed b).1
          ≡ bad_request (error_text err))
        × ((publish_loop r tenant clock i (before ++ e ∷ after) accepted shed b).0.queue
            ≡ b.queue ++ prepared i before)
  unfolding prepared
  partial_batch [] after e err i accepted shed b v bad open_ room = (
    ap (λ p. p.1) (publish_loop-invalid r tenant clock i accepted shed after b b e err bad),
    ap (λ p. p.0.queue) (publish_loop-invalid r tenant clock i accepted shed after b b e err bad)
        ∙ sym (append-nil b.queue),
  )
  partial_batch (x ∷ before) after e err i accepted shed b v bad open_ room =
      let y : LogEntry = prepare r tenant (clock i) x in
      let b' : Buffer = record b { queue = b.queue ++ y ∷ []; accepted = u64 (b.accepted + 1) } in
      let step =
        publish_loop-sent r tenant clock i accepted shed (before ++ e ∷ after) b b' x v.0
          (publish_sent b y open_ (omega (arith, room))) in
      let (answer, q) =
        partial_batch before after e err (suc i) (suc accepted) shed b' v.1 bad open_
          (omega (arith, room, length-append b.queue (y ∷ []))) in
      (
        ap (λ p. p.1) step ∙ answer,
        ap (λ p. p.0.queue) step ∙ q ∙ append_assoc b.queue (y ∷ []) (prepared (suc i) before),
      )
