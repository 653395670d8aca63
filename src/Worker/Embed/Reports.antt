-- ===== src/Worker/Embed/Reports.antt =====
-- What the worker reports to its hooks.
use sentinellog.Prelude.{
  ℕ, zero, suc, ◌+◌, ◌≡◌, refl, sym, ap, ◌∙◌, inl, inr, Bool, true, Bool-cases, Text, List, [], ◌∷◌,
  ◌++◌, replicate, length, append_assoc, append-nil, if◌then◌else◌, ◌==◌, text_eq, arith, get_last?,
}
use sentinellog.Prelude.Strings.{Runtime}
use sentinellog.Prelude.Float.{Float}
use sentinellog.Model.{Time, StoredEntry, content_hash}
use sentinellog.Store.{MemStore, since}
use sentinellog.Embed.{Embedder}
use sentinellog.Vector.{MemVectorStore, upsert}
use sentinellog.Worker.Embed.{
  Call, on_embedded, on_dedup, EmbedWorker, has_seen, mark_seen, report, report_embedded, advance,
  last_or, log_item, process, after_process, process_all, tick_entries, tick,
}
use sentinellog.Worker.Embed.Checkpoint.{has_seen-mark}

module _ ⦃rt : Runtime⦄ where
  -- How many entries have content that is in `seen` or that an earlier one of them has.
  pub duplicates : (Text → Bool) → List StoredEntry → ℕ
  duplicates seen [] = zero
  duplicates seen (e ∷ es) =
      let h = content_hash e.entry in
      let again = duplicates seen es in
      let first = duplicates (λ k. if h == k then true else seen k) es in
      if seen h then suc again else first

-- No call for an empty batch.
pub embedded_call : ℕ → List Call
embedded_call zero = []
embedded_call (suc n) = on_embedded (suc n) ∷ []

advance-calls : (w : EmbedWorker) (last : ℕ) → (advance w last).calls ≡ w.calls
unfolding advance
advance-calls w last = ground arith

report_embedded-calls :
    (w : EmbedWorker) (n : ℕ) → (report_embedded w n).calls ≡ w.calls ++ embedded_call n
unfolding report_embedded report embedded_call
report_embedded-calls w zero = sym (append-nil w.calls)
report_embedded-calls w (suc n) = refl

module _ ⦃rt : Runtime⦄ ⦃fl : Float⦄ (emb : Embedder) (now : Time) where
  process_all-calls :
      (es : List StoredEntry) (w : EmbedWorker) (vec : MemVectorStore) (n : ℕ)
      → ((process_all emb now es w vec n).0.calls
          ≡ w.calls ++ replicate (duplicates (has_seen w) es) on_dedup)
        × ((process_all emb now es w vec n).2 ≡ n + length es)
  unfolding process_all process after_process report duplicates mark_seen has_seen
  process_all-calls [] w vec n = (sym (append-nil w.calls), omega arith)
  process_all-calls (e ∷ es) w vec n = elim (Bool-cases (has_seen w (content_hash e.entry))) [
    | inl old ↦
        let d : ℕ = duplicates (has_seen w) es in
        let (calls, count) = process_all-calls es (report w on_dedup) vec (suc n) in
        simp old (
          calls ∙ append_assoc w.calls (on_dedup ∷ []) (replicate d on_dedup),
          omega (arith, count),
        )
    | inr fresh ↦
        let h : Text = content_hash e.entry in
        let (calls, count) =
          process_all-calls es (mark_seen w h) (upsert vec (log_item emb e)) (suc n) in
        simp fresh (
          calls
              ∙ ap (λ seen. w.calls ++ replicate (duplicates seen es) on_dedup)
                  (λ i k. has_seen-mark w h k i),
          omega (arith, count),
        )
  ]

  tick_entries-calls :
      (es : List StoredEntry) (w : EmbedWorker) (vec : MemVectorStore)
      → (tick_entries emb now es w vec).0.calls
        ≡ w.calls ++ (replicate (duplicates (has_seen w) es) on_dedup ++ embedded_call (length es))
  unfolding tick_entries duplicates embedded_call
  tick_entries-calls [] w vec = sym (append-nil w.calls)
  tick_entries-calls (e ∷ es) w vec =
      let (w', vec', n) = process_all emb now (e ∷ es) w vec 0 in
      let (calls, count) = process_all-calls (e ∷ es) w vec 0 in
      let d : ℕ = duplicates (has_seen w) (e ∷ es) in
      let m : ℕ = length (e ∷ es) in
      let all : n ≡ m = omega (arith, count) in
      let u : EmbedWorker = advance w' (last_or e.id (get_last? (e ∷ es))) in
      report_embedded-calls u n
      ∙ ap (λ k. u.calls ++ embedded_call k) all
      ∙ ap (λ l. l ++ embedded_call m) (advance-calls w' _ ∙ calls)
      ∙ append_assoc w.calls (replicate d on_dedup) (embedded_call m)

  -- What a tick reports: one duplicate for each entry whose content was seen before, in an earlier
  -- tick or earlier in the batch, then the number of all the entries that it read. The duplicates are
  -- in that number, although nothing was embedded for them.
  pub tick_reported :
      (store : MemStore) (w : EmbedWorker) (vec : MemVectorStore)
      → let entries = since store w.last_id w.batch in
        (tick emb now store w vec).0.calls
        ≡ w.calls
          ++ (replicate (duplicates (has_seen w) entries) on_dedup
              ++ embedded_call (length entries))
  unfolding tick
  tick_reported store w vec = tick_entries-calls (since store w.last_id w.batch) w vec
