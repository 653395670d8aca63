-- ===== src/Worker/Embed/Vectors.antt =====
-- What the worker does to the vector store.
use sentinellog.Prelude.{ℕ, suc, inl, inr, List, [], ◌∷◌, Bool-cases}
use sentinellog.Prelude.Strings.{Runtime}
use sentinellog.Prelude.Float.{Float}
use sentinellog.Model.{Time, StoredEntry, content_hash}
use sentinellog.Store.{MemStore, since}
use sentinellog.Embed.{Embedder}
use sentinellog.Vector.{MemVectorStore}
use sentinellog.Vector.Isolation.{IsPartitioned, upsert-IsPartitioned}
use sentinellog.Worker.Embed.{
  EmbedWorker, has_seen, log_item, process, process_all, after_process, tick_entries, tick,
}

module _ ⦃rt : Runtime⦄ ⦃fl : Float⦄ (emb : Embedder) (now : Time) where
  process_all-IsPartitioned :
      (es : List StoredEntry) (w : EmbedWorker) (vec : MemVectorStore) (n : ℕ)
      → IsPartitioned vec
      → IsPartitioned (process_all emb now es w vec n).1
  unfolding process_all process after_process
  process_all-IsPartitioned [] w vec n v = v
  process_all-IsPartitioned (e ∷ es) w vec n v =
      elim (Bool-cases (has_seen w (content_hash e.entry))) [
        | inl old ↦ simp old (process_all-IsPartitioned es _ _ (suc n) v)
        | inr fresh ↦
            simp fresh (
              process_all-IsPartitioned es _ _ (suc n)
                (upsert-IsPartitioned vec (log_item emb e) v))
      ]

  tick_entries-IsPartitioned :
      (es : List StoredEntry) (w : EmbedWorker) (vec : MemVectorStore)
      → IsPartitioned vec
      → IsPartitioned (tick_entries emb now es w vec).1
  unfolding tick_entries
  tick_entries-IsPartitioned [] w vec v = v
  tick_entries-IsPartitioned (e ∷ es) w vec v = process_all-IsPartitioned (e ∷ es) w vec 0 v

  pub tick-IsPartitioned :
      (store : MemStore) (w : EmbedWorker) (vec : MemVectorStore)
      → IsPartitioned vec
      → IsPartitioned (tick emb now store w vec).1
  unfolding tick
  tick-IsPartitioned store w vec v =
      tick_entries-IsPartitioned (since store w.last_id w.batch) w vec v
