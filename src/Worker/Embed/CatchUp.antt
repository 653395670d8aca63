-- ===== src/Worker/Embed/CatchUp.antt =====
-- The worker catches up with the store.
use Prim.Native.Nat.{min}
use sentinellog.Prelude.{
  ℕ, zero, suc, ◌≤◌, ◌≡◌, ap, subst, ◌∙◌, pos, true, All, length, take, drop, length-take,
  length-drop, take_of_length-le, arith,
}
use sentinellog.Prelude.Strings.{Runtime}
use sentinellog.Prelude.Float.{Float}
use sentinellog.Model.{Time, StoredEntry, content_hash}
use sentinellog.Store.{MemStore, limit_or}
use sentinellog.Store.Writes.{IsValid}
use sentinellog.Store.Since.{since-drop}
use sentinellog.Embed.{Embedder}
use sentinellog.Vector.{MemVectorStore}
use sentinellog.Worker.Embed.{EmbedWorker, has_seen, tick, lag}
use sentinellog.Worker.Embed.Checkpoint.{Seen, Covers, tick-Advanced, limit_or-positive}

module _ ⦃rt : Runtime⦄ ⦃fl : Float⦄ (emb : Embedder) (clock : ℕ → Time) (store : MemStore) where
  -- A number of ticks on a store that gets no new entries.
  unfoldable pub ticks : ℕ → EmbedWorker → MemVectorStore → EmbedWorker × MemVectorStore
  ticks zero w vec = (w, vec)
  ticks (suc n) w vec = let (w', vec') = ticks n w vec in tick emb (clock n) store w' vec'

  ticks-Covers :
      (n : ℕ) (w : EmbedWorker) (vec : MemVectorStore)
      → IsValid store
      → Covers store w
      → Covers store (ticks n w vec).0 × (min n (length store.entries) ≤ (ticks n w vec).0.last_id)
  unfolding ticks
  ticks-Covers zero w vec v c = (c, omega arith)
  ticks-Covers (suc n) w vec v c =
      let (before, far) = ticks-Covers n w vec v c in
      let (w', vec') = ticks n w vec in
      let t = tick-Advanced emb (clock n) store w' vec' v before in
      (t.covers, omega (arith, t.advanced, limit_or-positive w'.batch, far))

  -- The worker catches up: after as many ticks as the store has entries there is no lag, and all the
  -- entries of the store are done.
  pub ticks_caught_up :
      (w : EmbedWorker) (vec : MemVectorStore)
      → IsValid store
      → Covers store w
      → (lag store (ticks (length store.entries) w vec).0 ≡ 0)
        × All
            (λ (e : StoredEntry).
              has_seen (ticks (length store.entries) w vec).0 (content_hash e.entry) ≡ true)
            store.entries
  unfolding lag limit_or
  ticks_caught_up w vec v c =
      let (covers, far) = ticks-Covers (length store.entries) w vec v c in
      let u : EmbedWorker = (ticks (length store.entries) w vec).0 in
      let all : u.last_id ≡ length store.entries = omega (arith, covers.inside, far) in
      (
        ap length (since-drop store u.last_id (pos 1000000) v)
            ∙ length-take 1000000 (drop u.last_id store.entries)
            ∙ omega (arith, length-drop u.last_id store.entries, all),
        subst (All (Seen u))
            (ap (λ k. take k store.entries) all
              ∙ take_of_length-le (length store.entries) store.entries (omega arith))
            covers.done,
      )
