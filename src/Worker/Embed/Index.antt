-- ===== src/Worker/Embed/Index.antt =====
-- What the worker has embedded, as the vector store sees it.
use Prim.Native.Nat.{min}
use mathlib.Core.List.{Memᴰ}
use sentinellog.Prelude.{
  ◌+◌, ◌++◌, take, drop, All-take, All-Memᴰ, ℤ, ℕ, zero, suc, ◌≡◌, ◌≢◌, refl, subst, inl, inr, Bool,
  true, Bool-cases, Text, codes, List, [], ◌∷◌, ◌==◌, text_eq, text_beq_iff, All, length, arith,
  sym, ◌∙◌,
}
use sentinellog.Prelude.Strings.{Runtime}
use sentinellog.Prelude.Map.{lookup}
use sentinellog.Prelude.Float.{Float}
use sentinellog.Model.{Time, StoredEntry, content_hash, ref}
use sentinellog.Store.{MemStore, limit_or, since}
use sentinellog.Store.Batches.{Extends}
use sentinellog.Store.Since.{since-drop}
use sentinellog.Store.Writes.{IsValid}
use sentinellog.Embed.{Embedder}
use sentinellog.Vector.{MemVectorStore, ref_key, is_present, upsert}
use sentinellog.Vector.Idempotence.{is_present-upsert, is_present-kept}
use sentinellog.Worker.Embed.{
  EmbedWorker, on_dedup, new_embed, seen_value, has_seen, mark_seen, report, report_embedded,
  advance, log_item, process, process_all, after_process, tick_entries, tick,
}
use sentinellog.Worker.Embed.Checkpoint.{has_seen-mark, Covers}

Memᴰ-append_left : {x : StoredEntry} (xs ys : List StoredEntry) → Memᴰ x xs → Memᴰ x (xs ++ ys)
Memᴰ-append_left [] ys m = elim m [ ]
Memᴰ-append_left (y ∷ xs) ys (Memᴰ.head e) = Memᴰ.head e
Memᴰ-append_left (y ∷ xs) ys (Memᴰ.tail m) = Memᴰ.tail (Memᴰ-append_left xs ys m)

All-drop : (P : StoredEntry → Type 0) (n : ℕ) (xs : List StoredEntry) → All P xs → All P (drop n xs)
All-drop P zero xs h = h
All-drop P (suc n) [] h = tt
All-drop P (suc n) (x ∷ xs) h = All-drop P n xs h.1

module _ ⦃rt : Runtime⦄ ⦃fl : Float⦄ where
  -- The log store has an entry with the content `h` whose own reference the vector store has, unless
  -- the entry names no tenant.
  pub record IsEmbedded (store : MemStore) (vec : MemVectorStore) (h : Text) : Type 0 where
    pub source : StoredEntry
    pub stored : Memᴰ source store.entries
    pub same_content : content_hash source.entry ≡ h
    pub kept :
        source.tenant_id ≢ codes "" → is_present vec (ref_key source.tenant_id (ref source)) ≡ true

  -- Every content that the worker has marked is embedded.
  pub IsIndexed : MemStore → EmbedWorker → MemVectorStore → Type 0
  IsIndexed store w vec = (h : Text) → has_seen w h ≡ true → IsEmbedded store vec h

  -- A store that has got more entries keeps what is embedded.
  pub IsIndexed-Extends :
      (s t : MemStore) (w : EmbedWorker) (vec : MemVectorStore)
      → Extends s t
      → IsIndexed s w vec
      → IsIndexed t w vec
  unfolding IsIndexed
  IsIndexed-Extends s t w vec (more, e) v h seen =
      let x = v h seen in
      record {
        source = x.source;
        stored = subst (Memᴰ x.source) (sym e) (Memᴰ-append_left s.entries more x.stored);
        same_content = x.same_content;
        kept = x.kept;
      }

  -- What a tick has done: from the worker `w` to the worker `u` and the vectors `vec`.
  pub record Ticked (store : MemStore) (w u : EmbedWorker) (vec : MemVectorStore) : Type 0 where
    pub advanced : u.last_id ≡ min (w.last_id + limit_or 500 w.batch) (length store.entries)
    pub embedded :
        All
          (λ (e : StoredEntry). IsEmbedded store vec (content_hash e.entry))
          (take u.last_id store.entries)
    pub covers : Covers store u
    pub indexed : IsIndexed store u vec
    pub no_letters : u.dlq ≡ w.dlq

  -- The index is about the marks alone.
  pub same_marks-IsIndexed :
      (store : MemStore) (w u : EmbedWorker) (vec : MemVectorStore)
      → u.seen ≡ w.seen
      → IsIndexed store w vec
      → IsIndexed store u vec
  unfolding IsIndexed has_seen
  same_marks-IsIndexed store w u vec same v h s =
      v h (subst (λ (m : List (Text × Bool)). seen_value (lookup h m) ≡ true) same s)

  IsEmbedded-upsert :
      (store : MemStore) (emb : Embedder) (vec : MemVectorStore) (e : StoredEntry) (h : Text)
      → IsEmbedded store vec h
      → IsEmbedded store (upsert vec (log_item emb e)) h
  IsEmbedded-upsert store emb vec e h v = record {
    source = v.source;
    stored = v.stored;
    same_content = v.same_content;
    kept = λ t.
        is_present-kept vec (log_item emb e) (ref_key v.source.tenant_id (ref v.source)) (v.kept t);
  }

  advance-seen : (w : EmbedWorker) (last : ℕ) → (advance w last).seen ≡ w.seen
  unfolding advance
  advance-seen w last = ground arith

  report_embedded-seen : (w : EmbedWorker) (n : ℕ) → (report_embedded w n).seen ≡ w.seen
  unfolding report_embedded report
  report_embedded-seen w zero = refl
  report_embedded-seen w (suc n) = refl

  ref-nonempty : (e : StoredEntry) → ref e ≢ codes ""
  unfolding ref
  ref-nonempty e h = ground arith

  module _ (emb : Embedder) (now : Time) (store : MemStore) where
    marked-IsIndexed :
        (w : EmbedWorker) (vec : MemVectorStore) (e : StoredEntry)
        → Memᴰ e store.entries
        → IsIndexed store w vec
        → IsIndexed store (mark_seen w (content_hash e.entry)) (upsert vec (log_item emb e))
    unfolding IsIndexed log_item
    marked-IsIndexed w vec e m v h s = elim (Bool-cases (content_hash e.entry == h)) [
      | inl same ↦ record {
        source = e;
        stored = m;
        same_content = (text_beq_iff (content_hash e.entry) h).0 same;
        kept = λ t. is_present-upsert vec (log_item emb e) t (ref-nonempty e);
      }
      | inr other ↦
          IsEmbedded-upsert store emb vec e h
            (v h (rw other at (sym (has_seen-mark w (content_hash e.entry) h) ∙ s)))
    ]

    process_all-IsIndexed :
        (es : List StoredEntry) (w : EmbedWorker) (vec : MemVectorStore) (n : ℕ)
        → All (λ e. Memᴰ e store.entries) es
        → IsIndexed store w vec
        → IsIndexed store (process_all emb now es w vec n).0 (process_all emb now es w vec n).1
    unfolding process_all process after_process report
    process_all-IsIndexed [] w vec n m v = v
    process_all-IsIndexed (e ∷ es) w vec n m v =
        elim (Bool-cases (has_seen w (content_hash e.entry))) [
          | inl old ↦ simp old (
              process_all-IsIndexed es (report w on_dedup) vec (suc n) m.1
                (same_marks-IsIndexed store w (report w on_dedup) vec refl v))
          | inr fresh ↦ simp fresh (
              process_all-IsIndexed es (mark_seen w (content_hash e.entry))
                (upsert vec (log_item emb e)) (suc n) m.1 (marked-IsIndexed w vec e m.0 v))
        ]

    tick_entries-IsIndexed :
        (es : List StoredEntry) (w : EmbedWorker) (vec : MemVectorStore)
        → All (λ e. Memᴰ e store.entries) es
        → IsIndexed store w vec
        → IsIndexed store (tick_entries emb now es w vec).0 (tick_entries emb now es w vec).1
    unfolding tick_entries
    tick_entries-IsIndexed [] w vec m v = v
    tick_entries-IsIndexed (e ∷ es) w vec m v =
        let (w', vec', n) = process_all emb now (e ∷ es) w vec 0 in
        same_marks-IsIndexed store w' _ vec' (report_embedded-seen _ n ∙ advance-seen w' _)
          (process_all-IsIndexed (e ∷ es) w vec 0 m v)

    since-All-Memᴰ :
        (after_id : ℕ) (limit : ℤ)
        → IsValid store
        → All (λ e. Memᴰ e store.entries) (since store after_id limit)
    since-All-Memᴰ after_id limit valid =
        subst (All (λ e. Memᴰ e store.entries)) (sym (since-drop store after_id limit valid)) (
          All-take _ (limit_or 500 limit) (drop after_id store.entries)
            (All-drop _ after_id store.entries (All-Memᴰ store.entries)))

    pub tick-IsIndexed :
        (w : EmbedWorker) (vec : MemVectorStore)
        → IsValid store
        → IsIndexed store w vec
        → IsIndexed store (tick emb now store w vec).0 (tick emb now store w vec).1
    unfolding tick
    tick-IsIndexed w vec valid v =
        tick_entries-IsIndexed (since store w.last_id w.batch) w vec
          (since-All-Memᴰ w.last_id w.batch valid) v

  -- A worker that has marked nothing.
  pub new-IsIndexed :
      (store : MemStore) (batch : ℤ) (vec : MemVectorStore) → IsIndexed store (new_embed batch) vec
  unfolding IsIndexed has_seen seen_value new_embed lookup
  new-IsIndexed store batch vec h s = absurd (ground (arith, s))
