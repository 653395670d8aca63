-- ===== src/Worker/Embed/Checkpoint.antt =====
-- What a tick of the embedding worker gets done.
use Prim.Native.Nat.{min}
use sentinellog.Prelude.{
  ℕ, zero, suc, ◌+◌, ◌-◌, ◌≤◌, ◌<◌, ◌≡◌, refl, sym, ap, subst, ◌∙◌, inl, inr, ℤ, pos, negsuc,
  lt→ltb, Bool, true, false, Bool-cases, Text, List, [], ◌∷◌, ◌++◌, Option, some, if◌then◌else◌,
  ◌==◌, text_eq, text_beq_iff, ltb, All, All-append, All-imp, length, take, drop, length-take,
  length-drop, get_last?, arith,
}
use sentinellog.Prelude.Strings.{Runtime}
use sentinellog.Prelude.Float.{Float}
use sentinellog.Prelude.Map.{lookup, lookup-insert}
use sentinellog.Model.{Time, StoredEntry, content_hash}
use sentinellog.Store.{MemStore, limit_or}
use sentinellog.Store.Writes.{Numbered, IsValid}
use sentinellog.Store.Since.{since-drop}
use sentinellog.Embed.{Embedder}
use sentinellog.Vector.{MemVectorStore}
use sentinellog.Worker.Embed.{
  EmbedWorker, seen_value, has_seen, mark_seen, report, report_embedded, last_or, advance, process,
  after_process, process_all, tick_entries, tick,
}
use sentinellog.Worker.Embed.Reads.{
  Numbered-take, Numbered-drop, last_or-Numbered, take-add, take-length-take,
}

pub limit_or-positive : (limit : ℤ) → 0 < limit_or 500 limit
unfolding limit_or
limit_or-positive (pos zero) = omega arith
limit_or-positive (pos (suc n)) = omega arith
limit_or-positive (negsuc n) = omega arith

advance-eq :
    (w : EmbedWorker) (last : ℕ) → w.last_id < last → advance w last ≡ record w { last_id = last }
unfolding advance
advance-eq w last h = let e : ltb w.last_id last ≡ true = lt→ltb _ _ h in simp e refl

-- Everything but the marks stays, and no mark is taken back.
Keeps : EmbedWorker → EmbedWorker → Type 0
Keeps w u =
    (u.last_id ≡ w.last_id)
    × (u.dlq ≡ w.dlq)
    × (u.batch ≡ w.batch)
    × ((h : Text) → has_seen w h ≡ true → has_seen u h ≡ true)

seen_value-if :
    (b : Bool) (o : Option Bool)
    → seen_value (if b then some true else o) ≡ (if b then true else seen_value o)
unfolding seen_value
seen_value-if true o = refl
seen_value-if false o = refl

pub has_seen-mark :
    (w : EmbedWorker) (h k : Text)
    → has_seen (mark_seen w h) k ≡ (if h == k then true else has_seen w k)
unfolding has_seen mark_seen
has_seen-mark w h k =
    ap seen_value (lookup-insert h k true w.seen) ∙ seen_value-if (h == k) (lookup k w.seen)

has_seen-mark_same : (w : EmbedWorker) (h : Text) → has_seen (mark_seen w h) h ≡ true
has_seen-mark_same w h =
    let e : (h == h) ≡ true = (text_beq_iff h h).1 refl in
    has_seen-mark w h h ∙ ap (λ b. if b then true else has_seen w h) e

has_seen-mark_kept :
    (w : EmbedWorker) (h k : Text) → has_seen w k ≡ true → has_seen (mark_seen w h) k ≡ true
has_seen-mark_kept w h k s = elim (Bool-cases (h == k)) [
  | inl e ↦ has_seen-mark w h k ∙ simp e refl
  | inr e ↦ has_seen-mark w h k ∙ simp e s
]

module _ ⦃rt : Runtime⦄ where
  abbrev pub Seen : EmbedWorker → StoredEntry → Type 0
  Seen w e = has_seen w (content_hash e.entry) ≡ true

  -- The worker's checkpoint stands inside the store, and the content of every entry up to it is
  -- marked.
  pub record Covers (store : MemStore) (w : EmbedWorker) : Type 0 where
    pub inside : w.last_id ≤ length store.entries
    pub done :
        All
          (λ (e : StoredEntry). has_seen w (content_hash e.entry) ≡ true)
          (take w.last_id store.entries)

  -- What a tick has done to the worker `w`.
  pub record Advanced (store : MemStore) (w u : EmbedWorker) : Type 0 where
    pub covers : Covers store u
    pub advanced : u.last_id ≡ min (w.last_id + limit_or 500 w.batch) (length store.entries)
    pub no_letters : u.dlq ≡ w.dlq

  -- A call of a hook is no part of that.
  report_embedded-Advanced :
      (store : MemStore) (w u : EmbedWorker) (n : ℕ)
      → Advanced store w u
      → Advanced store w (report_embedded u n)
  unfolding report_embedded report has_seen
  report_embedded-Advanced store w u zero t = t
  report_embedded-Advanced store w u (suc n) t = record {
    covers = record { inside = t.covers.inside; done = t.covers.done };
    advanced = t.advanced;
    no_letters = t.no_letters;
  }

module _ ⦃rt : Runtime⦄ ⦃fl : Float⦄ (emb : Embedder) (now : Time) where
  -- The worker after one entry.
  processed : EmbedWorker → MemVectorStore → StoredEntry → ℕ → EmbedWorker × MemVectorStore × ℕ
  processed w vec e n = after_process emb e now (process emb w vec e) n

  processed-Keeps :
      (w : EmbedWorker) (vec : MemVectorStore) (e : StoredEntry) (n : ℕ)
      → Keeps w (processed w vec e n).0
        × (has_seen (processed w vec e n).0 (content_hash e.entry) ≡ true)
  unfolding processed process after_process Keeps report has_seen
  processed-Keeps w vec e n = elim (Bool-cases (has_seen w (content_hash e.entry))) [
    | inl old ↦ simp old ((refl, refl, refl, λ h s. s), refl)
    | inr fresh ↦ simp fresh (
      (refl, refl, refl, λ h s. has_seen-mark_kept w (content_hash e.entry) h s),
      has_seen-mark_same w (content_hash e.entry),
    )
  ]

  process_all-Keeps :
      (es : List StoredEntry) (w : EmbedWorker) (vec : MemVectorStore) (n : ℕ)
      → Keeps w (process_all emb now es w vec n).0
        × All (Seen (process_all emb now es w vec n).0) es
  unfolding process_all Keeps processed
  process_all-Keeps [] w vec n = ((refl, refl, refl, λ h s. s), tt)
  process_all-Keeps (e ∷ es) w vec n =
      let (i, d, b, mono) = (processed-Keeps w vec e n).0 in
      let marked = (processed-Keeps w vec e n).1 in
      let ((i', d', b', mono'), rest) =
        process_all-Keeps es (processed w vec e n).0 (processed w vec e n).1
          (processed w vec e n).2 in
      (
        (i' ∙ i, d' ∙ d, b' ∙ b, λ h s. mono' h (mono h s)),
        (mono' (content_hash e.entry) marked, rest),
      )

  length-read :
      (store : MemStore) (w : EmbedWorker) (es : List StoredEntry)
      → es ≡ take (limit_or 500 w.batch) (drop w.last_id store.entries)
      → length es ≡ min (limit_or 500 w.batch) (length store.entries - w.last_id)
  length-read store w es h =
      ap length h
      ∙ length-take (limit_or 500 w.batch) (drop w.last_id store.entries)
      ∙ ap (min (limit_or 500 w.batch)) (length-drop w.last_id store.entries)

  tick_entries-Advanced :
      (store : MemStore) (w : EmbedWorker) (vec : MemVectorStore) (es : List StoredEntry)
      → Numbered 1 store.entries
      → Covers store w
      → es ≡ take (limit_or 500 w.batch) (drop w.last_id store.entries)
      → Advanced store w (tick_entries emb now es w vec).0
  unfolding tick_entries Keeps
  tick_entries-Advanced store w vec [] n c h = record {
    covers = c;
    advanced = omega (arith, c.inside, limit_or-positive w.batch, length-read store w [] h);
    no_letters = refl;
  }
  tick_entries-Advanced store w vec (e ∷ es) n c h =
      let ((i, d, b, mono), seen) = process_all-Keeps (e ∷ es) w vec 0 in
      let w' : EmbedWorker = (process_all emb now (e ∷ es) w vec 0).0 in
      let m = length (e ∷ es) in
      let size = length-read store w (e ∷ es) h in
      let numbered : Numbered (suc w.last_id) (e ∷ es) = subst (Numbered (suc w.last_id)) (sym h) (
        Numbered-take (limit_or 500 w.batch) (suc w.last_id) (drop w.last_id store.entries)
          (Numbered-drop w.last_id 1 (suc w.last_id) store.entries (omega arith) n)) in
      let last : last_or e.id (get_last? (e ∷ es)) ≡ w.last_id + m =
        last_or-Numbered e.id w.last_id e es numbered in
      let moved : advance w' (last_or e.id (get_last? (e ∷ es)))
          ≡ record w' { last_id = w.last_id + m } =
        ap (advance w') last ∙ advance-eq w' (w.last_id + m) (omega (arith, i)) in
      let read : take (w.last_id + m) store.entries ≡ take w.last_id store.entries ++ (e ∷ es) =
        take-add w.last_id m store.entries
        ∙ ap (λ l. take w.last_id store.entries ++ l)
            (ap (λ k. take (length k) (drop w.last_id store.entries)) h
              ∙ take-length-take (limit_or 500 w.batch) (drop w.last_id store.entries)
              ∙ sym h) in
      let embedded : ℕ = (process_all emb now (e ∷ es) w vec 0).2 in
      report_embedded-Advanced store w _ embedded (
        subst (Advanced store w) (sym moved) (record {
          covers = record {
            inside = omega (arith, size, c.inside);
            done = subst (All (Seen w')) (sym read) (
                All-append (Seen w') (take w.last_id store.entries) (e ∷ es)
                  (All-imp (λ x s. mono (content_hash x.entry) s) (take w.last_id store.entries)
                    c.done)
                  seen);
          };
          advanced = omega (arith, size, c.inside);
          no_letters = d;
        }))

  -- The checkpoint moves on by the batch size or to the end of the store, the contents of all entries
  -- up to it are marked, and nothing is put in the dead-letter queue.
  pub tick-Advanced :
      (store : MemStore) (w : EmbedWorker) (vec : MemVectorStore)
      → IsValid store
      → Covers store w
      → Advanced store w (tick emb now store w vec).0
  unfolding tick
  tick-Advanced store w vec v c =
      tick_entries-Advanced store w vec _ v.dense c (since-drop store w.last_id w.batch v)
