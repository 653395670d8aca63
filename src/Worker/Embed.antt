-- ===== src/Worker/Embed.antt =====
-- internal/worker/embedworker.go: the worker that embeds what the store has past a checkpoint.
pub mod Reads
pub mod Checkpoint
pub mod CatchUp
pub mod Vectors
pub mod Reports
pub mod Index
use sentinellog.Prelude.{
  ℕ, zero, suc, ◌+◌, ℤ, pos, negsuc, Bool, true, false, Text, codes, List, [], ◌∷◌, ◌++◌, Option,
  none, some, if◌then◌else◌, ltb, text_eq, length, get_last?,
}
use sentinellog.Prelude.Strings.{Runtime}
use sentinellog.Prelude.Float.{Float}
use sentinellog.Prelude.Map.{lookup, insert}
use sentinellog.Model.{Time, StoredEntry, content_hash, ref}
use sentinellog.Store.{MemStore, since}
use sentinellog.Embed.{Embedder}
use sentinellog.Vector.{Item, MemVectorStore, upsert}

pub record DeadLetter : Type 0 where
  pub entry : StoredEntry
  pub err : Text
  pub at : Time

-- A call of a hook of `Metrics`. `SetLag`, which main.go leaves nil, is left out.
pub data Call : Type 0 where
  on_embedded : ℕ → Call
  on_dedup : Call
  on_dlq : Call

-- The vector store that the source's record points to stands beside it, since the knowledge base
-- writes to it as well.
pub record EmbedWorker : Type 0 where
  pub batch : ℤ
  pub last_id : ℕ
  pub seen : List (Text × Bool)
  pub dlq : List DeadLetter
  pub calls : List Call  -- what the hooks were called with, oldest first

-- `if batch <= 0 { batch = 200 }`
batch_or_200 : ℤ → ℤ
batch_or_200 (pos zero) = pos 200
batch_or_200 (pos (suc n)) = pos (suc n)
batch_or_200 (negsuc n) = pos 200

unfoldable pub new_embed : ℤ → EmbedWorker
unfolding batch_or_200
new_embed batch = record {
  batch = batch_or_200 batch;
  last_id = 0;
  seen = [];
  dlq = [];
  calls = [];
}

-- `w.seen[h]`
seen_value : Option Bool → Bool
seen_value none = false
seen_value (some b) = b

pub has_seen : EmbedWorker → Text → Bool
unfolding seen_value
has_seen w h = seen_value (lookup h w.seen)

pub mark_seen : EmbedWorker → Text → EmbedWorker
mark_seen w h = record w { seen = insert h true w.seen }

pub report : EmbedWorker → Call → EmbedWorker
report w call = record w { calls = w.calls ++ call ∷ [] }

pub push_dlq : EmbedWorker → StoredEntry → Text → Time → EmbedWorker
unfolding report
push_dlq w e err now =
    report (record w { dlq = w.dlq ++ record { entry = e; err = err; at = now } ∷ [] }) on_dlq

-- `if embedded > 0 { w.m.OnEmbedded(embedded) }`
report_embedded : EmbedWorker → ℕ → EmbedWorker
unfolding report
report_embedded w zero = w
report_embedded w (suc n) = report w (on_embedded (suc n))

-- `entries[len(entries)-1].ID`, for entries that are not empty.
pub last_or : ℕ → Option StoredEntry → ℕ
last_or id none = id
last_or id (some e) = e.id

-- `if last > w.lastID { w.lastID = last }`
advance : EmbedWorker → ℕ → EmbedWorker
advance w last = if ltb w.last_id last then record w { last_id = last } else w

module _ ⦃rt : Runtime⦄ ⦃fl : Float⦄ (emb : Embedder) where
  pub log_item : StoredEntry → Item
  log_item e = record {
    tenant_id = e.tenant_id;
    ref = ref e;
    source_type = codes "log";
    vec = emb.embed e.message;
    version = emb.version;
  }

  -- The error is what the third component holds.
  pub process :
      EmbedWorker → MemVectorStore → StoredEntry → EmbedWorker × MemVectorStore × Option Text
  unfolding has_seen mark_seen report log_item
  process w vec e =
      if has_seen w (content_hash e.entry)
      then (report w on_dedup, vec, none)
      else (mark_seen w (content_hash e.entry), upsert vec (log_item e), none)

  -- The rest of a round of the loop, which counts in `embedded` the entries without an error.
  after_process :
      StoredEntry
      → Time
      → EmbedWorker × MemVectorStore × Option Text
      → ℕ
      → EmbedWorker × MemVectorStore × ℕ
  unfolding push_dlq
  after_process e now (w, vec, none) embedded = (w, vec, suc embedded)
  after_process e now (w, vec, some err) embedded = (push_dlq w e err now, vec, embedded)

  pub process_all :
      Time → List StoredEntry → EmbedWorker → MemVectorStore → ℕ → EmbedWorker × MemVectorStore × ℕ
  unfolding process after_process
  process_all now [] w vec embedded = (w, vec, embedded)
  process_all now (e ∷ es) w vec embedded =
      let (w', vec', embedded') = after_process e now (process w vec e) embedded in
      process_all now es w' vec' embedded'

  -- `Since` never fails here.
  tick_entries :
      Time → List StoredEntry → EmbedWorker → MemVectorStore → EmbedWorker × MemVectorStore
  unfolding process_all last_or advance report_embedded
  tick_entries now [] w vec = (w, vec)
  tick_entries now (e ∷ es) w vec =
      let (w', vec', embedded) = process_all now (e ∷ es) w vec 0 in
      (report_embedded (advance w' (last_or e.id (get_last? (e ∷ es)))) embedded, vec')

  pub tick : Time → MemStore → EmbedWorker → MemVectorStore → EmbedWorker × MemVectorStore
  unfolding tick_entries
  tick now store w vec = tick_entries now (since store w.last_id w.batch) w vec

pub dlq_len : EmbedWorker → ℕ
dlq_len w = length w.dlq

pub lag : MemStore → EmbedWorker → ℕ
lag store w = length (since store w.last_id (pos 1000000))
