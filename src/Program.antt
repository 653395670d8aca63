-- ===== src/Program.antt =====
-- cmd/ingest/main.go: the components put together, and what the server answers.
pub mod Server
pub mod Steps
pub mod Stored
pub mod Invariant
pub mod Delivery
pub mod Interleaved
pub mod Publishing
pub mod Requests
pub mod Acknowledged
use sentinellog.Prelude.{
  ℕ, ◌*◌, ◌^◌, ℤ, pos, negsuc, Bool, Text, codes, List, [], ◌∷◌, ◌++◌, foldl, Option, none, some,
  if◌then◌else◌, ◌==◌, text_eq,
}
use sentinellog.Prelude.Strings.{Runtime}
use sentinellog.Prelude.Float.{Float}
use sentinellog.Prelude.Map.{lookup}
use sentinellog.Prelude.Sorting.{Sorting}
use sentinellog.Model.{Time}
use sentinellog.Store.{MemStore, new_mem, write_batch}
use sentinellog.Writer.{Writer}
use sentinellog.Writer.Machine.{System, running}
use sentinellog.Embed.{Embedder}
use sentinellog.Vector.{Hit, MemVectorStore}
use sentinellog.Kb.{KbStore, runbook, postmortem}
use sentinellog.Audit.{Log}
use sentinellog.Rbac.{Identity, admin, responder, viewer}
use sentinellog.Redaction.{Redactor}
use sentinellog.Redaction.Pattern.{Regexp}
use sentinellog.RateLimit.{Limiter}
use sentinellog.Ingest.{Json, serve_http}
use sentinellog.Ingest.Auth.{Authenticator, new_authenticator, add_token}
use sentinellog.Query.{Service}
use sentinellog.Query.Handler.{Decoders, Endpoint, handle, pattern_of}
use sentinellog.Worker.Embed.{EmbedWorker, new_embed, lag}
use sentinellog.Worker.Anomaly.{Sampler}
use sentinellog.Anomaly.Feed.{new_feed}
use sentinellog.Metrics.{Registry, new_registry, set_gauge, render}
use sentinellog.Config.{Config}

identities : List (Text × Identity)
identities =
    (codes "acme-admin", record { actor = codes "alice"; tenant_id = codes "acme"; role = admin })
    ∷ (
      codes "acme-responder",
      record { actor = codes "bob"; tenant_id = codes "acme"; role = responder },
    )
    ∷ (
      codes "acme-viewer",
      record { actor = codes "carol"; tenant_id = codes "acme"; role = viewer },
    )
    ∷ (
      codes "globex-admin",
      record { actor = codes "dave"; tenant_id = codes "globex"; role = admin },
    )
    ∷ []

-- The closure `Resolve`.
pub resolve : Text → Option Identity
unfolding identities
resolve token = lookup token identities

module _ ⦃fl : Float⦄ where
  -- What the program takes from outside: the embedder, the sorts, and the verb %.2f.
  pub record Parts : Type 0 where
    pub emb : Embedder
    pub sorting : Sorting Hit
    pub name_sorting : Sorting Text
    pub format_score : fl.F → Text
    pub format_g : fl.F → Text

  -- The objects that `main` shares between the goroutines. The buffer and the writer are in
  -- `system`; `sampler` has the detector, the feed and the checkpoint of the anomaly worker.
  pub record State : Type 0 where
    pub auth : Authenticator
    pub limiter : Limiter
    pub redactor : Redactor
    pub max_body : ℕ
    pub system : System
    pub vec : MemVectorStore
    pub kb : KbStore
    pub audit : Log
    pub embed_worker : EmbedWorker
    pub sampler : Sampler

  -- The log store, to which the writer hands its batches.
  unfoldable pub store_of : System → MemStore
  store_of s = foldl write_batch new_mem s.writer.flushed

  seed_kb : Embedder → KbStore → MemVectorStore → KbStore × MemVectorStore
  seed_kb emb kb vec =
      let (d, kb', vec') =
        sentinellog.Kb.add emb kb vec (codes "acme") runbook (codes "Checkout 5xx spike runbook")
          (codes
              "When checkout returns 5xx: check payment gateway timeout, DB connection pool saturation, "
            ++ codes
                "and recent deploys. Roll back first, then investigate. Common cause: pool exhausted under load.")
          (codes "checkout" ∷ codes "5xx" ∷ []) in
      let (d', kb'', vec'') =
        sentinellog.Kb.add emb kb' vec' (codes "acme") postmortem
          (codes "2025-11 checkout outage postmortem")
          (codes
              "Root cause: connection pool exhausted after 50-pod scale-up, 1000 connections hit Postgres 8-core. "
            ++ codes
                "Fix: pgbouncer transaction pooling + reduced app-side pool. Detection: p99 latency alert.")
          (codes "checkout" ∷ codes "database" ∷ []) in
      (kb'', vec'')

  -- The argument of `http.MaxBytesReader`, which takes a negative limit for 0.
  body_limit : ℤ → ℕ
  body_limit (pos n) = n
  body_limit (negsuc n) = 0

  pub ingest_handler : ⦃rt : Runtime⦄ → State → sentinellog.Ingest.Handler
  ingest_handler s = record {
    auth = s.auth;
    limiter = s.limiter;
    redactor = s.redactor;
    buffer = s.system.buffer;
    max_body = s.max_body;
  }

  module _ ⦃rt : Runtime⦄ (parts : Parts) where
    unfoldable pub fresh : Regexp → Config → ℕ → ℕ → State
    unfolding seed_kb body_limit
    fresh re cfg buffer_size batch_size =
        let (kb, vec) = seed_kb parts.emb sentinellog.Kb.new sentinellog.Vector.new_mem in
        record {
          auth =
              add_token (add_token new_authenticator (codes "dev-token") (codes "acme"))
                (codes "globex-token") (codes "globex");
          limiter = sentinellog.RateLimit.new cfg.rate_per_tenant cfg.burst_per_tenant;
          redactor = sentinellog.Redaction.new re;
          max_body = body_limit cfg.max_body_bytes;
          system = record {
            writer = record { size = batch_size; batch = []; flushed = [] };
            buffer = sentinellog.Buffer.new buffer_size;
            cancelled = Bool.false;
            phase = running;
            accepted = [];
          };
          vec = vec;
          kb = kb;
          audit = sentinellog.Audit.new;
          embed_worker = new_embed (pos 200);
          sampler = record {
            det = sentinellog.Anomaly.new (fl.ratio 1 4) (fl.of_nat 3) (pos 15);
            feed = new_feed (pos 1000);
            last_id = 0;
            calls = 0;
          };
        }

    -- `none` is the panic of a channel, a slice or a ticker with a size out of range, and the buffer
    -- size 0, for which the channel has no queue and which this model leaves out.
    unfoldable pub sized : Regexp → Config → ℤ → ℤ → ℤ → Option State
    unfolding fresh
    sized re cfg (pos (ℕ.suc k)) (pos batch_size) (pos (ℕ.suc n)) =
        some (fresh re cfg (ℕ.suc k) batch_size)
    sized re cfg buffer_size batch_size interval = none

    -- The state when the server starts to listen.
    unfoldable pub start : Regexp → Config → Option State
    unfolding sized
    start re cfg = sized re cfg cfg.buffer_size cfg.batch_size cfg.batch_interval

    pub service : State → Service
    service s = record {
      store = store_of s.system;
      vec = s.vec;
      emb = parts.emb;
      kb = s.kb;
      audit = s.audit;
      min_score = fl.ratio 15 100;
      sorting = parts.sorting;
      format_score = parts.format_score;
    }

    pub query_handler : State → sentinellog.Query.Handler.Handler
    unfolding service resolve
    query_handler s = record { svc = service s; feed = s.sampler.feed; resolve = resolve }
