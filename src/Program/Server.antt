-- ===== src/Program/Server.antt =====
-- cmd/ingest/main.go: the mux, the gauges and the latency hook.
use sentinellog.Prelude.{
  zero, suc, ◌-◌, Bool, List, ℕ, ℤ, Text, codes, ◌++◌, foldl, if◌then◌else◌, ◌==◌, text_eq, length,
  drop,
}
use sentinellog.Prelude.Strings.{Runtime}
use sentinellog.Prelude.Float.{Float}
use sentinellog.Model.{Time}
use sentinellog.Buffer.{depth}
use sentinellog.Ingest.{Json, serve_http}
use sentinellog.Query.Handler.{
  failure, encoded, aborted, Decoders, Endpoint, handle, pattern_of, latency_ms,
}
use sentinellog.Worker.Embed.{Call, on_embedded, on_dedup, on_dlq, dlq_len, lag}
use sentinellog.Worker.Anomaly.{Key}
use sentinellog.Anomaly.{baselines}
use sentinellog.Metrics.{Registry, new_registry, add_count, inc, set_gauge, observe, render}
use sentinellog.Program.{Parts, State, store_of, query_handler, ingest_handler}

pub record HttpRequest : Type 0 where
  pub path : Text
  pub method : Text
  pub authorization : Text
  pub body : Text

ingest_request : HttpRequest → sentinellog.Ingest.Request
ingest_request r = record { method = r.method; authorization = r.authorization; body = r.body }

query_request : HttpRequest → sentinellog.Query.Handler.Request
query_request r = record { method = r.method; authorization = r.authorization; body = r.body }

-- The clock's readings for one request, in nanoseconds: `start` and `end` around a query, `now` for
-- the limiter, `clock` for the entries, `stamp` and `later` for the audit.
pub record Clock : Type 0 where
  pub start : ℕ
  pub end : ℕ
  pub now : ℕ
  pub clock : ℕ → Time
  pub stamp : ℤ
  pub later : ℤ

module _ ⦃rt : Runtime⦄ ⦃fl : Float⦄ where
  pub data Reply : Type 0 where
    ingested : sentinellog.Ingest.Response → Reply
    queried : sentinellog.Query.Handler.Response → Reply
    healthy : Reply
    page : Text → Reply
    not_found : Reply

  -- The shared objects beside the registry, whose gauges read them.
  pub record Server : Type 0 where
    pub state : State
    pub metrics : Registry State

  -- The calls of `SetGauge`.
  pub gauges : Registry State
  unfolding store_of
  gauges =
      let count = λ (f : State → ℕ) (s : State). fl.of_nat (f s) in
      let r : Registry State =
        set_gauge new_registry (codes "sl_buffer_depth") (count (λ s. depth s.system.buffer)) in
      let r : Registry State =
        set_gauge r (codes "sl_buffer_accepted_total") (count (λ s. s.system.buffer.accepted)) in
      let r : Registry State =
        set_gauge r (codes "sl_buffer_shed_total") (count (λ s. s.system.buffer.shed)) in
      let r : Registry State =
        set_gauge r (codes "sl_store_written_total") (count (λ s. (store_of s.system).written)) in
      let r : Registry State =
        set_gauge r (codes "sl_vectors") (count (λ s. sentinellog.Vector.len s.vec)) in
      let r : Registry State =
        set_gauge r (codes "sl_anomaly_baselines") (count (λ s. baselines s.sampler.det)) in
      let r : Registry State =
        set_gauge r (codes "sl_embed_lag") (count (λ s. lag (store_of s.system) s.embed_worker)) in
      set_gauge r (codes "sl_embed_dlq_depth") (count (λ s. dlq_len s.embed_worker))

  -- The closures `OnEmbedded`, `OnDedup` and `OnDLQ`.
  on_call : Registry State → Call → Registry State
  on_call r (on_embedded n) = add_count r (codes "sl_embedded_total") n
  on_call r on_dedup = inc r (codes "sl_embed_dedup_total")
  on_call r on_dlq = inc r (codes "sl_embed_dlq_total")

  -- A tick of the embedding worker, with what it reports.
  pub embed_round : Parts → Time → Server → Server
  unfolding on_call
  embed_round parts now v =
      let s = v.state in
      let (w, vec) =
        sentinellog.Worker.Embed.tick parts.emb now (store_of s.system) s.embed_worker s.vec in
      record {
        state = record s { embed_worker = w; vec = vec };
        metrics = foldl on_call v.metrics (drop (length s.embed_worker.calls) w.calls);
      }

  -- The closure of `OnEvent`, called `n` times.
  on_events : ℕ → Registry State → Registry State
  on_events zero r = r
  on_events (suc n) r = inc (on_events n r) (codes "sl_anomaly_events_total")

  -- A tick of the anomaly worker, with what it reports.
  pub anomaly_round : (List (Key × Bool) → List Key) → (Key → Time) → Server → Server
  unfolding on_events
  anomaly_round order clock v =
      let s = v.state in
      let sampler = sentinellog.Worker.Anomaly.tick order clock (store_of s.system) s.sampler in
      record {
        state = record s { sampler = sampler };
        metrics = on_events (sampler.calls - s.sampler.calls) v.metrics;
      }

  -- The queue of the buffer only grows in a request; what it gains is what was accepted.
  unfoldable pub ingest :
      Json → Clock → State → sentinellog.Ingest.Request → State × sentinellog.Ingest.Response
  unfolding ingest_handler
  ingest json c s r =
      let (h, response) = serve_http json c.now c.clock (ingest_handler s) r in
      (
        record s {
          limiter = h.limiter;
          system = record s.system {
            buffer = h.buffer;
            accepted = s.system.accepted ++ drop (length s.system.buffer.queue) h.buffer.queue;
          };
        },
        response,
      )

  module _ (parts : Parts) (json : Json) (decoders : Decoders) (c : Clock) where
    pub query :
        Endpoint
        → State
        → sentinellog.Query.Handler.Request
        → State × sentinellog.Query.Handler.Response
    unfolding query_handler
    query e s r =
        let (h, response) = handle decoders c.stamp c.later (query_handler parts s) r e in
        (record s { audit = h.svc.audit }, response)

    -- The hook `OnLatency`, which a panic passes by.
    on_latency : Registry State → sentinellog.Query.Handler.Response → Registry State
    on_latency m aborted = m
    on_latency m (failure code text) =
        observe m (codes "sl_query_latency_ms") (latency_ms c.start c.end)
    on_latency m (encoded payload) =
        observe m (codes "sl_query_latency_ms") (latency_ms c.start c.end)

    -- A query endpoint behind `timed`.
    timed : Endpoint → Server → HttpRequest → Server × Reply
    unfolding query query_request on_latency
    timed e v r =
        let (s, response) = query e v.state (query_request r) in
        (record { state = s; metrics = on_latency v.metrics response }, queried response)

    ingest_reply : Server → HttpRequest → Server × Reply
    unfolding ingest ingest_request
    ingest_reply v r =
        let (s, response) = ingest json c v.state (ingest_request r) in
        (record v { state = s }, ingested response)

    -- The mux, on clean paths.
    pub serve : Server → HttpRequest → Server × Reply
    unfolding timed ingest_reply pattern_of
    serve v r =
        if r.path == codes "/v1/ingest"
        then ingest_reply v r
        else if r.path == pattern_of Endpoint.search
        then timed Endpoint.search v r
        else if r.path == pattern_of Endpoint.semantic
        then timed Endpoint.semantic v r
        else if r.path == pattern_of Endpoint.why
        then timed Endpoint.why v r
        else if r.path == pattern_of Endpoint.anomalies
        then timed Endpoint.anomalies v r
        else if r.path == codes "/healthz"
        then (v, healthy)
        else if r.path == codes "/metrics"
        then (v, page (render parts.name_sorting parts.format_g v.state v.metrics))
        else (v, not_found)
