-- ===== src/Tests/Surface.antt =====
-- The endpoints, the configuration and the metrics.
use sentinellog.Prelude.{
  ℕ, ◌+◌, ◌≡◌, ◌≢◌, refl, inl, inr, pos, negsuc, codes, Text, List, [], ◌∷◌, ◌++◌, Option, none,
  some, if◌then◌else◌, ◌==◌, arith, u64, length, text_beq, text_eq, All, true,
}
use sentinellog.Prelude.Map.{lookup}
use sentinellog.Model.Decimal.{format_uint, format_int}
use sentinellog.Store.{new_mem, write_batch}
use sentinellog.Anomaly.{Event}
use sentinellog.Anomaly.Feed.{new_feed, recent}
use sentinellog.Anomaly.Feed.Recent.{push_all}
use sentinellog.Anomaly.Feed.Eviction.{recent_evicted}
use sentinellog.Audit.Append.{new-IsIntact}
use sentinellog.Rbac.{Identity, admin}
use sentinellog.Embed.{Embedder}
use sentinellog.Query.{Service}
use sentinellog.Query.Isolation.{History, Foreign}
use sentinellog.Query.Handler.{Endpoint, Decoders, Request, Handler, auth, handle}
use sentinellog.Query.Handler.Isolation.{handle_noninterference}
use sentinellog.Query.Handler.Outcomes.{Outcome, traces}
use sentinellog.Query.Handler.Trace.{expected_status, handle-Outcome}
use sentinellog.Config.{Environment, env_int}
use sentinellog.Config.Numbers.{env_int-format_int}
use sentinellog.Metrics.{new_histogram, newline, type_line, render_histogram}
use sentinellog.Metrics.Buckets.{IsLinear, observed}
use sentinellog.Metrics.Rendering.{exact_lines, render_observed}
use sentinellog.Tests.Fixtures.{plain_runtime, whole, sorting, tenant_a, tenant_b, failed, foreign}

abbrev embedder : Embedder
embedder = record { embed = λ s. 1 ∷ 1 ∷ []; dim = 2; version = codes "test" }

abbrev service : Service
service = record {
  store = write_batch new_mem (failed ∷ []);
  vec = sentinellog.Vector.new_mem;
  emb = embedder;
  kb = sentinellog.Kb.new;
  audit = sentinellog.Audit.new;
  min_score = 1;
  sorting = sorting;
  format_score = λ x. [];
}

abbrev ann : Identity
ann = record { actor = codes "ann"; tenant_id = tenant_a; role = admin }

abbrev handler : Handler
handler = record {
  svc = service;
  feed = new_feed (pos 10);
  resolve = λ token. if token == codes "t" then some ann else none;
}

abbrev decoders : Decoders
decoders = record {
  search = λ s. inr (record { service = []; level = []; contains = []; limit = pos 5 });
  semantic = λ s. inr (record { query = codes "q"; k = pos 3 });
  why = λ s. inr (record { question = codes "why"; k = pos 3 });
}

abbrev question : Request
question = record { method = codes "POST"; authorization = codes "Bearer t"; body = codes "{}" }

handle-Outcome_example :
    Outcome
      (traces Endpoint.why)
      (expected_status decoders Endpoint.why handler question)
      handler
      (handle decoders (pos 1) (pos 2) handler question Endpoint.why)
unfolding sentinellog.Audit.new
handle-Outcome_example =
    handle-Outcome decoders (pos 1) (pos 2) handler question Endpoint.why new-IsIntact (omega arith)

abbrev later_handler : Handler
later_handler = record handler {
  svc = record service { store = write_batch service.store (foreign ∷ []) };
}

past :
    (id : Identity)
    → auth handler question ≡ some id
    → History id.tenant_id service later_handler.svc
unfolding auth sentinellog.Prelude.Strings.has_prefix text_beq
past id e =
    let same : tenant_a ≡ id.tenant_id = ground arith in
    rw (← same)
      (History.next History.here (Foreign.wrote (foreign ∷ []) (λ x. ground (arith, x), tt) refl))

handle_noninterference_example :
    (handle decoders (pos 7) (pos 8) later_handler question Endpoint.search).1
    ≡ (handle decoders (pos 1) (pos 2) handler question Endpoint.search).1
unfolding auth
handle_noninterference_example =
    handle_noninterference decoders handler later_handler (pos 1) (pos 2) (pos 7) (pos 8) question
      Endpoint.search (λ e. ground (arith, e)) refl past

abbrev event : Event
event = record {
  tenant_id = tenant_a;
  service = codes "pay";
  signal = codes "errors";
  value = 9;
  score = 4;
  at = 1;
}

abbrev event_b : Event
event_b = record event { tenant_id = tenant_b }

recent_evicted_example :
    recent (push_all (new_feed (pos 2)) ((event ∷ []) ++ (event_b ∷ event_b ∷ []))) tenant_a (pos 5)
    ≡ []
unfolding new_feed
recent_evicted_example =
    recent_evicted (pos 2) (event ∷ []) (event_b ∷ event_b ∷ []) tenant_a (pos 5)
      (λ e. ground (arith, e), (λ e. ground (arith, e), tt)) (omega arith)

abbrev environment : Environment
environment = (codes "SL_BURST", format_int (negsuc 41)) ∷ []

env_int-format_int_example : env_int environment (codes "SL_BURST") (pos 2000) ≡ negsuc 41
unfolding lookup text_beq
env_int-format_int_example =
    env_int-format_int environment (codes "SL_BURST") (pos 2000) (negsuc 41) refl (omega arith)

whole-IsLinear : IsLinear
whole-IsLinear = record {
  le_trans = λ x y z p q. ground (arith, p, q);
  of_nat_mono = λ a b h. ground arith;
}

render_observed_example :
    render_histogram format_uint (codes "lat") (observed (7 ∷ 6000 ∷ []))
    ≡ type_line (codes "lat") " histogram"
      ++ (exact_lines format_uint (codes "lat") (7 ∷ 6000 ∷ []) new_histogram.bounds
          ++ (codes "lat"
              ++ (codes "_sum "
                  ++ (format_uint (observed (7 ∷ 6000 ∷ [])).sum
                      ++ (newline
                          ++ (codes "lat"
                              ++ (codes "_count "
                                  ++ (format_uint (u64 (length {A = ℕ} (7 ∷ 6000 ∷ [])))
                                      ++ newline))))))))
render_observed_example = render_observed format_uint (codes "lat") (7 ∷ 6000 ∷ []) whole-IsLinear
