-- ===== src/Tests/Followers.antt =====
-- The workers and the anomalies.
use sentinellog.Prelude.{
  ℕ, pos, ◌≡◌, ◌≤◌, codes, [], ◌∷◌, ◌++◌, replicate, filter, take, reverse, text_eq, length,
}
use sentinellog.Prelude.Map.{lookup}
use sentinellog.Model.{Time}
use sentinellog.Store.{MemStore, since}
use sentinellog.Embed.{Embedder}
use sentinellog.Vector.{new_mem}
use sentinellog.Worker.Embed.{EmbedWorker, on_dedup, has_seen, tick}
use sentinellog.Worker.Embed.Reports.{duplicates, embedded_call, tick_reported}
use sentinellog.Anomaly.{Event, Detector, series_key, observe}
use sentinellog.Anomaly.Warmup.{Observed, observe-Observed}
use sentinellog.Anomaly.Feed.{new_feed, n_or_50, recent}
use sentinellog.Anomaly.Feed.Recent.{push_all, of_tenant, recent-push_all}
use sentinellog.Tests.Fixtures.{plain_runtime, whole, tenant_a, tenant_b, failed, foreign}

abbrev store : MemStore
store = record {
  entries = record { id = 1; entry = failed } ∷ record { id = 2; entry = foreign } ∷ [];
  next_id = 2;
  written = 2;
}

abbrev embedder : Embedder
embedder = record { embed = λ s. 1 ∷ []; dim = 1; version = codes "test" }

abbrev worker : EmbedWorker
worker = record { batch = pos 1; last_id = 0; seen = []; dlq = []; calls = [] }

abbrev clock : ℕ → Time
clock i = i

abbrev event : Event
event = record {
  tenant_id = tenant_a;
  service = codes "pay";
  signal = codes "errors";
  value = 9;
  score = 4;
  at = 1;
}

abbrev event_b : Event
event_b = record event { tenant_id = tenant_b }

recent_example :
    (recent (push_all (new_feed (pos 2)) (event ∷ event_b ∷ event ∷ [])) tenant_a (pos 5)
      ≡ take (n_or_50 (pos 5)) (
          filter
            (of_tenant tenant_a)
            (take (new_feed (pos 2)).cap (reverse (event ∷ event_b ∷ event ∷ [])))))
    × (length (push_all (new_feed (pos 2)) (event ∷ event_b ∷ event ∷ [])).events
        ≤ (new_feed (pos 2)).cap)
recent_example = recent-push_all (pos 2) (event ∷ event_b ∷ event ∷ []) tenant_a (pos 5)

abbrev detector : Detector
detector = record { alpha = 1; z_thres = 3; warmup = 1; base = [] }

observe_example :
    Observed detector tenant_a
      (codes "pay")
      (codes "errors")
      9
      5
      (lookup (series_key tenant_a (codes "pay") (codes "errors")) detector.base)
      (observe detector tenant_a (codes "pay") (codes "errors") 9 5).0
      (observe detector tenant_a (codes "pay") (codes "errors") 9 5).1
observe_example = observe-Observed detector tenant_a (codes "pay") (codes "errors") 9 5

-- The third entry has the content of the first.
abbrev repeated : MemStore
repeated = record {
  entries = store.entries ++ record { id = 3; entry = failed } ∷ [];
  next_id = 3;
  written = 3;
}

abbrev fast_worker : EmbedWorker
fast_worker = record worker { batch = pos 10 }

tick_reported_example :
    (tick embedder 3 repeated fast_worker new_mem).0.calls
    ≡ fast_worker.calls
      ++ (replicate
            (duplicates (has_seen fast_worker) (since repeated fast_worker.last_id (pos 10)))
            on_dedup
          ++ embedded_call (length (since repeated fast_worker.last_id (pos 10))))
tick_reported_example = tick_reported embedder 3 repeated fast_worker new_mem
