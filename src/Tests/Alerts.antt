-- ===== src/Tests/Alerts.antt =====
-- The anomaly worker.
use mathlib.Core.List.{Memᴰ}
use sentinellog.Prelude.{
  pos, ◌≡◌, ◌⊎◌, refl, Bool, codes, List, [], ◌∷◌, some, All, All-imp, map, arith, Bool-cases, inl,
  inr, ==_refl, text_beq, ◌==◌,
}
use sentinellog.Prelude.Map.{lookup, insert}
use sentinellog.Model.{Time, StoredEntry}
use sentinellog.Store.{MemStore, since}
use sentinellog.Store.Writes.{IsValid}
use sentinellog.Anomaly.{Event, series_key}
use sentinellog.Worker.Anomaly.{
  Key, key_eq, Sampler, tick, count_of, count_entries, count_entry, empty,
}
use sentinellog.Worker.Anomaly.Counts.{CountsTo}
use sentinellog.Worker.Anomaly.Alerts.{RangesOver, IsBacked, tick_alerts}
use sentinellog.Tests.Fixtures.{whole, tenant_a, failed, foreign}

abbrev stored_entries : List StoredEntry
stored_entries =
    record { id = 1; entry = failed }
    ∷ record { id = 2; entry = foreign }
    ∷ record { id = 3; entry = record failed { level = codes "info" } }
    ∷ record { id = 4; entry = record failed { level = codes "fatal" } }
    ∷ []

abbrev store : MemStore
store = record { entries = stored_entries; next_id = 4; written = 4 }

store-IsValid : IsValid store
store-IsValid = record {
  dense = (refl, (refl, (refl, (refl, tt))));
  counted = refl;
  written_all = refl;
  redacted_all = (refl, (refl, (refl, (refl, tt))));
}

abbrev first_keys : List (Key × Bool) → List Key
first_keys m = map (λ p. p.0) m

lookup_later :
    (p : Key × Bool) (m : List (Key × Bool)) (k : Key)
    → (v : Bool) × (lookup k m ≡ some v)
    → (v : Bool) × (lookup k (p ∷ m) ≡ some v)
unfolding lookup
lookup_later p m k (v, h) = elim (Bool-cases (p.0 == k)) [
  | inl same ↦ (p.1, simp same refl)
  | inr other ↦ (v, simp other h)
]

first_keys-RangesOver : RangesOver first_keys
unfolding lookup
first_keys-RangesOver [] = tt
first_keys-RangesOver (p ∷ m) =
    ((p.1, simp (==_refl p.0) refl), All-imp (lookup_later p m) _ (first_keys-RangesOver m))

abbrev clock : Key → Time
clock k = 5

whole-CountsTo : CountsTo 100000
whole-CountsTo = record { step = λ n small. refl }

-- A detector with a baseline of 0 for one service, so that the tick adds an event for it.
abbrev sampler : Sampler
sampler = record {
  det = record {
    alpha = 1;
    z_thres = 0;
    warmup = 0;
    base =
        (
          series_key tenant_a (codes "pay") (codes "error_volume"),
          record { mean = 0; varc = 0; count = 5; updated = 0 },
        )
        ∷ [];
  };
  feed = record { events = []; cap = 10 };
  last_id = 0;
  calls = 0;
}

pay_failures :
    count_of
      (record { tenant = tenant_a; service = codes "pay" })
      (count_entries empty stored_entries)
    ≡ 2
unfolding count_entries count_entry lookup insert text_beq
pay_failures = refl

tick_alerts_example :
    All
      (λ (ev : Event).
        Memᴰ ev sampler.feed.events ⊎ IsBacked (since store sampler.last_id (pos 100000)) ev)
      (tick first_keys clock store sampler).feed.events
tick_alerts_example =
    tick_alerts 100000 whole-CountsTo first_keys first_keys-RangesOver clock store sampler
      store-IsValid (omega arith)
