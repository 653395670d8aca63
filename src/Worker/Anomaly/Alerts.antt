-- ===== src/Worker/Anomaly/Alerts.antt =====
-- The events that a tick of the anomaly worker adds to the feed.
use sentinellog.Prelude.{
  ℕ, ◌≤◌, ◌≡◌, ◌⊎◌, refl, sym, subst, ◌∙◌, inl, inr, pos, Bool, true, List, [], ◌∷◌, codes, Option,
  none, some, length, length-take, false, filter, any, All, All-Memᴰ, All-imp, arith, if◌then◌else◌,
}
use mathlib.Core.List.{Memᴰ}
use sentinellog.Prelude.Float.{Float}
use sentinellog.Prelude.Map.{lookup}
use sentinellog.Model.{Time, StoredEntry}
use sentinellog.Store.{MemStore, since, limit_or}
use sentinellog.Store.Writes.{IsValid}
use sentinellog.Store.Since.{since-eq, newer}
use sentinellog.Anomaly.{Event, Detector}
use sentinellog.Anomaly.Warmup.{observe-Observed}
use sentinellog.Anomaly.Feed.{Feed}
use sentinellog.Anomaly.Feed.Kept.{push-All}
use sentinellog.Worker.Anomaly.{
  Key, key_eq, Window, Sampler, count_of, count_entries, empty, note, observe_keys, tick_entries,
  tick,
}
use sentinellog.Worker.Anomaly.Counts.{of_key, fails, CountsTo, window_exact}

-- The keys that `range` visits are keys of the map.
abbrev pub RangesOver : (List (Key × Bool) → List Key) → Type 0
RangesOver order = (m : List (Key × Bool)) → All (λ k. (v : Bool) × (lookup k m ≡ some v)) (order m)

was_seen : {v : Bool} (b : Bool) → some v ≡ (if b then some true else none) → b ≡ true
was_seen true h = refl
was_seen false h = absurd (ground arith)

window_small :
    (store : MemStore) (after_id : ℕ)
    → IsValid store
    → length (since store after_id (pos 100000)) ≤ 100000
unfolding limit_or
window_small store after_id v =
    let newest = filter (newer after_id) store.entries in
    rw (since-eq store after_id (pos 100000) v) (omega (arith, length-take 100000 newest))

module _ ⦃fl : Float⦄ where
  abbrev pub event_key : Event → Key
  event_key ev = record { tenant = ev.tenant_id; service = ev.service }

  -- The event reports the number of failures that its service has among the entries.
  pub record IsBacked (es : List StoredEntry) (ev : Event) : Type 0 where
    pub signal : ev.signal ≡ codes "error_volume"
    pub seen : any (of_key (event_key ev)) es ≡ true
    pub counted : ev.value ≡ fl.of_nat (length (filter (fails (event_key ev)) es))

  module _ (P : Event → Type 0) (clock : Key → Time) where
    note-All :
        (feed : Feed) (answer : Option Event)
        → All P feed.events
        → ((ev : Event) → answer ≡ some ev → P ev)
        → All P (note feed answer).events
    unfolding note
    note-All feed none old new = old
    note-All feed (some ev) old new = push-All P feed ev old (new ev refl)

    observe_keys-All :
        (w : Window) (ks : List Key) (det : Detector) (feed : Feed) (calls : ℕ)
        → All P feed.events
        → All
            (λ k.
              (ev : Event)
              → ev.tenant_id ≡ k.tenant
              → ev.service ≡ k.service
              → ev.signal ≡ codes "error_volume"
              → ev.value ≡ count_of k w
              → P ev)
            ks
        → All P (observe_keys clock w ks det feed calls).1.events
    unfolding observe_keys
    observe_keys-All w [] det feed calls old new = old
    observe_keys-All w (k ∷ ks) det feed calls old new =
        let seen =
          observe-Observed det k.tenant k.service (codes "error_volume") (count_of k w) (clock k) in
        observe_keys-All w ks _ _ _
          (note-All feed _ old (λ ev h.
            let (tenant, service, signal, value) = seen.labelled ev h in
            new.0 ev tenant service signal value))
          new.1

  module _ (bound : ℕ) (exact : CountsTo bound) (order : List (Key × Bool) → List Key)
      (ranges : RangesOver order) (clock : Key → Time) where
    key-IsBacked :
        (es : List StoredEntry) (k : Key) (ev : Event)
        → length es ≤ bound
        → (v : Bool) × (lookup k (count_entries empty es).seen ≡ some v)
        → ev.tenant_id ≡ k.tenant
        → ev.service ≡ k.service
        → ev.signal ≡ codes "error_volume"
        → ev.value ≡ count_of k (count_entries empty es)
        → IsBacked es ev
    key-IsBacked es k ev small (v, visited) tenant service signal value =
        let same : event_key ev ≡ k = λ i. record { tenant = tenant i; service = service i } in
        let (count, seen) = window_exact bound k es exact small in
        record {
          signal = signal;
          seen = subst (λ j. any (of_key j) es ≡ true) (sym same) (was_seen _ (sym visited ∙ seen));
          counted =
              subst (λ j. ev.value ≡ fl.of_nat (length (filter (fails j) es))) (sym same)
                (value ∙ count);
        }

    tick_entries-IsBacked :
        (P : Event → Type 0) (es : List StoredEntry) (s : Sampler)
        → length es ≤ bound
        → All P s.feed.events
        → ((ev : Event) → IsBacked es ev → P ev)
        → All P (tick_entries order clock es s).feed.events
    unfolding tick_entries
    tick_entries-IsBacked P [] s small old new = old
    tick_entries-IsBacked P (e ∷ es) s small old new =
        observe_keys-All P clock _ _ s.det s.feed s.calls old (
          All-imp
            (λ k visited ev tenant service signal value.
              new ev (key-IsBacked (e ∷ es) k ev small visited tenant service signal value))
            _ (ranges (count_entries empty (e ∷ es)).seen))

    -- After a tick every event of the feed was there before or reports, under the signal
    -- error_volume, exactly the number of entries of level error or fatal that its tenant and service
    -- have among the entries past the checkpoint, at least one of which is theirs. The store is valid,
    -- the floats count exactly up to the limit of the window, and the range visits keys of its map.
    pub tick_alerts :
        (store : MemStore) (s : Sampler)
        → IsValid store
        → 100000 ≤ bound
        → All
            (λ ev. Memᴰ ev s.feed.events ⊎ IsBacked (since store s.last_id (pos 100000)) ev)
            (tick order clock store s).feed.events
    unfolding tick
    tick_alerts store s v large =
        tick_entries-IsBacked _ _ s (omega (arith, window_small store s.last_id v))
          (All-imp (λ ev. inl) s.feed.events (All-Memᴰ s.feed.events)) (λ ev. inr)
