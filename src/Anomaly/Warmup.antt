-- ===== src/Anomaly/Warmup.antt =====
-- When the detector may alert.
use sentinellog.Prelude.{
  ℕ, ◌+◌, ◌≤◌, ◌≡◌, ◌≢◌, refl, sym, ap, subst, ◌∙◌, true, Text, Option, none, some, if◌then◌else◌,
  ◌==◌, text_eq, text_beq_iff, text_beq-false, arith,
}
use sentinellog.Prelude.Float.{Float}
use sentinellog.Prelude.Map.{lookup, lookup-insert}
use sentinellog.Model.{Time}
use sentinellog.Anomaly.{
  Baseline, Event, Detector, series_key, z_score, alerts, update, put_base, observe_series, observe,
}

module _ ⦃fl : Float⦄ where
  -- The number of values that a series has had.
  pub count_of : Option Baseline → ℕ
  count_of none = 0
  count_of (some b) = b.count

  pub series_count : Detector → Text → ℕ
  unfolding count_of
  series_count d key = count_of (lookup key d.base)

  module _ (d : Detector) (tenant service signal : Text) (value : fl.F) (now : Time) where
    abbrev pub key : Text
    key = series_key tenant service signal

    -- What an observation may do, `before` being the baseline of its series.
    pub record Observed (before : Option Baseline) (after : Detector) (answer : Option Event)
        : Type 0 where
      pub counted : series_count after key ≡ count_of before + 1
      pub apart : (k : Text) → key ≢ k → lookup k after.base ≡ lookup k d.base
      pub warm :
          (e : Event)
          → answer ≡ some e
          → ((b : Baseline) × (before ≡ some b))
            × (d.warmup ≤ count_of before + 1)
            × (fl.le d.z_thres (fl.abs e.score) ≡ true)
      pub labelled :
          (e : Event)
          → answer ≡ some e
          → (e.tenant_id ≡ tenant) × (e.service ≡ service) × (e.signal ≡ signal) × (e.value ≡ value)

    put-counted : (b : Baseline) → series_count (put_base d key b) key ≡ b.count
    unfolding series_count count_of
    put-counted b =
        let same : (key == key) ≡ true = (text_beq_iff key key).1 refl in
        ap count_of
          (lookup-insert key key b d.base ∙ ap (λ t. if t then some b else lookup key d.base) same)

    put-apart :
        (b : Baseline) (k : Text) → key ≢ k → lookup k (put_base d key b).base ≡ lookup k d.base
    put-apart b k other =
        lookup-insert key k b d.base
        ∙ ap (λ t. if t then some b else lookup k d.base) (text_beq-false key k other)

    alerted :
        (count : ℕ) (z : fl.F) (x e : Event)
        → (if alerts d count z then some x else none) ≡ some e
        → (x ≡ e) × (d.warmup ≤ count) × (fl.le d.z_thres (fl.abs z) ≡ true)
    unfolding alerts
    alerted count z x e h = (ground (arith, h), ground (arith, h), ground (arith, h))

    observe_series-Observed :
        (found : Option Baseline)
        → Observed found
            (observe_series d tenant service signal value now found).0
            (observe_series d tenant service signal value now found).1
    unfolding observe_series count_of update
    observe_series-Observed none = record {
      counted = put-counted (record { mean = value; varc = fl.of_nat 0; count = 1; updated = now });
      apart = put-apart (record { mean = value; varc = fl.of_nat 0; count = 1; updated = now });
      warm = λ e h. absurd (ground (arith, h));
      labelled = λ e h. absurd (ground (arith, h));
    }
    observe_series-Observed (some b) = record {
      counted = put-counted (update d b value now);
      apart = put-apart (update d b value now);
      warm = λ e h.
          let (same, enough, far) = alerted (b.count + 1) (z_score d b value) _ e h in
          (
            (b, refl),
            enough,
            subst (λ (x : Event). fl.le d.z_thres (fl.abs x.score) ≡ true) same far,
          );
      labelled = λ e h.
          let (same, _, _) = alerted (b.count + 1) (z_score d b value) _ e h in
          (
            sym (ap (λ (x : Event). x.tenant_id) same),
            sym (ap (λ (x : Event). x.service) same),
            sym (ap (λ (x : Event). x.signal) same),
            sym (ap (λ (x : Event). x.value) same),
          );
    }

    -- An observation counts for its own series and changes no other; an alert comes only for a series
    -- that has a baseline, after as many values as the warm-up asks for, with a score that reaches the
    -- threshold, and it carries the labels and the value of the observation.
    pub observe-Observed :
        Observed
          (lookup key d.base)
          (observe d tenant service signal value now).0
          (observe d tenant service signal value now).1
    unfolding observe
    observe-Observed = observe_series-Observed (lookup key d.base)
