-- ===== src/Anomaly.antt =====
-- internal/anomaly/anomaly.go: outliers against a moving baseline.
pub mod Feed
pub mod Warmup
use sentinellog.Prelude.{
  ℕ, zero, suc, ◌+◌, ℤ, pos, negsuc, Bool, true, false, ◌&&◌, ◌||◌, Text, codes, List, [], ◌∷◌,
  ◌++◌, Option, none, some, if◌then◌else◌, leb, text_eq, length,
}
use sentinellog.Prelude.Float.{Float}
use sentinellog.Prelude.Map.{lookup, insert}
use sentinellog.Model.{Time}

module _ ⦃fl : Float⦄ where
  open fl use {F, of_nat, ratio, add, sub, mul, div, neg, abs, sqrt, lt, le}

  pub record Baseline : Type 0 where
    pub mean : F
    pub varc : F
    pub count : ℕ
    pub updated : Time

  pub record Event : Type 0 where
    pub tenant_id : Text
    pub service : Text
    pub signal : Text
    pub value : F
    pub score : F
    pub at : Time

  pub record Detector : Type 0 where
    pub alpha : F
    pub z_thres : F
    pub warmup : ℕ
    pub base : List (Text × Baseline)

  warmup_or_20 : ℤ → ℕ
  warmup_or_20 (pos zero) = 20
  warmup_or_20 (pos (suc n)) = suc n
  warmup_or_20 (negsuc n) = 20

  pub new : F → F → ℤ → Detector
  unfolding warmup_or_20
  new alpha z_threshold warmup = record {
    alpha = if le alpha (of_nat 0) || le (of_nat 1) alpha then ratio 2 10 else alpha;
    z_thres = if le z_threshold (of_nat 0) then of_nat 3 else z_threshold;
    warmup = warmup_or_20 warmup;
    base = [];
  }

  abbrev pub series_key : Text → Text → Text → Text
  series_key tenant service signal = tenant ++ 0 ∷ service ++ 0 ∷ signal

  -- 1e-9
  tiny : F
  tiny = ratio 1 1000000000

  -- The z-score against the baseline as it stands before the update.
  pub z_score : Detector → Baseline → F → F
  unfolding tiny
  z_score d b value =
      let std = sqrt b.varc in
      if lt tiny std
      then div (sub value b.mean) std
      else if lt tiny (abs (sub value b.mean))
      then (if lt b.mean value then add d.z_thres (of_nat 1) else neg (add d.z_thres (of_nat 1)))
      else of_nat 0

  -- The EWMA update.
  update : Detector → Baseline → F → Time → Baseline
  update d b value now =
      let diff = sub value b.mean in
      record {
        mean = add b.mean (mul d.alpha diff);
        varc = mul (sub (of_nat 1) d.alpha) (add b.varc (mul (mul d.alpha diff) diff));
        count = b.count + 1;
        updated = now;
      }

  -- `b.count >= d.warmup && math.Abs(z) >= d.zThres`, with the count after the update.
  pub alerts : Detector → ℕ → F → Bool
  alerts d count z = leb d.warmup count && le d.z_thres (abs z)

  abbrev put_base : Detector → Text → Baseline → Detector
  put_base d key b = record d { base = insert key b d.base }

  observe_series :
      Detector → Text → Text → Text → F → Time → Option Baseline → Detector × Option Event
  unfolding z_score update alerts
  observe_series d tenant service signal value now none = (
    put_base d (series_key tenant service signal)
        (record { mean = value; varc = of_nat 0; count = 1; updated = now }),
    none,
  )
  observe_series d tenant service signal value now (some b) =
      let z = z_score d b value in
      let b' = update d b value now in
      (
        put_base d (series_key tenant service signal) b',
        if alerts d b'.count z
            then some (record {
              tenant_id = tenant;
              service = service;
              signal = signal;
              value = value;
              score = z;
              at = now;
            })
            else none,
      )

  -- `none` is the answer `(Event{}, false)`.
  pub observe : Detector → Text → Text → Text → F → Time → Detector × Option Event
  unfolding observe_series
  observe d tenant service signal value now =
      observe_series d tenant service signal value now
        (lookup (series_key tenant service signal) d.base)

  pub baselines : Detector → ℕ
  baselines d = length d.base
