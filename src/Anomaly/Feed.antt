-- ===== src/Anomaly/Feed.antt =====
-- internal/anomaly/feed.go: the bounded feed of recent events.
pub mod Eviction
pub mod Kept
pub mod Recent
use sentinellog.Prelude.{
  ℕ, zero, suc, ◌+◌, ◌-◌, ℤ, pos, negsuc, Bool, true, false, Text, List, [], ◌∷◌, ◌++◌, Option,
  none, some, if◌then◌else◌, ◌==◌, text_eq, ltb, length, drop, get_elem?,
}
use sentinellog.Prelude.Float.{Float}
use sentinellog.Anomaly.{Event}

module _ ⦃fl : Float⦄ where
  pub record Feed : Type 0 where
    pub events : List Event
    pub cap : ℕ

  unfoldable pub new_feed : ℤ → Feed
  new_feed (pos zero) = record { events = []; cap = 1000 }
  new_feed (pos (suc n)) = record { events = []; cap = suc n }
  new_feed (negsuc n) = record { events = []; cap = 1000 }

  -- `if len(f.events) > f.cap { f.events = f.events[len(f.events)-f.cap:] }`
  trim : ℕ → List Event → List Event
  trim cap events = if ltb cap (length events) then drop (length events - cap) events else events

  pub push : Feed → Event → Feed
  unfolding trim
  push f e = record f { events = trim f.cap (f.events ++ e ∷ []) }

  -- `if n <= 0 { n = 50 }`
  pub n_or_50 : ℤ → ℕ
  n_or_50 (pos zero) = 50
  n_or_50 (pos (suc n)) = suc n
  n_or_50 (negsuc n) = 50

  -- The loop of `Recent` with `i + 1` for the index.
  recent_loop : List Event → Text → ℕ → ℕ → List Event → List Event
  recent_loop events tenant n zero out = out
  recent_loop events tenant n (suc i) out =
      if ltb (length out) n
      then recent_loop events tenant n i (elim (get_elem? events i) [
        | none ↦ out
        | some e ↦ if e.tenant_id == tenant then out ++ e ∷ [] else out
      ])
      else out

  pub recent : Feed → Text → ℤ → List Event
  unfolding recent_loop n_or_50
  recent f tenant n = recent_loop f.events tenant (n_or_50 n) (length f.events) []

  pub len : Feed → ℕ
  len f = length f.events
