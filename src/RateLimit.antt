-- ===== src/RateLimit.antt =====
-- internal/ratelimit: a token bucket per key, refilled when it is asked.
pub mod Bounds
pub mod Burst
use sentinellog.Prelude.{
  ℕ, ℤ, pos, negsuc, sub_ℕ, suc, ◌+◌, ◌*◌, ◌/◌, ◌%◌, ◌^◌, Bool, true, false, not, Text, List, [],
  ◌∷◌, Option, none, some, ltb, if◌then◌else◌, text_eq,
}
use sentinellog.Prelude.Map.{lookup, insert}
use sentinellog.Prelude.Float.{Float}

abbrev second : ℕ
second = 10 ^ 9

module _ ⦃fl : Float⦄ where
  open fl use {F, of_nat, of_int, add, sub, mul, div, neg, lt, le}

  pub record Bucket : Type 0 where
    pub tokens : F
    pub last_seen : ℕ  -- the monotonic reading, in nanoseconds

  pub record Limiter : Type 0 where
    pub rate : F
    pub burst : F
    pub ttl : ℕ
    pub buckets : List (Text × Bucket)

  unfoldable pub new : F → ℤ → Limiter
  new rate burst = record { rate = rate; burst = of_int burst; ttl = 600 * second; buckets = [] }

  -- time.Duration.Seconds, of nanoseconds.
  unfoldable pub seconds : ℤ → F
  seconds (pos n) = add (of_nat (n / second)) (div (of_nat (n % second)) (of_nat second))
  seconds (negsuc n) =
      let m = n + 1 in
      add (neg (of_nat (m / second))) (div (neg (of_nat (m % second))) (of_nat second))

  cap_at : F → F → F
  cap_at burst t = if lt burst t then burst else t

  -- The refill of a known bucket; another call may have moved `last_seen` past `now`.
  refill : Limiter → Bucket → ℕ → F
  unfolding cap_at
  refill l b now = cap_at l.burst (add b.tokens (mul (seconds (sub_ℕ now b.last_seen)) l.rate))

  -- The rest of `Allow` after the refill: the tokens left and the answer.
  spend : F → F × Bool
  spend t = if le (of_nat 1) t then (sub t (of_nat 1), true) else (t, false)

  abbrev put : Limiter → Text → Bucket → Limiter
  put l key b = record l { buckets = insert key b l.buckets }

  allow_bucket : Limiter → Text → ℕ → Option Bucket → Limiter × Bool
  unfolding refill spend
  allow_bucket l key now none =
      (put l key (record { tokens = sub l.burst (of_nat 1); last_seen = now }), true)
  allow_bucket l key now (some b) =
      let (t, answer) = spend (refill l b now) in
      (put l key (record { tokens = t; last_seen = now }), answer)

  unfoldable pub allow : Limiter → Text → ℕ → Limiter × Bool
  unfolding allow_bucket
  allow l key now = allow_bucket l key now (lookup key l.buckets)

  keep_fresh : ℕ → ℕ → List (Text × Bucket) → List (Text × Bucket)
  keep_fresh ttl now [] = []
  keep_fresh ttl now ((k, b) ∷ rest) =
      let kept = keep_fresh ttl now rest in
      if ltb (b.last_seen + ttl) now then kept else (k, b) ∷ kept

  unfoldable pub sweep : Limiter → ℕ → Limiter
  unfolding keep_fresh
  sweep l now = record l { buckets = keep_fresh l.ttl now l.buckets }
