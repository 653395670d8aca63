-- ===== src/Config.antt =====
-- internal/config/config.go: the configuration from the environment.
pub mod Numbers
use sentinellog.Prelude.{
  ℕ, zero, suc, ◌*◌, ◌^◌, ℤ, pos, negsuc, Text, codes, List, [], ◌∷◌, Option, none, some,
  if◌then◌else◌, ltb, ◌==◌, nat_eq, text_eq,
}
use sentinellog.Prelude.Float.{Float}
use sentinellog.Prelude.Map.{lookup}
use sentinellog.Model.Decimal.{parse_uint}

-- What `os.LookupEnv` reads.
abbrev pub Environment : Type 0
Environment = List (Text × Text)

positive : Option ℕ → Option ℤ
positive none = none
positive (some n) = if ltb n (2 ^ 63) then some (pos n) else none

minus : ℕ → ℤ
minus zero = pos 0
minus (suc n) = negsuc n

negative : Option ℕ → Option ℤ
unfolding minus
negative none = none
negative (some n) = if ltb (2 ^ 63) n then none else some (minus n)

-- strconv.Atoi, of a 64-bit int.
pub atoi : Text → Option ℤ
unfolding positive negative
atoi [] = none
atoi (c ∷ s) =
    if c == b'-'
    then negative (parse_uint s)
    else if c == b'+'
    then positive (parse_uint s)
    else positive (parse_uint (c ∷ s))

-- The value of a variable that is set and parses, and the default for any other.
or_default {ℓ} : {A : Type ℓ} → (Text → Option A) → A → Option Text → A
or_default parse default none = default
or_default parse default (some v) = elim (parse v) [ none ↦ default | some a ↦ a ]

unfoldable pub env : Environment → Text → Text → Text
unfolding or_default
env e k default = or_default (λ v. some v) default (lookup k e)

unfoldable pub env_int : Environment → Text → ℤ → ℤ
unfolding or_default
env_int e k default = or_default atoi default (lookup k e)

-- time.ParseDuration, in nanoseconds.
module _ (parse_duration : Text → Option ℤ) where
  unfoldable pub env_dur : Environment → Text → ℤ → ℤ
  unfolding or_default
  env_dur e k default = or_default parse_duration default (lookup k e)

module _ ⦃fl : Float⦄ where
  pub record Config : Type 0 where
    pub listen_addr : Text
    pub buffer_size : ℤ
    pub batch_size : ℤ
    pub batch_interval : ℤ
    pub rate_per_tenant : fl.F
    pub burst_per_tenant : ℤ
    pub max_body_bytes : ℤ
    pub shutdown_timeout : ℤ

  -- strconv.ParseFloat and time.ParseDuration are the parameters.
  module _ (parse_float : Text → Option fl.F) (parse_duration : Text → Option ℤ) where
    unfoldable pub env_float : Environment → Text → fl.F → fl.F
    unfolding or_default
    env_float e k default = or_default parse_float default (lookup k e)

    unfoldable pub load : Environment → Config
    unfolding env env_int env_dur env_float
    load e = record {
      listen_addr = env e (codes "SL_LISTEN_ADDR") (codes ":8080");
      buffer_size = env_int e (codes "SL_BUFFER_SIZE") (pos 10000);
      batch_size = env_int e (codes "SL_BATCH_SIZE") (pos 500);
      batch_interval = env_dur parse_duration e (codes "SL_BATCH_INTERVAL") (pos (10 ^ 9));
      rate_per_tenant = env_float e (codes "SL_RATE") (fl.of_nat 1000);
      burst_per_tenant = env_int e (codes "SL_BURST") (pos 2000);
      max_body_bytes = env_int e (codes "SL_MAX_BODY") (pos (2 ^ 20));
      shutdown_timeout = env_dur parse_duration e (codes "SL_SHUTDOWN_TIMEOUT") (pos (15 * 10 ^ 9));
    }
