-- ===== src/Config/Numbers.antt =====
-- Numbers in the environment.
use sentinellog.Prelude.{
  ℕ, suc, ◌+◌, ◌^◌, ◌<◌, ◌≡◌, true, refl, ap, ◌∙◌, false, ℤ, pos, negsuc, Text, ◌∷◌, some, ltb,
  ◌==◌, nat_eq, arith, text_eq,
}
use sentinellog.Prelude.Map.{lookup}
use sentinellog.Model.Decimal.{format_uint, format_int, parse_uint}
use sentinellog.Model.Decimal.RoundTrip.{parse_uint-format_uint, parse_uint-starts}
use sentinellog.Config.{Environment, positive, negative, minus, atoi, or_default, env_int}

-- The range of a 64-bit int.
abbrev pub InRange : ℤ → Type 0
InRange (pos n) = n < 2 ^ 63
InRange (negsuc n) = n < 2 ^ 63

atoi-digits : (s : Text) {n : ℕ} → parse_uint s ≡ some n → n < 2 ^ 63 → atoi s ≡ some (pos n)
unfolding atoi positive
atoi-digits s {n} h small =
    let (c, t, e, low) = parse_uint-starts s h in
    let no_minus : (c == b'-') ≡ false = ground arith in
    let no_plus : (c == b'+') ≡ false = ground arith in
    let fits : ltb n (2 ^ 63) ≡ true = ground arith in
    let read : parse_uint (c ∷ t) ≡ some n = rw e at h in
    rw e (simp (no_minus, no_plus, read, fits) refl)

atoi-format_int : (z : ℤ) → InRange z → atoi (format_int z) ≡ some z
unfolding format_int atoi negative minus
atoi-format_int (pos n) h = atoi-digits (format_uint n) (parse_uint-format_uint n (omega arith)) h
atoi-format_int (negsuc n) h =
    let e : n + 1 ≡ suc n = omega arith in
    let read = parse_uint-format_uint (n + 1) (omega arith) in
    let fits : ltb (2 ^ 63) (n + 1) ≡ false = ground arith in
    simp (read, fits) (ap (λ k. some (minus k)) e)

or_default-parsed :
    (default z : ℤ) (v : Text) → atoi v ≡ some z → or_default atoi default (some v) ≡ z
unfolding or_default
or_default-parsed default z v h = rw (h, or_default) refl

-- A variable that is set to the decimal of any 64-bit int, negative ones too, is read as that int.
pub env_int-format_int :
    (e : Environment) (k : Text) (default z : ℤ)
    → lookup k e ≡ some (format_int z)
    → InRange z
    → env_int e k default ≡ z
unfolding env_int
env_int-format_int e k default z set h =
    ap (or_default atoi default) set
    ∙ or_default-parsed default z (format_int z) (atoi-format_int z h)
