-- ===== src/RateLimit/Burst.antt =====
-- How many requests of one key pass at one instant.
use sentinellog.Prelude.{
  ℕ, zero, suc, pos, ◌-◌, ◌^◌, ◌<◌, ◌≤◌, ◌≡◌, sym, ap, ◌∙◌, Bool, true, false, Text, List, [], ◌∷◌,
  ◌++◌, none, some, arith, ltb, leb, sub_ℕ, ==_refl, text_eq, replicate,
}
use Prim.Native.Nat.{min}
use sentinellog.Prelude.Map.{lookup, lookup-insert}
use sentinellog.Prelude.Float.{Float}
use sentinellog.RateLimit.{
  Bucket, Limiter, seconds, cap_at, refill, spend, put, allow_bucket, allow,
}

-- Integers below 2^53 are exact, and a finite rate adds nothing in no time.
pub record IsExact ⦃fl : Float⦄ (rate : fl.F) : Type 0 where
  pub sub_one : (n : ℕ) → n < 2 ^ 53 → fl.sub (fl.of_nat (suc n)) (fl.of_nat 1) ≡ fl.of_nat n
  pub le_one : (n : ℕ) → n < 2 ^ 53 → fl.le (fl.of_nat 1) (fl.of_nat n) ≡ leb 1 n
  pub lt_nat : (m n : ℕ) → m < 2 ^ 53 → n < 2 ^ 53 → fl.lt (fl.of_nat m) (fl.of_nat n) ≡ ltb m n
  pub idle :
      (n : ℕ) → n < 2 ^ 53 → fl.add (fl.of_nat n) (fl.mul (seconds (pos 0)) rate) ≡ fl.of_nat n

-- What is left of the answers when the bucket holds `t` tokens.
abbrev pub answers : ℕ → ℕ → List Bool
answers t n = replicate (min n t) true ++ replicate (n - t) false

answers_none : (t : ℕ) → answers t 0 ≡ []
answers_none t = let a : min 0 t ≡ 0 = omega arith in let b : 0 - t ≡ 0 = omega arith in rw (a, b)

answers_empty : (n : ℕ) → answers 0 (suc n) ≡ false ∷ answers 0 n
answers_empty n =
    let a : min (suc n) 0 ≡ 0 = omega arith in
    let b : suc n - 0 ≡ suc (n - 0) = omega arith in
    let c : min n 0 ≡ 0 = omega arith in rw (a, b, c)

answers_more : (t n : ℕ) → answers (suc t) (suc n) ≡ true ∷ answers t n
answers_more t n =
    let a : min (suc n) (suc t) ≡ suc (min n t) = omega arith in
    let b : suc n - suc t ≡ n - t = omega arith in rw (a, b)

module _ ⦃fl : Float⦄ where
  -- The answers to `n` calls with one clock reading.
  unfoldable pub allow_times : Limiter → Text → ℕ → ℕ → List Bool
  allow_times l key now zero = []
  allow_times l key now (suc n) =
      let (l', answer) = allow l key now in answer ∷ allow_times l' key now n

  cap_at_below : (burst t : fl.F) → fl.lt burst t ≡ false → cap_at burst t ≡ t
  unfolding cap_at
  cap_at_below burst t h = simp h

  spend-suc :
      {rate : fl.F} (t : ℕ)
      → IsExact rate
      → suc t < 2 ^ 53
      → spend (fl.of_nat (suc t)) ≡ (fl.of_nat t, true)
  unfolding spend
  spend-suc t exact small =
      let enough : fl.le (fl.of_nat 1) (fl.of_nat (suc t)) ≡ true =
        exact.le_one (suc t) small ∙ ground arith in
      simp (enough, exact.sub_one t (omega arith))

  spend_zero : {rate : fl.F} → IsExact rate → spend (fl.of_nat 0) ≡ (fl.of_nat 0, false)
  unfolding spend
  spend_zero exact =
      let short : fl.le (fl.of_nat 1) (fl.of_nat 0) ≡ false = exact.le_one 0 (omega arith) in
      simp short

  module _ (key : Text) (now burst : ℕ) (small : burst < 2 ^ 53) where
    abbrev holding : ℕ → Bucket
    holding t = record { tokens = fl.of_nat t; last_seen = now }

    -- A limiter with this burst and exact arithmetic.
    pub record IsSetUp (l : Limiter) : Type 0 where
      pub exact : IsExact l.rate
      pub ceiling : l.burst ≡ fl.of_nat burst

    refill_idle :
        (l : Limiter) (t : ℕ) → IsSetUp l → t ≤ burst → refill l (holding t) now ≡ fl.of_nat t
    unfolding refill
    refill_idle l t s h =
        let elapsed : sub_ℕ now now ≡ pos 0 = ground arith in
        let under : fl.lt l.burst (fl.of_nat t) ≡ false =
          ap (λ b. fl.lt b (fl.of_nat t)) s.ceiling
          ∙ s.exact.lt_nat burst t small (omega arith)
          ∙ ground arith in
        ap (λ z. cap_at l.burst (fl.add (fl.of_nat t) (fl.mul (seconds z) l.rate))) elapsed
        ∙ ap (cap_at l.burst) (s.exact.idle t (omega arith))
        ∙ cap_at_below l.burst (fl.of_nat t) under

    allow-holding :
        (l : Limiter) (t u : ℕ) (answer : Bool)
        → IsSetUp l
        → t ≤ burst
        → lookup key l.buckets ≡ some (holding t)
        → spend (fl.of_nat t) ≡ (fl.of_nat u, answer)
        → allow l key now ≡ (put l key (holding u), answer)
    unfolding allow allow_bucket
    allow-holding l t u answer s h found spent =
        ap (allow_bucket l key now) found
        ∙ ap (λ (r : fl.F × Bool). (put l key (record { tokens = r.0; last_seen = now }), r.1))
            (ap spend (refill_idle l t s h) ∙ spent)

    lookup-put : (l : Limiter) (b : Bucket) → lookup key (put l key b).buckets ≡ some b
    lookup-put l b = lookup-insert key key b l.buckets ∙ simp (==_refl key)

    kept : (l : Limiter) (t : ℕ) → IsSetUp l → IsSetUp (put l key (holding t))
    kept l t s = record { exact = s.exact; ceiling = s.ceiling }

    allow_times-holding :
        (n : ℕ) (l : Limiter) (t : ℕ)
        → IsSetUp l
        → t ≤ burst
        → lookup key l.buckets ≡ some (holding t)
        → allow_times l key now n ≡ answers t n
    unfolding allow_times
    allow_times-holding zero l t s h found = sym (answers_none t)
    allow_times-holding (suc n) l zero s h found =
        ap (λ (r : Limiter × Bool). r.1 ∷ allow_times r.0 key now n)
          (allow-holding l 0 0 false s h found (spend_zero s.exact))
        ∙ ap (◌∷◌ false) (
            allow_times-holding n (put l key (holding 0)) 0 (kept l 0 s) (omega arith)
              (lookup-put l (holding 0)))
        ∙ sym (answers_empty n)
    allow_times-holding (suc n) l (suc t) s h found =
        ap (λ (r : Limiter × Bool). r.1 ∷ allow_times r.0 key now n)
          (allow-holding l (suc t) t true s h found (spend-suc t s.exact (omega arith)))
        ∙ ap (◌∷◌ true) (
            allow_times-holding n (put l key (holding t)) t (kept l t s) (omega arith)
              (lookup-put l (holding t)))
        ∙ sym (answers_more t n)

    -- A key that the limiter does not know gets exactly its burst of requests through at one
    -- instant, however many come, and no more.
    pub burst_exact :
        (l : Limiter) (n : ℕ)
        → IsSetUp l
        → 0 < burst
        → lookup key l.buckets ≡ none
        → allow_times l key now n ≡ answers burst n
    unfolding allow_times allow allow_bucket
    burst_exact l zero s h unknown = sym (answers_none burst)
    burst_exact l (suc n) s h unknown =
        let b : ℕ = burst - 1 in
        let whole : burst ≡ suc b = omega arith in
        let left : fl.sub l.burst (fl.of_nat 1) ≡ fl.of_nat b =
          ap (λ x. fl.sub x (fl.of_nat 1)) (s.ceiling ∙ ap fl.of_nat whole)
          ∙ s.exact.sub_one b (omega arith) in
        let first : allow l key now ≡ (put l key (holding b), true) =
          ap (allow_bucket l key now) unknown
          ∙ ap (λ x. (put l key (record { tokens = x; last_seen = now }), true)) left in
        ap (λ (r : Limiter × Bool). r.1 ∷ allow_times r.0 key now n) first
        ∙ ap (◌∷◌ true) (
            allow_times-holding n (put l key (holding b)) b (kept l b s) (omega arith)
              (lookup-put l (holding b)))
        ∙ sym (answers_more b n)
        ∙ ap (λ t. answers t (suc n)) (sym whole)
