-- ===== src/RateLimit/Bounds.antt =====
-- No bucket ever holds more than the burst, and keys do not meet.
use sentinellog.Prelude.{
  ℕ, ◌≡◌, ◌≢◌, refl, sym, ap, subst, ◌∙◌, inl, inr, false, Text, List, Option, none, some, arith,
  ◌==◌, text_eq, text_beq_iff, if◌then◌else◌, Bool-cases,
}
use sentinellog.Prelude.Map.{lookup, lookup-insert}
use sentinellog.Prelude.Float.{Float}
use sentinellog.RateLimit.{Bucket, Limiter, cap_at, refill, spend, put, allow_bucket, allow}

-- Two laws of IEEE 754, which hold of NaN and the infinities too.
pub record IsOrdered (fl : Float) : Type 0 where
  pub lt_irrefl : (x : fl.F) → fl.lt x x ≡ false
  pub lt-sub_one : (b t : fl.F) → fl.lt b t ≡ false → fl.lt b (fl.sub t (fl.of_nat 1)) ≡ false

some_inj {ℓ} : {A : Type ℓ} {x y : A} → some x ≡ some y → x ≡ y
some_inj e = ground arith

if_other {ℓ} : {A : Type ℓ} (x y : A) (key k : Text) → key ≢ k → (if key == k then x else y) ≡ y
if_other x y key k h = ground (arith, text_beq_iff key k)

module _ ⦃fl : Float⦄ (ordered : IsOrdered fl) where
  -- No bucket of the limiter is above the ceiling.
  abbrev pub IsCapped : Limiter → Type 0
  IsCapped l =
      (k : Text) (b : Bucket) → lookup k l.buckets ≡ some b → fl.lt l.burst b.tokens ≡ false

  cap_at-capped : (burst t : fl.F) → fl.lt burst (cap_at burst t) ≡ false
  unfolding cap_at
  cap_at-capped burst t = elim (Bool-cases (fl.lt burst t)) [
    | inl over ↦ simp over (ordered.lt_irrefl burst)
    | inr under ↦ simp under
  ]

  spend-capped : (burst t : fl.F) → fl.lt burst t ≡ false → fl.lt burst (spend t).0 ≡ false
  unfolding spend
  spend-capped burst t h = elim (Bool-cases (fl.le (fl.of_nat 1) t)) [
    | inl enough ↦ simp enough (ordered.lt-sub_one burst t h)
    | inr short ↦ simp short h
  ]

  put-IsCapped :
      (l : Limiter) (key : Text) (b : Bucket)
      → IsCapped l
      → fl.lt l.burst b.tokens ≡ false
      → IsCapped (put l key b)
  put-IsCapped l key b c h k d found = elim (Bool-cases (key == k)) [
    | inl same ↦
        let at : some b ≡ some d =
          ap (λ t. if t then some b else lookup k l.buckets) (sym same)
          ∙ sym (lookup-insert key k b l.buckets)
          ∙ found in
        subst (λ (x : Bucket). fl.lt l.burst x.tokens ≡ false) (some_inj at) h
    | inr other ↦ c k d (
        ap (λ t. if t then some b else lookup k l.buckets) (sym other)
        ∙ sym (lookup-insert key k b l.buckets)
        ∙ found)
  ]

  allow_bucket-IsCapped :
      (l : Limiter) (key : Text) (now : ℕ) (found : Option Bucket)
      → IsCapped l
      → IsCapped (allow_bucket l key now found).0
  unfolding allow_bucket
  allow_bucket-IsCapped l key now none c =
      put-IsCapped l key _ c (ordered.lt-sub_one l.burst l.burst (ordered.lt_irrefl l.burst))
  allow_bucket-IsCapped l key now (some b) c =
      put-IsCapped l key _ c (spend-capped l.burst (refill l b now) (cap_at-capped l.burst _))

  -- However the calls come, also when the clock readings come out of order, no bucket holds more
  -- tokens than the burst.
  pub allow-IsCapped :
      (l : Limiter) (key : Text) (now : ℕ) → IsCapped l → IsCapped (allow l key now).0
  unfolding allow
  allow-IsCapped l key now c = allow_bucket-IsCapped l key now (lookup key l.buckets) c

module _ ⦃fl : Float⦄ where
  allow_bucket-other :
      (l : Limiter) (key k : Text) (now : ℕ) (found : Option Bucket)
      → key ≢ k
      → lookup k (allow_bucket l key now found).0.buckets ≡ lookup k l.buckets
  unfolding allow_bucket
  allow_bucket-other l key k now none h = lookup-insert key k _ l.buckets ∙ if_other _ _ key k h
  allow_bucket-other l key k now (some b) h = lookup-insert key k _ l.buckets ∙ if_other _ _ key k h

  allow_bucket-answer :
      (l : Limiter) (buckets : List (Text × Bucket)) (k : Text) (now : ℕ) (found : Option Bucket)
      → (allow_bucket (record l { buckets = buckets }) k now found).1
        ≡ (allow_bucket l k now found).1
  unfolding allow_bucket
  allow_bucket-answer l buckets k now none = refl
  allow_bucket-answer l buckets k now (some b) = refl

  allow_bucket-frame :
      (l : Limiter) (key : Text) (now : ℕ) (found : Option Bucket)
      → (allow_bucket l key now found).0
        ≡ record l { buckets = (allow_bucket l key now found).0.buckets }
  unfolding allow_bucket
  allow_bucket-frame l key now none = refl
  allow_bucket-frame l key now (some b) = refl

  -- A call for one key leaves the bucket of every other key alone, so the answer to the other key
  -- is what it would have been.
  pub allow_independent :
      (l : Limiter) (key k : Text) (now later : ℕ)
      → key ≢ k
      → (allow (allow l key now).0 k later).1 ≡ (allow l k later).1
  unfolding allow
  allow_independent l key k now later h =
      let after : Limiter = (allow_bucket l key now (lookup key l.buckets)).0 in
      ap (λ found. (allow_bucket after k later found).1)
        (allow_bucket-other l key k now (lookup key l.buckets) h)
      ∙ ap (λ (m : Limiter). (allow_bucket m k later (lookup k l.buckets)).1)
          (allow_bucket-frame l key now (lookup key l.buckets))
      ∙ allow_bucket-answer l after.buckets k later (lookup k l.buckets)
