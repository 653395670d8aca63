-- ===== src/Redaction/Entropy/Secrets.antt =====
-- What the entropy layer removes.
use mathlib.Core.List.{Memᴰ}
use sentinellog.Prelude.{
  ℕ, suc, ◌≤◌, ◌<◌, ◌≡◌, refl, ap, subst, ◌∙◌, inl, inr, true, false, Text, List, [], ◌∷◌,
  if◌then◌else◌, length, arith, Bool-cases,
}
use sentinellog.Prelude.Strings.{contains}
use sentinellog.Prelude.Float.{Float}
use sentinellog.Redaction.Replace.{
  fields, replace_all, placeholder, has_bracket, contains-replace_all,
}
use sentinellog.Redaction.Entropy.{
  looks_like_token, separator, is_secret, token_loop, redact_high_entropy_tokens,
}

looks_like_token-bracketless : (f : Text) → looks_like_token f ≡ true → has_bracket f ≡ false
unfolding looks_like_token
looks_like_token-bracketless [] h = refl
looks_like_token-bracketless (c ∷ f) h = ground (arith, looks_like_token-bracketless f)

module _ ⦃fl : Float⦄ (min_len : ℕ) (threshold : fl.F) (enough : 10 ≤ min_len) where
  is_secret_parts :
      (f : Text) → is_secret min_len threshold f ≡ true → (has_bracket f ≡ false) × (9 < length f)
  unfolding is_secret
  is_secret_parts f h = (looks_like_token-bracketless f (ground arith), ground arith)

  token_loop_step :
      (f : Text) (fs : List Text) (s : Text) (count : ℕ)
      → is_secret min_len threshold f ≡ true
      → token_loop min_len threshold (f ∷ fs) s count
        ≡ token_loop min_len threshold fs (replace_all s f placeholder) (suc count)
  unfolding token_loop
  token_loop_step f fs s count h = simp h

  -- A secret that is gone stays gone.
  token_loop-absent :
      (f : Text)
      → is_secret min_len threshold f ≡ true
      → (fs : List Text) (s : Text) (count : ℕ) → contains s f ≡ false
      → contains (token_loop min_len threshold fs s count).0 f ≡ false
  unfolding token_loop
  token_loop-absent f secret [] s count h = h
  token_loop-absent f secret (g ∷ fs) s count h =
      elim (Bool-cases (is_secret min_len threshold g)) [
        | inr other ↦ simp other (token_loop-absent f secret fs s count h)
        | inl replaced ↦
            let (bare, long) = is_secret_parts f secret in
            simp replaced (
              token_loop-absent f secret fs (replace_all s g placeholder) (suc count)
                ((contains-replace_all f bare long g s).1 h))
      ]

  token_loop-removes :
      (f : Text)
      → is_secret min_len threshold f ≡ true
      → (fs : List Text) (s : Text) (count : ℕ) → Memᴰ f fs
      → contains (token_loop min_len threshold fs s count).0 f ≡ false
  unfolding token_loop
  token_loop-removes f secret [] s count m = elim m [ ]
  token_loop-removes f secret (g ∷ fs) s count (Memᴰ.head e) =
      let (bare, long) = is_secret_parts f secret in
      let gone : contains (replace_all s g placeholder) f ≡ false =
        subst (λ k. contains (replace_all s k placeholder) f ≡ false) e
          (contains-replace_all f bare long f s).0 in
      let step =
        token_loop_step g fs s count (subst (λ k. is_secret min_len threshold k ≡ true) e secret) in
      ap (λ (r : Text × ℕ). contains r.0 f) step
      ∙ token_loop-absent f secret fs (replace_all s g placeholder) (suc count) gone
  token_loop-removes f secret (g ∷ fs) s count (Memᴰ.tail m) =
      token_loop-removes f secret fs
        (if is_secret min_len threshold g then replace_all s g placeholder else s)
        (if is_secret min_len threshold g then suc count else count) m

  -- No field of the text that is long enough, looks like a token and has the entropy stands in the
  -- output, not even inside another field.
  pub secret_removed :
      (s f : Text) (count : ℕ)
      → Memᴰ f (fields separator s)
      → is_secret min_len threshold f ≡ true
      → contains (redact_high_entropy_tokens s min_len threshold count).0 f ≡ false
  unfolding redact_high_entropy_tokens
  secret_removed s f count m secret = token_loop-removes f secret (fields separator s) s count m

module _ ⦃fl : Float⦄ (min_len : ℕ) (threshold : fl.F) where
  token_loop_count :
      (fs : List Text) (s : Text) (count : ℕ) → count ≤ (token_loop min_len threshold fs s count).1
  unfolding token_loop
  token_loop_count [] s count = omega arith
  token_loop_count (f ∷ fs) s count = elim (Bool-cases (is_secret min_len threshold f)) [
    | inl hit ↦
        simp hit (omega (arith, token_loop_count fs (replace_all s f placeholder) (suc count)))
    | inr miss ↦ simp miss (token_loop_count fs s count)
  ]

  token_loop_none :
      (fs : List Text) (s : Text) (count : ℕ)
      → (token_loop min_len threshold fs s count).1 ≡ count
      → (token_loop min_len threshold fs s count).0 ≡ s
  unfolding token_loop
  token_loop_none [] s count h = refl
  token_loop_none (f ∷ fs) s count h = elim (Bool-cases (is_secret min_len threshold f)) [
    | inl hit ↦ absurd (
        omega (arith, token_loop_count fs (replace_all s f placeholder) (suc count), simp hit at h))
    | inr miss ↦ simp miss (token_loop_none fs s count (simp miss at h))
  ]

  pub entropy_count :
      (s : Text) (count : ℕ) → count ≤ (redact_high_entropy_tokens s min_len threshold count).1
  unfolding redact_high_entropy_tokens
  entropy_count s count = token_loop_count (fields separator s) s count

  pub entropy_none :
      (s : Text) (count : ℕ)
      → (redact_high_entropy_tokens s min_len threshold count).1 ≡ count
      → (redact_high_entropy_tokens s min_len threshold count).0 ≡ s
  unfolding redact_high_entropy_tokens
  entropy_none s count h = token_loop_none (fields separator s) s count h
