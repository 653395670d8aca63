-- ===== src/Redaction/Entropy.antt =====
-- The entropy layer.
pub mod Secrets
use sentinellog.Prelude.{
  ℕ, zero, suc, ◌+◌, ◌≤◌, ◌<◌, ◌≡◌, refl, ap, ◌∙◌, inl, inr, Bool, true, false, not, ◌&&◌, ◌||◌,
  Text, List, [], ◌∷◌, ◌++◌, ltb, leb, ◌==◌, nat_eq, text_eq, if◌then◌else◌, length, arith, All,
  Bool-cases,
}
use sentinellog.Prelude.Strings.{contains}
use sentinellog.Prelude.Float.{Float}
use sentinellog.Redaction.Replace.{
  fields, replace_all, placeholder, has_bracket, contains-replace_all,
}

-- The test of the `switch`; a character past ASCII has no byte that passes it.
token_byte : ℕ → Bool
token_byte c =
    leb b'a' c && leb c b'z'
    || leb b'A' c && leb c b'Z'
    || leb b'0' c && leb c b'9'
    || c == b'+'
    || c == b'/'
    || c == b'='
    || c == b'-'
    || c == b'_'

unfoldable pub looks_like_token : Text → Bool
unfolding token_byte
looks_like_token [] = true
looks_like_token (c ∷ s) = token_byte c && looks_like_token s

-- The separators of `redactHighEntropyTokens`; all are ASCII.
unfoldable pub separator : ℕ → Bool
separator c =
    c == b' '
    || c == 9
    || c == b'='
    || c == b':'
    || c == b','
    || c == b'"'
    || c == 39
    || c == b'('
    || c == b')'
    || c == 10

module _ ⦃fl : Float⦄ where
  open fl use {F, of_nat, ratio, add, sub, mul, div, log2, le, eq}

  -- `freq[c]++`
  bump : List F → ℕ → List F
  bump [] c = []
  bump (x ∷ freq) zero = add x (of_nat 1) ∷ freq
  bump (x ∷ freq) (suc c) = x ∷ bump freq c

  zeros : ℕ → List F
  zeros zero = []
  zeros (suc n) = of_nat 0 ∷ zeros n

  frequencies : List F → Text → List F
  frequencies freq [] = freq
  frequencies freq (c ∷ s) = frequencies (bump freq c) s

  entropy_loop : F → F → List F → F
  entropy_loop n h [] = h
  entropy_loop n h (f ∷ freq) =
      let p = div f n in entropy_loop n (if eq f (of_nat 0) then h else sub h (mul p (log2 p))) freq

  unfoldable pub shannon_entropy : Text → F
  unfolding bump zeros frequencies entropy_loop
  shannon_entropy s =
      if s == []
      then of_nat 0
      else entropy_loop (of_nat (length s)) (of_nat 0) (frequencies (zeros 256) s)

  -- The three tests of the loop.
  unfoldable pub is_secret : ℕ → F → Text → Bool
  unfolding looks_like_token shannon_entropy
  is_secret min_len threshold f =
      not (ltb (length f) min_len) && looks_like_token f && le threshold (shannon_entropy f)

  -- The loop over the fields; `s` is the text so far.
  token_loop : ℕ → F → List Text → Text → ℕ → Text × ℕ
  token_loop min_len threshold [] s count = (s, count)
  token_loop min_len threshold (f ∷ fs) s count =
      let secret = is_secret min_len threshold f in
      token_loop min_len threshold fs (if secret then replace_all s f placeholder else s)
        (if secret then suc count else count)

  pub redact_high_entropy_tokens : Text → ℕ → F → ℕ → Text × ℕ
  unfolding token_loop separator
  redact_high_entropy_tokens s min_len threshold count =
      token_loop min_len threshold (fields separator s) s count
