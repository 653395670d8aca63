-- ===== src/Redaction/Redact.antt =====
-- What `Redact` does to an entry.
use mathlib.Core.List.{Memᴰ}
use sentinellog.Prelude.{
  ℕ, ◌≤◌, ◌≡◌, refl, sym, ap, ◌∙◌, Bool, true, false, not, Text, List, [], ◌∷◌, map, arith, All,
  text_eq,
}
use sentinellog.Prelude.Strings.{contains}
use sentinellog.Prelude.Float.{Float}
use sentinellog.Model.{LogEntry, Value, str}
use sentinellog.Redaction.Pattern.{Regexp, apply_patterns}
use sentinellog.Redaction.Pattern.Counting.{Covers, apply_patterns_none}
use sentinellog.Redaction.Replace.{fields}
use sentinellog.Redaction.Entropy.{separator, is_secret}
use sentinellog.Redaction.Entropy.Secrets.{secret_removed, entropy_count, entropy_none}
use sentinellog.Redaction.{
  Redactor, new, rules, compile_rules, is_allowed, redact_string, redact_string_with_entropy,
  write_back, redact_value, redact_attrs, redact,
}

write_back-eq : (s : Text) (r : Text × ℕ) → (r.1 ≡ 0 → r.0 ≡ s) → (write_back s r).0 ≡ str r.0
unfolding write_back
write_back-eq s (red, cnt) h = ground (arith, h)

module _ ⦃fl : Float⦄ where
  -- A text whose count of replacements is 0 is unchanged.
  redact_string_none :
      (r : Redactor) (s : Text) (b : Bool)
      → All Covers r.patterns
      → (redact_string_with_entropy r s b).1 ≡ 0
      → (redact_string_with_entropy r s b).0 ≡ s
  unfolding redact_string_with_entropy
  redact_string_none r s false c h = apply_patterns_none r.patterns s 0 c h
  redact_string_none r s true c h =
      let s' : Text = (apply_patterns r.patterns s 0).0 in
      let n : ℕ = (apply_patterns r.patterns s 0).1 in
      let none : n ≡ 0 = omega (arith, entropy_count r.min_token_len r.entropy_threshold s' n, h) in
      entropy_none r.min_token_len r.entropy_threshold s' n (h ∙ sym none)
      ∙ apply_patterns_none r.patterns s 0 c none

  -- An attribute as its redacted text; what is no text stays.
  pub redacted_value : Redactor → Text → Value → Value
  redacted_value r k (str s) =
      str (redact_string_with_entropy r s (not (is_allowed r.allow_keys k))).0
  redacted_value r k v = v

  redact_value-eq :
      (r : Redactor) (k : Text) (v : Value)
      → All Covers r.patterns
      → (redact_value r k v).0 ≡ redacted_value r k v
  unfolding redact_value redacted_value
  redact_value-eq r k (str s) c =
      write_back-eq s (redact_string_with_entropy r s (not (is_allowed r.allow_keys k)))
        (redact_string_none r s (not (is_allowed r.allow_keys k)) c)
  redact_value-eq r k _ c = refl

  redact_attrs-eq :
      (r : Redactor) (attrs : List (Text × Value))
      → All Covers r.patterns
      → (redact_attrs r attrs).0 ≡ map (λ a. (a.0, redacted_value r a.0 a.1)) attrs
  unfolding redact_attrs
  redact_attrs-eq r [] c = refl
  redact_attrs-eq r ((k, v) ∷ rest) c = cc (redact_value-eq r k v c, redact_attrs-eq r rest c)

  -- A redacted entry has the redacted message, each attribute redacted in place (without the
  -- entropy layer exactly for the allowed keys), the mark, and every other field as it was: the test
  -- `cnt > 0` never keeps a text that should be replaced.
  pub redact-eq :
      (r : Redactor) (e : LogEntry)
      → All Covers r.patterns
      → (redact r e).0 ≡ record e {
        message = (redact_string r e.message).0;
        attrs = map (λ a. (a.0, redacted_value r a.0 a.1)) e.attrs;
        redacted = true;
      }
  unfolding redact
  redact-eq r e c =
      ap (λ l. record e { message = (redact_string r e.message).0; attrs = l; redacted = true })
        (redact_attrs-eq r e.attrs c)

  pub redacted-redact : (r : Redactor) (e : LogEntry) → (redact r e).0.redacted ≡ true
  unfolding redact
  redacted-redact r e = refl

  -- The text that the entropy layer works on.
  abbrev pub after_patterns : Redactor → Text → Text
  after_patterns r s = (apply_patterns r.patterns s 0).0

  -- Every field of the message, as the patterns left it, that is long enough, looks like a token
  -- and has the entropy is gone from the redacted message, wherever it stood; the entry is marked.
  pub message_clean :
      (r : Redactor) (e : LogEntry) (f : Text)
      → 10 ≤ r.min_token_len
      → Memᴰ f (fields separator (after_patterns r e.message))
      → is_secret r.min_token_len r.entropy_threshold f ≡ true
      → (contains (redact r e).0.message f ≡ false) × ((redact r e).0.redacted ≡ true)
  unfolding redact redact_string redact_string_with_entropy
  message_clean r e f enough m secret = (
    secret_removed r.min_token_len r.entropy_threshold enough (after_patterns r e.message) f _ m
        secret,
    refl,
  )

  compile_rules-Covers : (re : Regexp) (l : List (Text × Text)) → All Covers (compile_rules re l)
  unfolding compile_rules
  compile_rules-Covers re [] = tt
  compile_rules-Covers re ((name, source) ∷ rest) = (re.covers source, compile_rules-Covers re rest)

  -- The default redactor meets what the theorems ask of a redactor.
  pub new-Covers : (re : Regexp) → All Covers (new re).patterns
  unfolding new
  new-Covers re = compile_rules-Covers re rules
