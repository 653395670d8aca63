-- ===== src/Redaction.antt =====
-- internal/redaction: the redactor, which strips secrets from an entry before it is buffered.
pub mod Card
pub mod Replace
pub mod Pattern
pub mod Entropy
pub mod Redact
use sentinellog.Prelude.{
  ℕ, zero, suc, ◌+◌, Bool, true, false, not, Text, codes, List, [], ◌∷◌, Option, none, some, ltb,
  if◌then◌else◌, text_eq,
}
use sentinellog.Prelude.Map.{lookup}
use sentinellog.Prelude.Float.{Float}
use sentinellog.Model.{LogEntry, Value, str}
use sentinellog.Redaction.Pattern.{Regexp, NamedPattern, apply_patterns}
use sentinellog.Redaction.Entropy.{redact_high_entropy_tokens}

-- The rules of `New`: a name and the source of an expression.
rules : List (Text × Text)
rules =
    (codes "email", codes "(?i)\\b[a-z0-9._%+\\-]+@[a-z0-9.\\-]+\\.[a-z]{2,}\\b")
    ∷ (codes "aws_access_key", codes "\\b(?:AKIA|ASIA|AGPA|AIDA)[A-Z0-9]{16}\\b")
    ∷ (codes "jwt", codes "\\beyJ[A-Za-z0-9_\\-]+\\.[A-Za-z0-9_\\-]+\\.[A-Za-z0-9_\\-]+\\b")
    ∷ (codes "bearer", codes "(?i)\\bbearer\\s+[A-Za-z0-9._\\-]{12,}\\b")
    ∷ (codes "credit_card", codes "\\b(?:\\d[ \\-]?){13,19}\\b")
    ∷ (codes "private_key", codes "-----BEGIN[ A-Z]*PRIVATE KEY-----")
    ∷ (
      codes "assigned_secret",
      codes "(?i)\\b(pass(word)?|secret|token|api[_\\-]?key|authorization)\\b\\s*[:=]\\s*\\S+",
    )
    ∷ []

compile_rules : Regexp → List (Text × Text) → List NamedPattern
compile_rules re [] = []
compile_rules re ((name, source) ∷ rest) =
    record { name = name; find = re.compile source } ∷ compile_rules re rest

-- `m[k]` of a missing key is false.
is_allowed : List (Text × Bool) → Text → Bool
is_allowed m k = elim (lookup k m) [ none ↦ false | some b ↦ b ]

-- One attribute: `cnt > 0` writes the redacted text back.
write_back : Text → Text × ℕ → Value × ℕ
write_back s (red, cnt) = if ltb 0 cnt then (str red, cnt) else (str s, 0)

module _ ⦃fl : Float⦄ where
  pub record Redactor : Type 0 where
    pub patterns : List NamedPattern
    pub entropy_threshold : fl.F
    pub min_token_len : ℕ
    pub allow_keys : List (Text × Bool)

  unfoldable pub new : Regexp → Redactor
  unfolding rules compile_rules
  new re = record {
    patterns = compile_rules re rules;
    entropy_threshold = fl.ratio 35 10;
    min_token_len = 20;
    allow_keys =
        (codes "trace_id", true)
        ∷ (codes "span_id", true)
        ∷ (codes "request_id", true)
        ∷ (codes "correlation_id", true)
        ∷ (codes "service", true)
        ∷ (codes "level", true)
        ∷ [];
  }

  pub redact_string_with_entropy : Redactor → Text → Bool → Text × ℕ
  redact_string_with_entropy r s use_entropy =
      let (s', count) = apply_patterns r.patterns s 0 in
      if use_entropy
      then redact_high_entropy_tokens s' r.min_token_len r.entropy_threshold count
      else (s', count)

  pub redact_string : Redactor → Text → Text × ℕ
  redact_string r s = redact_string_with_entropy r s true

  redact_value : Redactor → Text → Value → Value × ℕ
  unfolding is_allowed write_back
  redact_value r k (str s) =
      write_back s (redact_string_with_entropy r s (not (is_allowed r.allow_keys k)))
  redact_value r k v = (v, 0)

  -- The loop over the map; each key is visited once, so the order does not matter.
  redact_attrs : Redactor → List (Text × Value) → List (Text × Value) × ℕ
  unfolding redact_value
  redact_attrs r [] = ([], 0)
  redact_attrs r ((k, v) ∷ rest) =
      let (v', n) = redact_value r k v in
      let (rest', m) = redact_attrs r rest in ((k, v') ∷ rest', n + m)

  -- The entry as `Redact` leaves it, and the number of replacements.
  unfoldable pub redact : Redactor → LogEntry → LogEntry × ℕ
  unfolding redact_attrs
  redact r e =
      let (msg, n) = redact_string r e.message in
      let (attrs, m) = redact_attrs r e.attrs in
      (record e { message = msg; attrs = attrs; redacted = true }, n + m)
