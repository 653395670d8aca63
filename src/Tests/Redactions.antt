-- ===== src/Tests/Redactions.antt =====
-- The redactor.
use mathlib.Core.List.{Memᴰ}
use sentinellog.Prelude.{◌≡◌, refl, Text, codes, [], ◌∷◌, map, true, false, arith, text_beq}
use sentinellog.Prelude.Strings.{contains}
use sentinellog.Model.{LogEntry, str}
use sentinellog.Redaction.{Redactor, new, redact, redact_string}
use sentinellog.Redaction.Card.{luhn_valid}
use sentinellog.Redaction.Card.Luhn.{luhn_single_error}
use sentinellog.Redaction.Replace.{fields}
use sentinellog.Redaction.Entropy.{separator, is_secret}
use sentinellog.Redaction.Pattern.{apply_patterns}
use sentinellog.Redaction.Redact.{redacted_value, redact-eq, message_clean, new-Covers}
use sentinellog.Tests.Fixtures.{plain_runtime, whole, no_match, entry_of, tenant_a}

luhn_single_example : luhn_valid (1 ∷ 9 ∷ []) ≡ false
unfolding luhn_valid
luhn_single_example =
    luhn_single_error (1 ∷ []) [] 8 9 (omega arith) (omega arith) (λ e. absurd (omega (arith, e)))
      refl

abbrev token : Text
token = codes "A1b2C3d4E5f6"

abbrev text : Text
text = codes "key A1b2C3d4E5f6"

abbrev redactor : Redactor
redactor = record { patterns = []; entropy_threshold = 0; min_token_len = 12; allow_keys = [] }

token_field : Memᴰ token (fields separator text)
unfolding fields separator text_beq
token_field = Memᴰ.tail (Memᴰ.head refl)

token_secret : is_secret 12 0 token ≡ true
unfolding is_secret text_beq
token_secret = refl

message_example :
    (contains (redact redactor (entry_of tenant_a (codes "pay") text)).0.message token ≡ false)
    × ((redact redactor (entry_of tenant_a (codes "pay") text)).0.redacted ≡ true)
unfolding apply_patterns
message_example =
    message_clean redactor (entry_of tenant_a (codes "pay") text) token (omega arith) token_field
      token_secret

abbrev with_attribute : LogEntry
with_attribute = record (entry_of tenant_a (codes "pay") text) {
  attrs = (codes "k", str text) ∷ [];
}

redact_example : (redact (new no_match) with_attribute).0 ≡ record with_attribute {
  message = (redact_string (new no_match) with_attribute.message).0;
  attrs = map (λ a. (a.0, redacted_value (new no_match) a.0 a.1)) with_attribute.attrs;
  redacted = true;
}
redact_example = redact-eq (new no_match) with_attribute (new-Covers no_match)
