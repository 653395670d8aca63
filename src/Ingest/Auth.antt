-- ===== src/Ingest/Auth.antt =====
-- internal/ingest/auth.go: bearer tokens by their hash.
use sentinellog.Prelude.{
  ◌≡◌, ap, sym, ◌∙◌, refl, Text, codes, List, [], Option, none, some, if◌then◌else◌, ◌==◌, arith,
  inl, inr, Bool-cases, text_eq,
}
use sentinellog.Prelude.Map.{lookup, insert, lookup-insert}
use sentinellog.Prelude.Strings.{Runtime, hex_digest}

-- From the hash of a token, in hex, to the tenant.
pub record Authenticator : Type 0 where
  pub by_hash : List (Text × Text)

unfoldable pub new_authenticator : Authenticator
new_authenticator = record { by_hash = [] }

module _ ⦃rt : Runtime⦄ where
  abbrev pub hash_token : Text → Text
  hash_token raw = hex_digest raw

  unfoldable pub add_token : Authenticator → Text → Text → Authenticator
  add_token a raw_token tenant_id = record {
    by_hash = insert (hash_token raw_token) tenant_id a.by_hash;
  }

  -- The comparison that follows a successful lookup.
  confirm : Text → Text → Option Text → Option Text
  confirm h h' none = none
  confirm h h' (some tenant) = if h == h' then some tenant else none

  unfoldable pub authenticate : Authenticator → Text → Option Text
  unfolding confirm
  authenticate a raw_token =
      if raw_token == codes ""
      then none
      else confirm (hash_token raw_token) (hash_token raw_token)
          (lookup (hash_token raw_token) a.by_hash)

  confirm_same : (h : Text) (o : Option Text) → confirm h h o ≡ o
  unfolding confirm
  confirm_same h none = refl
  confirm_same h (some t) = ground (arith, text_eq.agree_iff h h)

  -- A token that is added authenticates its tenant; of the other tokens those with its hash change
  -- with it and no others. The empty token never authenticates.
  pub authenticate-add_token :
      (a : Authenticator) (raw tenant other : Text)
      → authenticate (add_token a raw tenant) other ≡ (
          if other == codes ""
          then none
          else if hash_token raw == hash_token other
          then some tenant
          else authenticate a other)
  unfolding authenticate add_token
  authenticate-add_token a raw tenant other = elim (Bool-cases (other == codes "")) [
    | inl e ↦ simp e refl
    | inr e ↦ simp e (
        confirm_same (hash_token other) _
        ∙ lookup-insert (hash_token raw) (hash_token other) tenant a.by_hash
        ∙ ap (λ o. if hash_token raw == hash_token other then some tenant else o)
            (sym (confirm_same (hash_token other) (lookup (hash_token other) a.by_hash))))
  ]
