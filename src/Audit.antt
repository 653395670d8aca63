-- ===== src/Audit.antt =====
-- internal/audit: the hash-chained audit log.
pub mod Chain
pub mod Append
pub mod Tampering
use sentinellog.Prelude.{
  ℕ, ℤ, ◌+◌, Text, codes, Bool, true, false, not, List, [], ◌∷◌, ◌++◌, Option, none, some, ◌==◌,
  text_eq, if◌then◌else◌, u64, length,
}
use sentinellog.Prelude.Strings.{Runtime, hex_digest}
use sentinellog.Model.{Time}
use sentinellog.Model.Decimal.{format_uint, format_int}

pub record Record : Type 0 where
  pub seq : ℕ  -- uint64
  pub tenant_id : Text
  pub actor : Text
  pub action : Text
  pub resource : Text
  pub at : ℤ  -- the Unix time in nanoseconds, as `hash` reads it
  pub prev_hash : Text
  pub hash : Text

pub record Log : Type 0 where
  pub records : List Record
  pub last_hash : Text
  pub seq : ℕ  -- uint64

abbrev pub bar : ℕ
bar = b'|'

-- The text that `fmt.Sprintf("%d|%s|%s|%s|%s|%d|%s", …)` gives.
unfoldable pub payload : Record → Text
payload r =
    format_uint r.seq
    ++ (bar ∷ r.tenant_id
        ++ (bar ∷ r.actor
            ++ (bar ∷ r.action
                ++ (bar ∷ r.resource ++ (bar ∷ format_int r.at ++ (bar ∷ r.prev_hash))))))

module _ ⦃rt : Runtime⦄ where
  unfoldable pub genesis : Text
  genesis = hex_digest (codes "sentinellog-audit-genesis")

  unfoldable pub hash_record : Record → Text
  unfolding payload
  hash_record r = hex_digest (payload r)

  unfoldable pub new : Log
  new = record { records = []; last_hash = genesis; seq = 0 }

  -- The record that `Append` makes of its arguments and the clock.
  next_record : Log → ℤ → Text → Text → Text → Text → Record
  next_record l now tenant_id actor action resource =
      let r : Record = record {
        seq = u64 (l.seq + 1);
        tenant_id = tenant_id;
        actor = actor;
        action = action;
        resource = resource;
        at = now;
        prev_hash = l.last_hash;
        hash = [];
      } in
      record r { hash = hash_record r }

  unfoldable pub append : Log → ℤ → Text → Text → Text → Text → Log × Record
  unfolding next_record
  append l now tenant_id actor action resource =
      let r = next_record l now tenant_id actor action resource in
      (record { records = l.records ++ r ∷ []; last_hash = r.hash; seq = r.seq }, r)

  -- The loop of `Verify`; `none` is `(true, 0)`, and `some n` is `(false, n)`.
  verify_from : Text → List Record → Option ℕ
  verify_from prev [] = none
  verify_from prev (r ∷ rest) =
      if not (r.prev_hash == prev)
      then some r.seq
      else if not (r.hash == hash_record r)
      then some r.seq
      else verify_from r.hash rest

  unfoldable pub verify : Log → Option ℕ
  unfolding verify_from
  verify l = verify_from genesis l.records

unfoldable pub head : Log → Text
head l = l.last_hash
