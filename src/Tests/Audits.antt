-- ===== src/Tests/Audits.antt =====
-- The audit log.
use sentinellog.Prelude.{
  pos, ◌≡◌, ◌≢◌, ◌↔◌, ◌⊎◌, refl, Text, codes, [], ◌∷◌, ◌++◌, map, none, some, arith, text_beq,
}
use sentinellog.Prelude.Strings.{hex_digest, hex_encode}
use sentinellog.Audit.{Record, Log, new, append, verify, payload, genesis}
use sentinellog.Audit.Chain.{IsChain, Corrupt, verify_iff, verify-Corrupt}
use sentinellog.Audit.Append.{new-IsIntact, append-IsIntact}
use sentinellog.Audit.Tampering.{Collision, tamper_evident, shift_fields, tampering_undetected}
use sentinellog.Tests.Fixtures.{plain_runtime, length-keep_32, tenant_a}

abbrev who : Text
who = codes "ann"

abbrev what : Text
what = codes "search"

-- The resource has a bar.
abbrev which : Text
which = codes "x|y"

abbrev logged : Log
logged = (append new (pos 3) tenant_a who what which).0

logged_verified : verify logged ≡ none
unfolding new
logged_verified = (append-IsIntact (pos 3) tenant_a who what which new new-IsIntact (omega arith)).1

verify_example : (verify logged ≡ none) ↔ IsChain genesis logged.records
verify_example = verify_iff logged

abbrev forged_record : Record
forged_record = record {
  seq = 1;
  tenant_id = tenant_a;
  actor = who;
  action = what;
  resource = which;
  at = pos 3;
  prev_hash = [];
  hash = [];
}

abbrev forged : Log
forged = record { records = forged_record ∷ []; last_hash = []; seq = 1 }

forged_found : verify forged ≡ some 1
unfolding verify text_beq genesis hex_digest hex_encode
forged_found = refl

verify-Corrupt_example : Corrupt genesis forged.records 1
verify-Corrupt_example = verify-Corrupt forged 1 forged_found

tamper_evident_example : (map payload logged.records ≡ map payload logged.records) ⊎ Collision
tamper_evident_example =
    tamper_evident length-keep_32 logged logged logged_verified logged_verified refl

abbrev logged_record : Record
logged_record = (append new (pos 3) tenant_a who what which).1

tampering_example :
    (verify
        (record logged { records = [] ++ shift_fields logged_record (codes "x") (codes "y") ∷ [] })
      ≡ none)
    × (shift_fields logged_record (codes "x") (codes "y") ≢ logged_record)
unfolding append new
tampering_example =
    tampering_undetected logged [] logged_record [] (codes "x") (codes "y") refl refl
      logged_verified
