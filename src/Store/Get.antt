-- ===== src/Store/Get.antt =====
-- `Get`: a lookup by ID inside one tenant.
use mathlib.Core.List.{Memᴰ}
use mathlib.Core.Logic.{∥∥₁_elim}
use native.Mathlib.Decide.{ℕ_discrete}
use sentinellog.Prelude.{
  ℕ, ◌+◌, ◌-◌, ◌≤◌, ◌<◌, ◌≡◌, ◌↔◌, Text, Mem, Option, some, arith, text_eq, nat_eq, length,
  get_elem?, text_beq_iff, get_elem?-Memᴰ, Memᴰ-index,
}
use sentinellog.Model.{StoredEntry, Value}
use sentinellog.Store.{MemStore, get}
use sentinellog.Store.Writes.{IsValid}
use sentinellog.Store.Since.{Numbered-at}

Value-discrete : Discrete Value
Value-discrete = hlevel ℕ_discrete

StoredEntry-set : IsSet StoredEntry
StoredEntry-set = hlevel (ℕ_discrete, Value-discrete)

Option-set : IsSet (Option StoredEntry)
Option-set = hlevel StoredEntry-set

get-some :
    (s : MemStore) (tenant : Text) (id : ℕ) (e : StoredEntry)
    → get s tenant id ≡ some e
    → (get_elem? s.entries (id - 1) ≡ some e) × (0 < id) × (e.tenant_id ≡ tenant)
unfolding get
get-some s tenant id e h = ground (arith, text_beq_iff e.tenant_id tenant)

get-eq_some :
    (s : MemStore) (tenant : Text) (id : ℕ) (e : StoredEntry)
    → get_elem? s.entries (id - 1) ≡ some e
    → 0 < id
    → id ≤ length s.entries
    → e.tenant_id ≡ tenant
    → get s tenant id ≡ some e
unfolding get
get-eq_some s tenant id e here low high same = ground (arith, text_beq_iff e.tenant_id tenant)

get_present :
    (s : MemStore) (tenant : Text) (id : ℕ) (e : StoredEntry)
    → IsValid s
    → e.id ≡ id
    → e.tenant_id ≡ tenant
    → Memᴰ e s.entries
    → get s tenant id ≡ some e
get_present s tenant id e v named same m =
    let (i, inside, here) = Memᴰ-index m in
    let at : e.id ≡ 1 + i = Numbered-at 1 s.entries i v.dense here in
    let back : id - 1 ≡ i = omega arith in
    get-eq_some s tenant id e (rw back here) (omega arith) (omega arith) same

get_found :
    (s : MemStore) (tenant : Text) (id : ℕ) (e : StoredEntry)
    → IsValid s
    → get s tenant id ≡ some e
    → Mem e s.entries × (e.id ≡ id) × (e.tenant_id ≡ tenant)
get_found s tenant id e v h =
    let (here, low, same) = get-some s tenant id e h in
    let at : e.id ≡ 1 + (id - 1) = Numbered-at 1 s.entries (id - 1) v.dense here in
    (∣ get_elem?-Memᴰ s.entries (id - 1) here ∣₁, omega arith, same)

-- On a valid store `Get` finds an entry exactly when the store holds it under that ID and it
-- belongs to the asking tenant.
pub get_iff :
    (s : MemStore) (tenant : Text) (id : ℕ) (e : StoredEntry)
    → IsValid s
    → (get s tenant id ≡ some e) ↔ (Mem e s.entries × (e.id ≡ id) × (e.tenant_id ≡ tenant))
get_iff s tenant id e v = (
  get_found s tenant id e v,
  λ h. ∥∥₁_elim h.0 (Option-set _ _) (get_present s tenant id e v h.1 h.2),
)
