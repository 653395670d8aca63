-- ===== src/Store/Others.antt =====
-- What the writes of other tenants leave as it was.
use sentinellog.Prelude.{
  ℕ, zero, suc, ◌+◌, ◌-◌, ◌<◌, ◌≡◌, ◌≢◌, refl, ◌∙◌, inl, inr, false, Bool-cases, Text, List, [],
  ◌∷◌, ◌++◌, some, ltb, ◌==◌, nat_eq, text_eq, text_beq-false, nat_beq_iff, u64, All, arith, length,
  length-append, get_elem?, filter, list_laws, Bool,
}
use sentinellog.Model.{LogEntry, StoredEntry}
use sentinellog.Store.{MemStore, persist, write_entry, write_batch, get}

get_elem?-append_left :
    (xs ys : List StoredEntry) (i : ℕ) → i < length xs → get_elem? (xs ++ ys) i ≡ get_elem? xs i
get_elem?-append_left [] ys i h = absurd (omega (arith, h))
get_elem?-append_left (x ∷ xs) ys zero h = refl
get_elem?-append_left (x ∷ xs) ys (suc i) h = get_elem?-append_left xs ys i (omega (arith, h))

get_elem?-append_length :
    (xs : List StoredEntry) (y : StoredEntry) (i : ℕ)
    → i ≡ length xs
    → get_elem? (xs ++ y ∷ []) i ≡ some y
get_elem?-append_length [] y zero h = refl
get_elem?-append_length [] y (suc i) h = absurd (omega (arith, h))
get_elem?-append_length (x ∷ xs) y zero h = absurd (omega (arith, h))
get_elem?-append_length (x ∷ xs) y (suc i) h = get_elem?-append_length xs y i (omega (arith, h))

get-persist_other :
    (s : MemStore) (e : LogEntry) (tenant : Text) (id : ℕ)
    → e.tenant_id ≢ tenant
    → get (persist s e) tenant id ≡ get s tenant id
unfolding get persist
get-persist_other s e tenant id other =
    let x : StoredEntry = record { id = u64 (s.next_id + 1); entry = e } in
    let theirs : (e.tenant_id == tenant) ≡ false = text_beq-false e.tenant_id tenant other in
    elim (Bool-cases (id == 0)) [
      | inl z ↦ simp z refl
      | inr nz ↦ elim (Bool-cases (ltb (length s.entries) id)) [
        | inl past ↦ elim (Bool-cases (ltb (length (s.entries ++ x ∷ [])) id)) [
          | inl far ↦ simp (nz, past, far) refl
          | inr last ↦
              let here =
                get_elem?-append_length s.entries x (id - 1)
                  (ground (arith, length-append s.entries (x ∷ []), nat_beq_iff id 0)) in
              simp (nz, past, last, here, theirs) refl
        ]
        | inr within ↦
            let near : ltb (length (s.entries ++ x ∷ [])) id ≡ false =
              ground (arith, length-append s.entries (x ∷ [])) in
            let here =
              get_elem?-append_left s.entries (x ∷ []) (id - 1)
                (ground (arith, nat_beq_iff id 0)) in
            simp (nz, within, near, here) refl
      ]
    ]

get-write_entry_other :
    (s : MemStore) (e : LogEntry) (tenant : Text) (id : ℕ)
    → e.tenant_id ≢ tenant
    → get (write_entry s e) tenant id ≡ get s tenant id
unfolding write_entry
get-write_entry_other s e tenant id other = elim (Bool-cases e.redacted) [
  | inl r ↦ simp r (get-persist_other s e tenant id other)
  | inr r ↦ simp r refl
]

-- A batch without an entry of the tenant changes no `Get` of the tenant.
pub get-write_batch_other :
    (batch : List LogEntry) (s : MemStore) (tenant : Text) (id : ℕ)
    → All (λ (e : LogEntry). e.tenant_id ≢ tenant) batch
    → get (write_batch s batch) tenant id ≡ get s tenant id
unfolding write_batch
get-write_batch_other [] s tenant id others = refl
get-write_batch_other (e ∷ batch) s tenant id others =
    get-write_batch_other batch (write_entry s e) tenant id others.1
    ∙ get-write_entry_other s e tenant id others.0

abbrev of_tenant : Text → StoredEntry → Bool
of_tenant tenant e = e.tenant_id == tenant

filter-write_entry_other :
    (s : MemStore) (e : LogEntry) (tenant : Text)
    → e.tenant_id ≢ tenant
    → filter (of_tenant tenant) (write_entry s e).entries ≡ filter (of_tenant tenant) s.entries
unfolding write_entry persist
filter-write_entry_other s e tenant other =
    let theirs : (e.tenant_id == tenant) ≡ false = text_beq-false e.tenant_id tenant other in
    elim (Bool-cases e.redacted) [ inr r ↦ simp r refl | inl r ↦ simp (r, theirs, list_laws) ]

-- A batch without an entry of the tenant leaves the tenant's entries as they were.
pub filter-write_batch_other :
    (batch : List LogEntry) (s : MemStore) (tenant : Text)
    → All (λ (e : LogEntry). e.tenant_id ≢ tenant) batch
    → filter (of_tenant tenant) (write_batch s batch).entries ≡ filter (of_tenant tenant) s.entries
unfolding write_batch
filter-write_batch_other [] s tenant others = refl
filter-write_batch_other (e ∷ batch) s tenant others =
    filter-write_batch_other batch (write_entry s e) tenant others.1
    ∙ filter-write_entry_other s e tenant others.0
