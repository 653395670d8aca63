-- ===== src/Store.antt =====
-- internal/store: `MemStore`, the tenant-scoped log store.
pub mod BinarySearch
pub mod Batches
pub mod Writes
pub mod Search
pub mod Since
pub mod Get
pub mod Others
use sentinellog.Prelude.{
  ℕ, zero, suc, ◌+◌, ◌-◌, ◌<◌, ◌≡◌, Text, codes, ℤ, pos, negsuc, Bool, true, false, not, ◌&&◌, ◌||◌,
  List, [], ◌∷◌, ◌++◌, foldl, Option, none, some, ltb, ◌==◌, nat_eq, text_eq, if◌then◌else◌, u64,
  length, get_elem?,
}
use sentinellog.Prelude.Strings.{Runtime, contains}
use sentinellog.Model.{Time, LogEntry, StoredEntry}
use sentinellog.Store.BinarySearch.{sort_search}

pub record Query : Type 0 where
  pub tenant_id : Text
  pub service : Text
  pub level : Text
  pub contains : Text
  pub since : Time
  pub until : Time
  pub limit : ℤ

pub record MemStore : Type 0 where
  pub entries : List StoredEntry
  pub next_id : ℕ  -- atomic.Uint64
  pub written : ℕ  -- atomic.Uint64

unfoldable pub new_mem : MemStore
new_mem = record { entries = []; next_id = 0; written = 0 }

-- The end of a round of the loop of `WriteBatch`: the entry gets the next ID.
persist : MemStore → LogEntry → MemStore
persist s e =
    let next = u64 (s.next_id + 1) in
    record {
      entries = s.entries ++ record { id = next; entry = e } ∷ [];
      next_id = next;
      written = u64 (s.written + 1);
    }

-- One round of the loop of `WriteBatch`; an unredacted entry is skipped.
write_entry : MemStore → LogEntry → MemStore
unfolding persist
write_entry s e = if not e.redacted then s else persist s e

-- The error of `WriteBatch` is always nil.
unfoldable pub write_batch : MemStore → List LogEntry → MemStore
unfolding write_entry
write_batch s batch = foldl write_entry s batch

-- `if limit <= 0 { limit = n }`
unfoldable pub limit_or : ℕ → ℤ → ℕ
limit_or n (pos zero) = n
limit_or n (pos (suc k)) = suc k
limit_or n (negsuc k) = n

module _ ⦃rt : Runtime⦄ where
  unfoldable pub matches : StoredEntry → Query → Bool
  matches e q =
      if not (e.tenant_id == q.tenant_id)
      then false
      else if not (q.service == codes "") && not (e.service == q.service)
      then false
      else if not (q.level == codes "") && not (e.level == q.level)
      then false
      else if not (q.contains == codes "")
          && not (contains (rt.to_lower e.message) (rt.to_lower q.contains))
      then false
      else if not (q.since == 0) && ltb e.timestamp q.since
      then false
      else if not (q.until == 0) && ltb q.until e.timestamp
      then false
      else true

  -- The loop of `Search` with `i + 1` for the index; the loop never reads out of range.
  search_loop : List StoredEntry → Query → ℕ → ℕ → List StoredEntry → List StoredEntry
  search_loop entries q limit zero out = out
  search_loop entries q limit (suc i) out =
      if ltb (length out) limit
      then search_loop entries q limit i (elim (get_elem? entries i) [
        | none ↦ out
        | some e ↦ if matches e q then out ++ e ∷ [] else out
      ])
      else out

  unfoldable pub search : MemStore → Query → List StoredEntry
  unfolding search_loop
  search s q =
      if q.tenant_id == codes ""
      then []
      else search_loop s.entries q (limit_or 100 q.limit) (length s.entries) []

  -- The early return, or whether the slice for the results can be made.
  unfoldable pub has_room : Query → Bool
  has_room q = q.tenant_id == codes "" || rt.makes (limit_or 100 q.limit)

  -- `Search` with its call of `make`; `none` is the panic.
  unfoldable pub search_made : MemStore → Query → Option (List StoredEntry)
  unfolding has_room
  search_made s q = if has_room q then some (search s q) else none

-- The loop of `Since`; `rounds` bounds the indices that are left.
since_loop : List StoredEntry → ℕ → ℕ → ℕ → List StoredEntry → List StoredEntry
since_loop entries limit i zero out = out
since_loop entries limit i (suc rounds) out =
    if ltb i (length entries) && ltb (length out) limit
    then since_loop entries limit (suc i) rounds
        (elim (get_elem? entries i) [ none ↦ out | some e ↦ out ++ e ∷ [] ])
    else out

-- The test that `Since` hands to `sort.Search`.
id_after : List StoredEntry → ℕ → ℕ → Bool
id_after entries after_id i = elim (get_elem? entries i) [
  | none ↦ false
  | some e ↦ ltb after_id e.id
]

unfoldable pub since : MemStore → ℕ → ℤ → List StoredEntry
unfolding id_after since_loop
since s after_id limit =
    let start = sort_search (length s.entries) (id_after s.entries after_id) in
    since_loop s.entries (limit_or 500 limit) start (length s.entries) []

-- `none` is the answer `(StoredEntry{}, false)`.
unfoldable pub get : MemStore → Text → ℕ → Option StoredEntry
get s tenant_id id =
    if id == 0 || ltb (length s.entries) id then none else elim (get_elem? s.entries (id - 1)) [
      | none ↦ none
      | some e ↦ if not (e.tenant_id == tenant_id) then none else some e
    ]
