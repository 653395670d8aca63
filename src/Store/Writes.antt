-- ===== src/Store/Writes.antt =====
-- What `WriteBatch` keeps: dense IDs, one entry to an ID, nothing unredacted.
use sentinellog.Prelude.{
  ℕ, suc, ◌+◌, ◌^◌, ◌<◌, ◌≤◌, ◌≡◌, refl, sym, ◌∙◌, inl, inr, Bool, true, false, List, [], ◌∷◌, ◌++◌,
  map, arith, length, length-append, All, All-append, filter, Bool-cases, list_laws, append-nil,
}
use mathlib.Core.List.{map-append}
use sentinellog.Model.{LogEntry, StoredEntry}
use sentinellog.Store.{MemStore, new_mem, persist, write_entry, write_batch}

-- The IDs count up from `next`.
abbrev pub Numbered : ℕ → List StoredEntry → Type 0
Numbered next [] = Unit
Numbered next (e ∷ es) = (e.id ≡ next) × Numbered (suc next) es

abbrev pub IsRedacted : StoredEntry → Type 0
IsRedacted e = e.redacted ≡ true

pub record IsValid (s : MemStore) : Type 0 where
  pub dense : Numbered 1 s.entries
  pub counted : s.next_id ≡ length s.entries
  pub written_all : s.written ≡ length s.entries
  pub redacted_all : All IsRedacted s.entries

abbrev pub stored_entry : StoredEntry → LogEntry
stored_entry e = e.entry

abbrev pub is_redacted : LogEntry → Bool
is_redacted e = e.redacted

pub new_mem-IsValid : IsValid new_mem
unfolding new_mem
new_mem-IsValid = record { dense = tt; counted = refl; written_all = refl; redacted_all = tt }

Numbered-append :
    (next : ℕ) (es : List StoredEntry) (e : StoredEntry)
    → Numbered next es
    → e.id ≡ next + length es
    → Numbered next (es ++ e ∷ [])
Numbered-append next [] e h p = (omega arith, tt)
Numbered-append next (d ∷ es) e h p = (h.0, Numbered-append (suc next) es e h.1 (omega arith))

write_entry_raw : (s : MemStore) (e : LogEntry) → e.redacted ≡ false → write_entry s e ≡ s
unfolding write_entry
write_entry_raw s e raw = simp raw

write_entry_clean :
    (s : MemStore) (e : LogEntry) → e.redacted ≡ true → write_entry s e ≡ persist s e
unfolding write_entry
write_entry_clean s e clean = simp clean

-- One entry that a batch adds.
persist-IsValid :
    (s : MemStore) (e : LogEntry)
    → IsValid s
    → length s.entries + 1 < 2 ^ 64
    → e.redacted ≡ true
    → IsValid (persist s e)
unfolding persist
persist-IsValid s e v room clean = record {
  dense = Numbered-append 1 s.entries _ v.dense (omega (arith, v.counted));
  counted = omega (arith, v.counted, length-append s.entries);
  written_all = omega (arith, v.written_all, length-append s.entries);
  redacted_all = All-append IsRedacted s.entries _ v.redacted_all (clean, tt);
}

length-persist : (s : MemStore) (e : LogEntry) → length (persist s e).entries ≡ length s.entries + 1
unfolding persist
length-persist s e = length-append s.entries _

persist-contents :
    (s : MemStore) (e : LogEntry)
    → map stored_entry (persist s e).entries ≡ map stored_entry s.entries ++ e ∷ []
unfolding persist
persist-contents s e = map-append stored_entry s.entries _

write_entry-IsValid :
    (s : MemStore) (e : LogEntry)
    → IsValid s
    → length s.entries + 1 < 2 ^ 64
    → IsValid (write_entry s e)
write_entry-IsValid s e v room = elim (Bool-cases e.redacted) [
  | inr raw ↦ simp (write_entry_raw s e raw) v
  | inl clean ↦ simp (write_entry_clean s e clean) (persist-IsValid s e v room clean)
]

length-write_entry-le :
    (s : MemStore) (e : LogEntry) → length (write_entry s e).entries ≤ length s.entries + 1
length-write_entry-le s e = elim (Bool-cases e.redacted) [
  | inr raw ↦ simp (write_entry_raw s e raw) (omega arith)
  | inl clean ↦ simp (write_entry_clean s e clean) (omega (arith, length-persist s e))
]

write_entry-contents :
    (s : MemStore) (e : LogEntry) (rest : List LogEntry)
    → map stored_entry (write_entry s e).entries ++ filter is_redacted rest
      ≡ map stored_entry s.entries ++ filter is_redacted (e ∷ rest)
write_entry-contents s e rest = elim (Bool-cases e.redacted) [
  | inr raw ↦ simp (write_entry_raw s e raw, raw)
  | inl clean ↦ simp (write_entry_clean s e clean, clean, persist-contents, list_laws)
]

-- A batch, whatever is in it, keeps a valid store valid, as long as the 64-bit IDs last.
pub write_batch-IsValid :
    (s : MemStore) (batch : List LogEntry)
    → IsValid s
    → length s.entries + length batch < 2 ^ 64
    → IsValid (write_batch s batch)
unfolding write_batch
write_batch-IsValid s [] v room = v
write_batch-IsValid s (e ∷ batch) v room =
    write_batch-IsValid (write_entry s e) batch (write_entry-IsValid s e v (omega arith))
      (omega (arith, length-write_entry-le s e))

-- The store gains exactly the redacted entries of the batch, in order, and loses nothing.
pub write_batch-contents :
    (s : MemStore) (batch : List LogEntry)
    → map stored_entry (write_batch s batch).entries
      ≡ map stored_entry s.entries ++ filter is_redacted batch
unfolding write_batch
write_batch-contents s [] = sym (append-nil _)
write_batch-contents s (e ∷ batch) =
    write_batch-contents (write_entry s e) batch ∙ write_entry-contents s e batch
