-- ===== src/Store/Batches.antt =====
-- The store after a series of batches.
use mathlib.Core.List.{flatten}
use sentinellog.Prelude.{
  ◌+◌, ◌^◌, ◌<◌, ◌≤◌, ◌≡◌, refl, sym, ap, ◌∙◌, inl, inr, List, [], ◌∷◌, ◌++◌, foldl, map, filter,
  filter-append, length, length-append, length-map, length-filter-le, append-nil, append_assoc,
  arith, Bool-cases,
}
use sentinellog.Model.{LogEntry, StoredEntry}
use sentinellog.Store.{MemStore, persist, write_entry, write_batch}
use sentinellog.Store.Writes.{
  IsValid, stored_entry, is_redacted, write_batch-IsValid, write_batch-contents,
}

-- The store `t` has the entries of `s` and more.
abbrev pub Extends : MemStore → MemStore → Type 0
Extends s t = (more : List StoredEntry) × (t.entries ≡ s.entries ++ more)

Extends-trans : (s t u : MemStore) → Extends s t → Extends t u → Extends s u
Extends-trans s t u (more, e) (more', e') =
    (more ++ more', e' ∙ ap (λ es. es ++ more') e ∙ append_assoc s.entries more more')

write_entry-Extends : (s : MemStore) (e : LogEntry) → Extends s (write_entry s e)
unfolding write_entry persist
write_entry-Extends s e = elim (Bool-cases e.redacted) [
  | inl clean ↦ simp clean (_ ∷ [], refl)
  | inr raw ↦ simp raw ([], sym (append-nil s.entries))
]

write_batch-Extends : (s : MemStore) (batch : List LogEntry) → Extends s (write_batch s batch)
unfolding write_batch
write_batch-Extends s [] = ([], sym (append-nil s.entries))
write_batch-Extends s (e ∷ batch) =
    Extends-trans s (write_entry s e) (write_batch (write_entry s e) batch)
      (write_entry-Extends s e) (write_batch-Extends (write_entry s e) batch)

pub batches-Extends :
    (s : MemStore) (bs : List (List LogEntry)) → Extends s (foldl write_batch s bs)
batches-Extends s [] = ([], sym (append-nil s.entries))
batches-Extends s (b ∷ bs) =
    Extends-trans s (write_batch s b) (foldl write_batch s (b ∷ bs)) (write_batch-Extends s b)
      (batches-Extends (write_batch s b) bs)

-- The store has gained the redacted entries of the batches, in order.
pub batches-contents :
    (s : MemStore) (bs : List (List LogEntry))
    → map stored_entry (foldl write_batch s bs).entries
      ≡ map stored_entry s.entries ++ filter is_redacted (flatten bs)
unfolding flatten
batches-contents s [] = sym (append-nil _)
batches-contents s (b ∷ bs) =
    batches-contents (write_batch s b) bs
    ∙ ap (λ es. es ++ filter is_redacted (flatten bs)) (write_batch-contents s b)
    ∙ append_assoc _ (filter is_redacted b) _
    ∙ ap (λ es. map stored_entry s.entries ++ es) (sym (filter-append is_redacted b (flatten bs)))

length-write_batch-le :
    (s : MemStore) (b : List LogEntry)
    → length (write_batch s b).entries ≤ length s.entries + length b
length-write_batch-le s b = omega (
  arith,
  ap length (write_batch-contents s b),
  length-map stored_entry (write_batch s b).entries,
  length-map stored_entry s.entries,
  length-append (map stored_entry s.entries) (filter is_redacted b),
  length-filter-le is_redacted b,
)

pub batches-IsValid :
    (s : MemStore) (bs : List (List LogEntry))
    → IsValid s
    → length s.entries + length (flatten bs) < 2 ^ 64
    → IsValid (foldl write_batch s bs)
unfolding flatten
batches-IsValid s [] v room = v
batches-IsValid s (b ∷ bs) v room =
    batches-IsValid (write_batch s b) bs
      (write_batch-IsValid s b v (omega (arith, length-append b (flatten bs))))
      (omega (arith, length-append b (flatten bs), length-write_batch-le s b))

pub foldl-append :
    (s : MemStore) (bs cs : List (List LogEntry))
    → foldl write_batch s (bs ++ cs) ≡ foldl write_batch (foldl write_batch s bs) cs
foldl-append s [] cs = refl
foldl-append s (b ∷ bs) cs = foldl-append (write_batch s b) bs cs
