-- ===== src/Writer/Batches.antt =====
-- What `flush`, `appendGuarded` and the size test of `Run` do to the batches.
use mathlib.Core.List.{flatten}
use sentinellog.Prelude.{
  ℕ, suc, ◌≤◌, ◌<◌, ◌≡◌, refl, sym, ap, subst, ◌∙◌, ◌⊎◌, inl, inr, Bool, true, List, [], ◌∷◌, ◌++◌,
  arith, leb, length, length-append, append-nil, append_assoc, list_laws, filter, All, All-append,
  Bool-cases,
}
use sentinellog.Model.{LogEntry}
use sentinellog.Writer.{Writer, flush, flush_batch, add_pending, take_entry, append_guarded}

abbrev pub is_redacted : LogEntry → Bool
is_redacted e = e.redacted

-- A batch that goes to the store is not empty, not over size, and redacted throughout.
pub record IsBatch (size : ℕ) (batch : List LogEntry) : Type 0 where
  pub nonempty : 0 < length batch
  pub fits : length batch ≤ size
  pub clean : All (λ e. e.redacted ≡ true) batch

-- A writer of size `n + 1` whose pending batch has at most `room` entries.
pub record IsWriter (n room : ℕ) (w : Writer) : Type 0 where
  pub sized : w.size ≡ suc n
  pub pending : length w.batch ≤ room
  pub pending_clean : All (λ e. e.redacted ≡ true) w.batch
  pub batches : All (IsBatch (suc n)) w.flushed

-- What the store has been handed, and what is pending after it.
abbrev pub handled : Writer → List LogEntry
handled w = flatten w.flushed ++ w.batch

flatten-snoc :
    (xss : List (List LogEntry)) (xs : List LogEntry) → flatten (xss ++ xs ∷ []) ≡ flatten xss ++ xs
unfolding flatten
flatten-snoc [] xs = append-nil xs
flatten-snoc (ys ∷ xss) xs = simp (flatten-snoc xss xs, list_laws)

flush_batch-handled :
    (l : List LogEntry) (w : Writer)
    → w.batch ≡ l
    → (handled (flush_batch l w) ≡ handled w) × ((flush_batch l w).batch ≡ [])
unfolding flush_batch
flush_batch-handled [] w e = (refl, e)
flush_batch-handled (x ∷ l) w e =
    (append-nil _ ∙ flatten-snoc w.flushed (x ∷ l) ∙ ap (λ b. flatten w.flushed ++ b) (sym e), refl)

pub handled-flush : (w : Writer) → handled (flush w) ≡ handled w
unfolding flush
handled-flush w = (flush_batch-handled w.batch w refl).0

pub batch-flush : (w : Writer) → (flush w).batch ≡ []
unfolding flush
batch-flush w = (flush_batch-handled w.batch w refl).1

flush_batch-IsWriter :
    {n : ℕ} (l : List LogEntry) (w : Writer)
    → w.batch ≡ l
    → IsWriter n (suc n) w
    → IsWriter n n (flush_batch l w)
unfolding flush_batch
flush_batch-IsWriter [] w e v = record {
  sized = v.sized;
  pending = ground arith;
  pending_clean = v.pending_clean;
  batches = v.batches;
}
flush_batch-IsWriter {n} (x ∷ l) w e v = record {
  sized = v.sized;
  pending = omega arith;
  pending_clean = tt;
  batches = All-append (IsBatch (suc n)) w.flushed _ v.batches (
    record {
      nonempty = omega arith;
      fits = omega (arith, ap length e, v.pending);
      clean = subst (All (λ (y : LogEntry). y.redacted ≡ true)) e v.pending_clean;
    },
    tt,
  );
}

pub flush-IsWriter : {n : ℕ} (w : Writer) → IsWriter n (suc n) w → IsWriter n n (flush w)
unfolding flush
flush-IsWriter w v = flush_batch-IsWriter w.batch w refl v

pub weaken : {n : ℕ} (w : Writer) → IsWriter n n w → IsWriter n (suc n) w
weaken w v = record {
  sized = v.sized;
  pending = omega (arith, v.pending);
  pending_clean = v.pending_clean;
  batches = v.batches;
}

-- What `appendGuarded` adds is the entry, or nothing if it is not redacted.
append_guarded-eq :
    (batch : List LogEntry) (e : LogEntry)
    → append_guarded batch e ≡ batch ++ filter is_redacted (e ∷ [])
unfolding append_guarded
append_guarded-eq batch e = elim (Bool-cases e.redacted) [
  | inl clean ↦ simp clean
  | inr raw ↦ simp (raw, list_laws)
]

handled-add_pending :
    (w : Writer) (e : LogEntry)
    → handled (add_pending w e) ≡ handled w ++ filter is_redacted (e ∷ [])
unfolding add_pending
handled-add_pending w e =
    ap (λ b. flatten w.flushed ++ b) (append_guarded-eq w.batch e)
    ∙ sym (append_assoc (flatten w.flushed) w.batch _)

add_pending-IsWriter :
    {n : ℕ} (w : Writer) (e : LogEntry) → IsWriter n n w → IsWriter n (suc n) (add_pending w e)
unfolding add_pending
add_pending-IsWriter w e v = elim (Bool-cases e.redacted) [
  | inr raw ↦ simp raw (weaken w v)
  | inl clean ↦ simp clean (record {
    sized = v.sized;
    pending = omega (arith, length-append w.batch (e ∷ []), v.pending);
    pending_clean =
        All-append (λ (y : LogEntry). y.redacted ≡ true) w.batch _ v.pending_clean (clean, tt);
    batches = v.batches;
  })
]

-- The two outcomes of the size test after an append.
take_entry-cases :
    {n : ℕ} (w : Writer) (e : LogEntry)
    → IsWriter n n w
    → (take_entry w e ≡ flush (add_pending w e))
      ⊎ ((take_entry w e ≡ add_pending w e) × (length (add_pending w e).batch ≤ n))
unfolding take_entry
take_entry-cases w e v = elim (Bool-cases (leb w.size (length (add_pending w e).batch))) [
  | inl over ↦ inl (simp over)
  | inr under ↦ inr (simp under, ground (arith, v.sized))
]

pub handled-take_entry :
    {n : ℕ} (w : Writer) (e : LogEntry)
    → IsWriter n n w
    → handled (take_entry w e) ≡ handled w ++ filter is_redacted (e ∷ [])
handled-take_entry w e v = elim (take_entry-cases w e v) [
  | inl over ↦ ap handled over ∙ handled-flush _ ∙ handled-add_pending w e
  | inr (under, _) ↦ ap handled under ∙ handled-add_pending w e
]

pub take_entry-IsWriter :
    {n : ℕ} (w : Writer) (e : LogEntry) → IsWriter n n w → IsWriter n n (take_entry w e)
take_entry-IsWriter {n} w e v =
    let added : IsWriter n (suc n) (add_pending w e) = add_pending-IsWriter w e v in
    elim (take_entry-cases w e v) [
      | inl over ↦ subst (IsWriter n n) (sym over) (flush-IsWriter (add_pending w e) added)
      | inr (under, short) ↦ subst (IsWriter n n) (sym under) (record {
        sized = added.sized;
        pending = short;
        pending_clean = added.pending_clean;
        batches = added.batches;
      })
    ]
