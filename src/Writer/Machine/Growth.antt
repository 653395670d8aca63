-- ===== src/Writer/Machine/Growth.antt =====
-- What a step of the writer or of the shutdown adds and takes.
use sentinellog.Prelude.{
  ◌≡◌, ◌⊎◌, refl, sym, subst, ◌∙◌, inl, inr, Bool-cases, leb, length, List, [], ◌∷◌, ◌++◌,
  append-nil,
}
use sentinellog.Model.{LogEntry}
use sentinellog.Buffer.{close, receive_item, publish-cases}
use sentinellog.Writer.{Writer, flush, flush_batch, add_pending, take_entry}
use sentinellog.Writer.Machine.{
  System, Step, offer, offer-eq, note_accepted, receive_entry, finish, offered, cancel, close_input,
  received, input_ended, ticked, shutdown, drained,
}

-- A step of the writer, of the signal or of the shutdown, but no publish.
abbrev pub IsInternal : {s t : System} → Step s t → Type 0
IsInternal (offered e eq) = ⊥
IsInternal (cancel eq) = Unit
IsInternal (close_input eq) = Unit
IsInternal (received e b live got eq) = Unit
IsInternal (input_ended live got eq) = Unit
IsInternal (ticked live eq) = Unit
IsInternal (shutdown live stop eq) = Unit
IsInternal (drained live got eq) = Unit

-- Batches are added to those handed over, and entries taken from the front of the queue.
pub record Grown (s t : System) : Type 0 where
  pub extra : List (List LogEntry)
  pub taken : List LogEntry
  pub handed : t.writer.flushed ≡ s.writer.flushed ++ extra
  pub shortened : s.buffer.queue ≡ taken ++ t.buffer.queue
  pub same_accepted : t.accepted ≡ s.accepted

abbrev Extends : Writer → Writer → Type 0
Extends w w' = (extra : List (List LogEntry)) × (w'.flushed ≡ w.flushed ++ extra)

flush_batch-Extends : (l : List LogEntry) (w : Writer) → Extends w (flush_batch l w)
unfolding flush_batch
flush_batch-Extends [] w = ([], sym (append-nil w.flushed))
flush_batch-Extends (e ∷ l) w = ((e ∷ l) ∷ [], refl)

flush-Extends : (w : Writer) → Extends w (flush w)
unfolding flush
flush-Extends w = flush_batch-Extends w.batch w

take_entry-Extends : (w : Writer) (e : LogEntry) → Extends w (take_entry w e)
unfolding take_entry add_pending
take_entry-Extends w e =
    let w' : Writer = add_pending w e in
    elim (Bool-cases (leb w.size (length w'.batch))) [
      | inl over ↦ simp over (flush-Extends w')
      | inr under ↦ simp under ([], sym (append-nil w.flushed))
    ]

-- A step after which the system `t` has the batches, the queue and the accepted entries of `s`.
still-Grown :
    (s t : System)
    → t.writer.flushed ≡ s.writer.flushed
    → t.buffer.queue ≡ s.buffer.queue
    → t.accepted ≡ s.accepted
    → Grown s t
still-Grown s t f q a = record {
  extra = [];
  taken = [];
  handed = f ∙ sym (append-nil s.writer.flushed);
  shortened = sym q;
  same_accepted = a;
}

flush-Grown : (s : System) → Grown s (record s { writer = flush s.writer })
flush-Grown s =
    let (extra, handed) = flush-Extends s.writer in
    record { extra = extra; taken = []; handed = handed; shortened = refl; same_accepted = refl }

finish-Grown : (s : System) → Grown s (finish s)
unfolding finish
finish-Grown s =
    let (extra, handed) = flush-Extends s.writer in
    record { extra = extra; taken = []; handed = handed; shortened = refl; same_accepted = refl }

-- A step that is no publish only adds batches to those handed over and takes entries from the front
-- of the queue.
pub Step-Grown : {s t : System} (step : Step s t) → IsInternal step → Grown s t
unfolding receive_entry finish close
Step-Grown (offered e eq) i = absurd i
Step-Grown {s} (cancel eq) i = subst (Grown s) (sym eq) (still-Grown s _ refl refl refl)
Step-Grown {s} (close_input eq) i = subst (Grown s) (sym eq) (still-Grown s _ refl refl refl)
Step-Grown {s} (received e b live got eq) i =
    let (extra, handed) = take_entry-Extends s.writer e in
    subst (Grown s) (sym eq) (record {
      extra = extra;
      taken = e ∷ [];
      handed = handed;
      shortened = (receive_item s.buffer b e got).0;
      same_accepted = refl;
    })
Step-Grown {s} (input_ended live got eq) i = subst (Grown s) (sym eq) (finish-Grown s)
Step-Grown {s} (ticked live eq) i = subst (Grown s) (sym eq) (flush-Grown s)
Step-Grown {s} (shutdown live stop eq) i = subst (Grown s) (sym eq) (still-Grown s _ refl refl refl)
Step-Grown {s} (drained live got eq) i = subst (Grown s) (sym eq) (finish-Grown s)

-- A publish puts the entry at the end of the queue and notes it, or leaves both.
abbrev pub Offered : System → LogEntry → System → Type 0
Offered s e t =
    (t.writer ≡ s.writer)
    × (((t.accepted ≡ s.accepted ++ e ∷ []) × (t.buffer.queue ≡ s.buffer.queue ++ e ∷ []))
        ⊎ ((t.accepted ≡ s.accepted) × (t.buffer.queue ≡ s.buffer.queue)))

pub offer-Offered : (s : System) (e : LogEntry) → Offered s e (offer s e)
unfolding note_accepted
offer-Offered s e = elim (publish-cases s.buffer e) [
  | inl (open_, done) ↦ subst (Offered s e) (sym (offer-eq s e done)) (refl, inl (refl, refl))
  | inr (inl done) ↦ subst (Offered s e) (sym (offer-eq s e done)) (refl, inr (refl, refl))
  | inr (inr done) ↦ subst (Offered s e) (sym (offer-eq s e done)) (refl, inr (refl, refl))
]
