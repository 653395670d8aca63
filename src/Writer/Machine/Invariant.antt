-- ===== src/Writer/Machine/Invariant.antt =====
-- What holds of the writer in every reachable state.
use sentinellog.Prelude.{
  ℕ, ◌≡◌, refl, sym, ap, subst, ◌∙◌, ◌⊎◌, inl, inr, true, [], ◌∷◌, ◌++◌, arith, append_assoc,
  list_laws, filter, filter-append,
}
use sentinellog.Model.{LogEntry}
use sentinellog.Buffer.{Buffer, close, receive, item, publish-cases, receive_item, receive_ended}
use sentinellog.Writer.{flush}
use sentinellog.Writer.Batches.{
  is_redacted, handled, IsWriter, weaken, handled-flush, batch-flush, flush-IsWriter,
  handled-take_entry, take_entry-IsWriter,
}
use sentinellog.Writer.Machine.{
  System, draining, stopped, IsLive, Step, Reach, offer, offer-eq, finish, receive_entry,
  note_accepted, offered, cancel, close_input, received, input_ended, ticked, shutdown, drained,
}

-- The states that the whole system reaches: nothing accepted and redacted is lost or repeated
-- between the producers, the queue, the pending batch and the store.
pub record Inv (n : ℕ) (s : System) : Type 0 where
  pub writer : IsWriter n n s.writer
  pub conserved :
      filter is_redacted s.accepted ≡ handled s.writer ++ filter is_redacted s.buffer.queue
  pub stopped_idle : s.phase ≡ stopped → s.writer.batch ≡ []
  pub stopped_why :
      s.phase ≡ stopped → (s.cancelled ≡ true) ⊎ ((s.buffer.closed ≡ true) × (s.buffer.queue ≡ []))
  pub draining_why : s.phase ≡ draining → s.cancelled ≡ true

offer-Inv : {n : ℕ} (s : System) (e : LogEntry) → Inv n s → Inv n (offer s e)
unfolding note_accepted
offer-Inv {n} s e v = elim (publish-cases s.buffer e) [
  | inl (open_, done) ↦ subst (Inv n) (sym (offer-eq s e done)) (record {
    writer = v.writer;
    conserved = simp (v.conserved, list_laws);
    stopped_idle = v.stopped_idle;
    stopped_why = λ h. ground (arith, v.stopped_why h);
    draining_why = v.draining_why;
  })
  | inr (inl done) ↦ subst (Inv n) (sym (offer-eq s e done)) (record {
    writer = v.writer;
    conserved = v.conserved;
    stopped_idle = v.stopped_idle;
    stopped_why = v.stopped_why;
    draining_why = v.draining_why;
  })
  | inr (inr done) ↦ subst (Inv n) (sym (offer-eq s e done)) v
]

receive_entry-Inv :
    {n : ℕ} (s : System) (e : LogEntry) (b : Buffer)
    → IsLive s.phase
    → receive s.buffer ≡ item e b
    → Inv n s
    → Inv n (receive_entry s e b)
unfolding receive_entry
receive_entry-Inv s e b live got v =
    let (oldest, same) = receive_item s.buffer b e got in
    record {
      writer = take_entry-IsWriter s.writer e v.writer;
      conserved =
          v.conserved
          ∙ ap (λ q. handled s.writer ++ filter is_redacted q) oldest
          ∙ ap (λ q. handled s.writer ++ q) (filter-append is_redacted (e ∷ []) b.queue)
          ∙ sym (append_assoc (handled s.writer) (filter is_redacted (e ∷ [])) _)
          ∙ ap (λ h. h ++ filter is_redacted b.queue)
              (sym (handled-take_entry s.writer e v.writer));
      stopped_idle = λ h. ground arith;
      stopped_why = λ h. ground arith;
      draining_why = v.draining_why;
    }

finish-Inv :
    {n : ℕ} (s : System)
    → (s.cancelled ≡ true) ⊎ ((s.buffer.closed ≡ true) × (s.buffer.queue ≡ []))
    → Inv n s
    → Inv n (finish s)
unfolding finish
finish-Inv s why v = record {
  writer = flush-IsWriter s.writer (weaken s.writer v.writer);
  conserved =
      v.conserved ∙ ap (λ h. h ++ filter is_redacted s.buffer.queue) (sym (handled-flush s.writer));
  stopped_idle = λ h. batch-flush s.writer;
  stopped_why = λ h. why;
  draining_why = λ h. ground arith;
}

flush-Inv : {n : ℕ} (s : System) → Inv n s → Inv n (record s { writer = flush s.writer })
flush-Inv s v = record {
  writer = flush-IsWriter s.writer (weaken s.writer v.writer);
  conserved =
      v.conserved ∙ ap (λ h. h ++ filter is_redacted s.buffer.queue) (sym (handled-flush s.writer));
  stopped_idle = λ h. batch-flush s.writer;
  stopped_why = v.stopped_why;
  draining_why = v.draining_why;
}

-- Every step of the system, whatever is scheduled, keeps the invariant.
pub Step-Inv : {n : ℕ} {s u : System} → Step s u → Inv n s → Inv n u
unfolding close
Step-Inv {n} {s} (offered e eq) v = subst (Inv n) (sym eq) (offer-Inv s e v)
Step-Inv {n} (cancel eq) v = subst (Inv n) (sym eq) (record {
  writer = v.writer;
  conserved = v.conserved;
  stopped_idle = v.stopped_idle;
  stopped_why = λ h. inl refl;
  draining_why = λ h. refl;
})
Step-Inv {n} (close_input eq) v = subst (Inv n) (sym eq) (record {
  writer = v.writer;
  conserved = v.conserved;
  stopped_idle = v.stopped_idle;
  stopped_why = λ h. ground (arith, v.stopped_why h);
  draining_why = v.draining_why;
})
Step-Inv {n} {s} (received e b live got eq) v =
    subst (Inv n) (sym eq) (receive_entry-Inv s e b live got v)
Step-Inv {n} {s} (input_ended live got eq) v =
    let (empty, closed) = receive_ended s.buffer got in
    subst (Inv n) (sym eq) (finish-Inv s (inr (closed, empty)) v)
Step-Inv {n} {s} (ticked live eq) v = subst (Inv n) (sym eq) (flush-Inv s v)
Step-Inv {n} (shutdown live stop eq) v = subst (Inv n) (sym eq) (record {
  writer = v.writer;
  conserved = v.conserved;
  stopped_idle = λ h. ground arith;
  stopped_why = λ h. inl stop;
  draining_why = λ h. stop;
})
Step-Inv {n} {s} (drained live got eq) v =
    subst (Inv n) (sym eq) (finish-Inv s (inl (v.draining_why live)) v)

-- In every reachable state each accepted and redacted entry stands exactly once, in order, in what
-- the store was handed, the pending batch or the queue; each batch handed over is redacted, not
-- empty and at most of the configured size.
pub Reach-Inv : {n : ℕ} {s u : System} → Inv n s → Reach s u → Inv n u
Reach-Inv v Reach.here = v
Reach-Inv v (Reach.next r st) = Step-Inv st (Reach-Inv v r)
