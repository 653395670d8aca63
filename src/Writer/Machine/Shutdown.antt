-- ===== src/Writer/Machine/Shutdown.antt =====
-- The end of `Run`: what the store has when the writer has returned.
use mathlib.Core.List.{flatten}
use sentinellog.Prelude.{
  ℕ, ◌<◌, ◌≡◌, inl, inr, refl, sym, ap, ◌∙◌, true, false, List, [], ◌∷◌, ◌++◌, arith, append-nil,
  filter,
}
use sentinellog.Model.{LogEntry}
use sentinellog.Writer.Machine.Growth.{offer-Offered}
use sentinellog.Buffer.{close, receive, not_ready, receive_not_ready, publish_sent}
use sentinellog.Writer.Machine.{
  System, running, draining, stopped, Step, Reach, here, next, offer, offer-eq, finish, offered,
  cancel, note_accepted, close_input, received, input_ended, ticked, shutdown, drained,
}
use sentinellog.Writer.Batches.{is_redacted, handled, handled-flush, batch-flush}
use sentinellog.Writer.Machine.Invariant.{Inv, Reach-Inv}

-- Everything that the store was handed, in order.
abbrev pub stored : System → List LogEntry
stored s = flatten s.writer.flushed

pub stored-eq :
    {n : ℕ} (s : System)
    → Inv n s
    → s.phase ≡ stopped
    → filter is_redacted s.accepted ≡ stored s ++ filter is_redacted s.buffer.queue
stored-eq s v h =
    v.conserved
    ∙ ap (λ b. (stored s ++ b) ++ filter is_redacted s.buffer.queue) (v.stopped_idle h)
    ∙ ap (λ l. l ++ filter is_redacted s.buffer.queue) (append-nil (stored s))

-- If the writer returned because its input was closed, and not because of the cancelled context,
-- the store was handed every accepted and redacted entry, in the order of acceptance.
pub stopped_by_close :
    {n : ℕ} {s u : System}
    → Inv n s
    → Reach s u
    → u.phase ≡ stopped
    → u.cancelled ≡ false
    → stored u ≡ filter is_redacted u.accepted
stopped_by_close {n} {u = u} v r h live =
    let w : Inv n u = Reach-Inv v r in
    let empty : u.buffer.queue ≡ [] = ground (arith, w.stopped_why h) in
    sym (stored-eq u w h ∙ ap (λ q. stored u ++ filter is_redacted q) empty ∙ append-nil (stored u))

-- The shutdown that cancels, finds the buffer empty, and returns.
draining_state : System → System
draining_state s = record s { cancelled = true; phase = draining }

finished_state : System → System
unfolding draining_state
finished_state s = finish (draining_state s)

finished_state-Reach :
    (s : System) → s.phase ≡ running → receive s.buffer ≡ not_ready → Reach s (finished_state s)
unfolding finished_state
finished_state-Reach s live idle =
    next (next (next here (cancel refl)) (shutdown live refl refl)) (drained refl idle refl)

-- One step out of a stopped state.
Step-stopped :
    {s u : System} → Step s u → s.phase ≡ stopped → (u.phase ≡ stopped) × (stored u ≡ stored s)
unfolding offer
Step-stopped (offered e eq) h = (ap (λ (v : System). v.phase) eq ∙ h, ap stored eq)
Step-stopped (cancel eq) h = (ap (λ (v : System). v.phase) eq ∙ h, ap stored eq)
Step-stopped (close_input eq) h = (ap (λ (v : System). v.phase) eq ∙ h, ap stored eq)
Step-stopped (received e b live got eq) h = absurd (ground arith)
Step-stopped (input_ended live got eq) h = absurd (ground arith)
Step-stopped (ticked live eq) h = absurd (ground arith)
Step-stopped (shutdown live stop eq) h = absurd (ground arith)
Step-stopped (drained live got eq) h = absurd (ground arith)

-- A stopped writer stays stopped and hands nothing more to the store, whatever follows.
pub stopped_for_good :
    {s u : System} → s.phase ≡ stopped → Reach s u → (u.phase ≡ stopped) × (stored u ≡ stored s)
stopped_for_good h here = (h, refl)
stopped_for_good h (next r st) =
    let (still, same) = stopped_for_good h r in
    let (phase, handed) = Step-stopped st still in (phase, handed ∙ same)

-- A stopped writer takes nothing from the queue.
Step-queue_kept :
    {s u : System}
    → Step s u
    → s.phase ≡ stopped
    → (more : List LogEntry) × (u.buffer.queue ≡ s.buffer.queue ++ more)
unfolding close
Step-queue_kept {s} (offered e eq) h =
    let (w, outcome) = offer-Offered s e in
    elim outcome [
      | inl (a, q) ↦ (e ∷ [], ap (λ (v : System). v.buffer.queue) eq ∙ q)
      | inr (a, q) ↦
          ([], ap (λ (v : System). v.buffer.queue) eq ∙ q ∙ sym (append-nil s.buffer.queue))
    ]
Step-queue_kept {s} (cancel eq) h =
    ([], ap (λ (v : System). v.buffer.queue) eq ∙ sym (append-nil s.buffer.queue))
Step-queue_kept {s} (close_input eq) h =
    ([], ap (λ (v : System). v.buffer.queue) eq ∙ sym (append-nil s.buffer.queue))
Step-queue_kept (received e b live got eq) h = absurd (ground arith)
Step-queue_kept (input_ended live got eq) h = absurd (ground arith)
Step-queue_kept (ticked live eq) h = absurd (ground arith)
Step-queue_kept (shutdown live stop eq) h = absurd (ground arith)
Step-queue_kept (drained live got eq) h = absurd (ground arith)

queue_kept :
    {s u : System}
    → s.phase ≡ stopped
    → Reach s u
    → (e : LogEntry) (rest : List LogEntry) → s.buffer.queue ≡ e ∷ rest
    → (more : List LogEntry) × (u.buffer.queue ≡ e ∷ more)
queue_kept h here e rest q = (rest, q)
queue_kept h (next r st) e rest q =
    let (more, p) = queue_kept h r e rest q in
    let (extra, p') = Step-queue_kept st (stopped_for_good h r).0 in
    (more ++ extra, p' ∙ ap (λ l. l ++ extra) p)

-- Once the context is cancelled the writer may return as soon as the buffer is empty, while the
-- buffer is still open. From a state in which it runs and finds the buffer empty, whose capacity is
-- positive, a run leads to a state in which it has returned and an entry has been accepted after
-- that; and that entry never leaves the queue of the channel: in every state reached from there the
-- writer has still returned, the queue still starts with the entry, and all that the store was handed
-- is what the writer had handed over or held before, although the producer was told that the entry
-- was accepted.
pub accepted_lost :
    (s : System) (e : LogEntry)
    → s.phase ≡ running
    → receive s.buffer ≡ not_ready
    → 0 < s.buffer.capacity
    → (u : System) × Reach s u
      × (u.accepted ≡ s.accepted ++ e ∷ [])
      × ((v : System)
          → Reach u v
          → (v.phase ≡ stopped)
            × ((more : List LogEntry) × (v.buffer.queue ≡ e ∷ more))
            × (stored v ≡ handled s.writer))
unfolding finished_state finish note_accepted
accepted_lost s e live idle room =
    let (empty, open_) = receive_not_ready s.buffer idle in
    let f : System = finished_state s in
    let eq = offer-eq f e (publish_sent s.buffer e open_ (rw empty room)) in
    let queue : (offer f e).buffer.queue ≡ e ∷ [] =
      ap (λ (u : System). u.buffer.queue) eq ∙ ap (λ q. q ++ e ∷ []) empty in
    let same : stored (offer f e) ≡ handled s.writer =
      ap stored eq
      ∙ sym (append-nil (stored f))
      ∙ ap (λ b. stored f ++ b) (sym (batch-flush s.writer))
      ∙ handled-flush s.writer in
    (
      offer f e,
      next (finished_state-Reach s live idle) (offered e refl),
      ap (λ (u : System). u.accepted) eq,
      λ v r.
          let phase = ap (λ (u : System). u.phase) eq in
          let (still, handed) = stopped_for_good phase r in
          (still, queue_kept phase r e [] queue, handed ∙ same),
    )
