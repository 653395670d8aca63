-- ===== src/Writer/Machine/Drain.antt =====
-- The inner loop of `Run`, after the context is cancelled: how many rounds it can take.
use sentinellog.Prelude.{
  ℕ, suc, ◌+◌, ◌≤◌, ◌≡◌, ◌⊎◌, inl, inr, refl, sym, ap, ◌∙◌, [], ◌∷◌, ◌++◌, true, subst, length,
  length-append, arith, append-nil, filter,
}
use sentinellog.Model.{LogEntry}
use sentinellog.Buffer.{
  publish-cases, Receive, item, ended, not_ready, close, receive, receive_item, receive_ended,
  receive_not_ready,
}
use sentinellog.Writer.Machine.{
  System, draining, stopped, Step, Reach, here, next, IsLive, note_accepted, offer, offer-eq,
  finish, receive_entry, offered, cancel, close_input, received, input_ended, ticked, shutdown,
  drained,
}
use sentinellog.Writer.Batches.{is_redacted}
use sentinellog.Writer.Machine.Invariant.{Inv, Reach-Inv}
use sentinellog.Writer.Machine.Shutdown.{stored, stored-eq}

-- A round of one of the two loops of the writer.
abbrev pub IsOwn : {s t : System} → Step s t → Type 0
IsOwn (offered e eq) = ⊥
IsOwn (cancel eq) = ⊥
IsOwn (close_input eq) = ⊥
IsOwn (received e b live got eq) = Unit
IsOwn (input_ended live got eq) = Unit
IsOwn (ticked live eq) = Unit
IsOwn (shutdown live stop eq) = Unit
IsOwn (drained live got eq) = Unit

-- Steps of the system from `s`, of which `k` are the writer's own and `p` are publishes.
pub data Trace (s : System) : ℕ → ℕ → System → Type 0 where
  start : Trace s 0 0 s
  own :
      {k p : ℕ} {t u : System}
      → Trace s k p t
      → (step : Step t u) → IsOwn step
      → Trace s (suc k) p u
  published :
      {k p : ℕ} {t : System} → Trace s k p t → (e : LogEntry) → Trace s k (suc p) (offer t e)
  cancelled : {k p : ℕ} {t : System} → Trace s k p t → Trace s k p (record t { cancelled = true })
  closed :
      {k p : ℕ} {t : System} → Trace s k p t → Trace s k p (record t { buffer = close t.buffer })

Trace-Reach : {s u : System} {k p : ℕ} → Trace s k p u → Reach s u
Trace-Reach start = here
Trace-Reach (own before step i) = next (Trace-Reach before) step
Trace-Reach (published before e) = next (Trace-Reach before) (offered e refl)
Trace-Reach (cancelled before) = next (Trace-Reach before) (cancel refl)
Trace-Reach (closed before) = next (Trace-Reach before) (close_input refl)

-- Where the inner loop is after `k` rounds and `p` publishes, with `m` entries queued at first.
abbrev Progress : ℕ → ℕ → ℕ → System → Type 0
Progress m k p u =
    ((u.phase ≡ draining) × (k + length u.buffer.queue ≤ m + p))
    ⊎ ((u.phase ≡ stopped) × (k ≤ m + p + 1) × (p ≡ 0 → u.buffer.queue ≡ []))

-- A loop that still runs is the inner one.
live-draining :
    (m k p : ℕ) (t : System)
    → IsLive t.phase
    → Progress m k p t
    → (t.phase ≡ draining) × (k + length t.buffer.queue ≤ m + p)
live-draining m k p t live (inl h) = h
live-draining m k p t (inl live) (inr (h, _, _)) = absurd (ground (arith, live, h))
live-draining m k p t (inr live) (inr (h, _, _)) = absurd (ground (arith, live, h))

finish-Progress :
    (m k p : ℕ) (t : System)
    → t.buffer.queue ≡ []
    → k + length t.buffer.queue ≤ m + p
    → Progress m (suc k) p (finish t)
unfolding finish
finish-Progress m k p t empty bound = inr (refl, omega (arith, bound), λ none_new. empty)

own-Progress :
    (m k p : ℕ) {t u : System} (step : Step t u)
    → IsOwn step
    → Progress m k p t
    → Progress m (suc k) p u
unfolding receive_entry
own-Progress m k p (offered e eq) i h = absurd i
own-Progress m k p (cancel eq) i h = absurd i
own-Progress m k p (close_input eq) i h = absurd i
own-Progress m k p {t} {u} (received e b live got eq) i h =
    let (phase, bound) = live-draining m k p t live h in
    let (queue, same) = receive_item t.buffer b e got in
    let shorter : length t.buffer.queue ≡ suc (length b.queue) = ap length queue in
    subst (Progress m (suc k) p) (sym eq) (inl (phase, omega (arith, bound, shorter)))
own-Progress m k p {t} (input_ended live got eq) i h =
    let (phase, bound) = live-draining m k p t live h in
    subst (Progress m (suc k) p) (sym eq)
      (finish-Progress m k p t (receive_ended t.buffer got).0 bound)
own-Progress m k p {t} (ticked live eq) i h =
    absurd (ground (arith, live, (live-draining m k p t (inl live) h).0))
own-Progress m k p {t} (shutdown live stop eq) i h =
    absurd (ground (arith, live, (live-draining m k p t (inl live) h).0))
own-Progress m k p {t} (drained live got eq) i h =
    let (phase, bound) = live-draining m k p t (inr live) h in
    subst (Progress m (suc k) p) (sym eq)
      (finish-Progress m k p t (receive_not_ready t.buffer got).0 bound)

still-Progress : (m k p : ℕ) (t : System) → Progress m k p t → Progress m k (suc p) t
still-Progress m k p t (inl (phase, bound)) = inl (phase, omega (arith, bound))
still-Progress m k p t (inr (phase, bound, empty)) =
    inr (phase, omega (arith, bound), λ none_new. absurd (omega (arith, none_new)))

published-Progress :
    (m k p : ℕ) (t : System) (e : LogEntry) → Progress m k p t → Progress m k (suc p) (offer t e)
unfolding note_accepted
published-Progress m k p t e h = elim (publish-cases t.buffer e) [
  | inl (_, done) ↦ subst (Progress m k (suc p)) (sym (offer-eq t e done)) (elim h [
    | inl (phase, bound) ↦ inl (phase, omega (arith, bound, length-append t.buffer.queue (e ∷ [])))
    | inr (phase, bound, empty) ↦
        inr (phase, omega (arith, bound), λ none_new. absurd (omega (arith, none_new)))
  ])
  | inr (inl done) ↦
      subst (Progress m k (suc p)) (sym (offer-eq t e done)) (still-Progress m k p t h)
  | inr (inr done) ↦
      subst (Progress m k (suc p)) (sym (offer-eq t e done)) (still-Progress m k p t h)
]

Trace-Progress :
    {s u : System} {k p : ℕ}
    → s.phase ≡ draining
    → Trace s k p u
    → Progress (length s.buffer.queue) k p u
unfolding close
Trace-Progress h start = inl (h, omega arith)
Trace-Progress h (own before step i) = own-Progress _ _ _ step i (Trace-Progress h before)
Trace-Progress h (published {t} before e) = published-Progress _ _ _ t e (Trace-Progress h before)
Trace-Progress h (cancelled before) = Trace-Progress h before
Trace-Progress h (closed before) = Trace-Progress h before

next_round :
    (u : System) (r : Receive)
    → u.phase ≡ draining
    → receive u.buffer ≡ r
    → (v : System) × (step : Step u v) × IsOwn step
next_round u (item e b) live got = (receive_entry u e b, received e b (inr live) got refl, tt)
next_round u ended live got = (finish u, input_ended (inr live) got refl, tt)
next_round u not_ready live got = (finish u, drained live got refl, tt)

-- In the inner loop a round is always possible.
next-IsOwn : (u : System) → u.phase ≡ draining → (v : System) × (step : Step u v) × IsOwn step
next-IsOwn u live = next_round u (receive u.buffer) live refl

-- The drain ends. From a state that meets the writer's invariant and in which it is in its inner
-- loop, whatever the other goroutines do, the writer makes at most one round for each entry that was
-- queued then, one for each publish since, and one to return; until it has returned its next round is
-- possible. If nothing was published meanwhile, the store has then been handed every accepted and
-- redacted entry.
pub drain_ends :
    {n k p : ℕ} {s u : System}
    → Inv n s
    → s.phase ≡ draining
    → Trace s k p u
    → (k ≤ length s.buffer.queue + p + 1)
      × (((v : System) × (step : Step u v) × IsOwn step)
          ⊎ ((u.phase ≡ stopped) × (p ≡ 0 → stored u ≡ filter is_redacted u.accepted)))
drain_ends {n} {k} {p} {s} {u} v h trace = elim (Trace-Progress h trace) [
  | inl (live, bound) ↦ (omega (arith, bound), inl (next-IsOwn u live))
  | inr (done, bound, empty) ↦ (
    bound,
    inr (
      done,
      λ none_new. sym (
          stored-eq u (Reach-Inv v (Trace-Reach trace)) done
          ∙ ap (λ q. stored u ++ filter is_redacted q) (empty none_new)
          ∙ append-nil (stored u)),
    ),
  )
]
