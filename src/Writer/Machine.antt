-- ===== src/Writer/Machine.antt =====
-- `BatchWriter.Run` beside the producers, the ticker and the shutdown: a step relation, in which
-- the scheduler chooses among the cases of each `select` that are ready.
pub mod Growth
pub mod Drain
pub mod Capacity
pub mod Invariant
pub mod Shutdown
use sentinellog.Prelude.{ℕ, ◌+◌, ◌<◌, ◌≡◌, ◌⊎◌, Bool, true, false, List, [], ◌∷◌, ◌++◌, ap}
use sentinellog.Model.{LogEntry}
use sentinellog.Buffer.{
  Buffer, Outcome, sent, full, panicked, Receive, item, ended, not_ready, publish, close, receive,
}
use sentinellog.Writer.{Writer, flush, take_entry}

-- The outer `select`, the `select` after `ctx.Done()`, and the return.
pub data Phase : Type 0 where
  running draining stopped : Phase

pub record System : Type 0 where
  pub writer : Writer
  pub buffer : Buffer
  pub cancelled : Bool  -- ctx.Done() is ready
  pub phase : Phase
  pub accepted : List LogEntry  -- every entry whose `Publish` returned nil, oldest first

unfoldable pub note_accepted : List LogEntry → LogEntry → Outcome → List LogEntry
note_accepted accepted e sent = accepted ++ e ∷ []
note_accepted accepted e full = accepted
note_accepted accepted e panicked = accepted

-- A producer's call of `Publish`.
unfoldable pub offer : System → LogEntry → System
unfolding note_accepted
offer s e =
    let (b, outcome) = publish s.buffer e in
    record s { buffer = b; accepted = note_accepted s.accepted e outcome }

pub offer-eq :
    (s : System) (e : LogEntry) {b : Buffer} {outcome : Outcome}
    → publish s.buffer e ≡ (b, outcome)
    → offer s e ≡ record s { buffer = b; accepted = note_accepted s.accepted e outcome }
unfolding offer
offer-eq s e h =
    ap
      (λ (r : Buffer × Outcome). record s {
        buffer = r.0;
        accepted = note_accepted s.accepted e r.1;
      })
      h

-- The writer has the entry `e`, and the buffer is left as `b`.
unfoldable pub receive_entry : System → LogEntry → Buffer → System
receive_entry s e b = record s { writer = take_entry s.writer e; buffer = b }

-- `flush(); return`
unfoldable pub finish : System → System
finish s = record s { writer = flush s.writer; phase = stopped }

abbrev pub IsLive : Phase → Type 0
IsLive p = (p ≡ running) ⊎ (p ≡ draining)

pub data Step (s u : System) : Type 0 where
  -- the environment
  offered : (e : LogEntry) → u ≡ offer s e → Step s u
  cancel : u ≡ record s { cancelled = true } → Step s u
  close_input : u ≡ record s { buffer = close s.buffer } → Step s u
  -- the cases of the two loops
  received :
      (e : LogEntry) (b : Buffer)
      → IsLive s.phase
      → receive s.buffer ≡ item e b
      → u ≡ receive_entry s e b
      → Step s u
  input_ended : IsLive s.phase → receive s.buffer ≡ ended → u ≡ finish s → Step s u
  ticked : s.phase ≡ running → u ≡ record s { writer = flush s.writer } → Step s u
  shutdown : s.phase ≡ running → s.cancelled ≡ true → u ≡ record s { phase = draining } → Step s u
  drained : s.phase ≡ draining → receive s.buffer ≡ not_ready → u ≡ finish s → Step s u

pub data Reach (s : System) : System → Type 0 where
  here : Reach s s
  next : {t u : System} → Reach s t → Step t u → Reach s u
