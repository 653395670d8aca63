-- ===== src/Writer.antt =====
-- internal/writer: the batch writer between the buffer and the store.
pub mod Batches
pub mod Machine
use sentinellog.Prelude.{
  ℕ, ◌≤◌, ◌<◌, ◌≡◌, Bool, true, false, not, List, [], ◌∷◌, ◌++◌, leb, if◌then◌else◌, length,
}
use sentinellog.Model.{LogEntry}

-- The variables of `Run`: the pending batch, and the batches that it has handed to `WriteBatch`,
-- oldest first.
pub record Writer : Type 0 where
  pub size : ℕ
  pub batch : List LogEntry
  pub flushed : List (List LogEntry)

unfoldable pub append_guarded : List LogEntry → LogEntry → List LogEntry
append_guarded batch e = if not e.redacted then batch else batch ++ e ∷ []

flush_batch : List LogEntry → Writer → Writer
flush_batch [] w = w
flush_batch (e ∷ rest) w = record w { batch = []; flushed = w.flushed ++ (e ∷ rest) ∷ [] }

-- The closure `flush`. An error of the store is logged and the batch dropped all the same.
unfoldable pub flush : Writer → Writer
unfolding flush_batch
flush w = flush_batch w.batch w

-- `batch = w.appendGuarded(batch, e)`
add_pending : Writer → LogEntry → Writer
unfolding append_guarded
add_pending w e = record w { batch = append_guarded w.batch e }

-- What the loop does with an entry that it has received.
unfoldable pub take_entry : Writer → LogEntry → Writer
unfolding add_pending flush
take_entry w e = let w' = add_pending w e in if leb w.size (length w'.batch) then flush w' else w'
