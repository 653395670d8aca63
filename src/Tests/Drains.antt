-- ===== src/Tests/Drains.antt =====
-- The writer after the signal.
use sentinellog.Prelude.{
  ℕ, ◌+◌, ◌≤◌, ◌≡◌, ◌⊎◌, inl, inr, refl, true, false, [], ◌∷◌, filter, length, arith,
}
use sentinellog.Buffer.{Buffer, receive}
use sentinellog.Writer.Batches.{is_redacted}
use sentinellog.Writer.Machine.{
  System, draining, stopped, Step, receive_entry, finish, received, drained,
}
use sentinellog.Writer.Machine.Invariant.{Inv}
use sentinellog.Writer.Machine.Shutdown.{stored}
use sentinellog.Writer.Machine.Drain.{IsOwn, Trace, own, start, drain_ends}
use sentinellog.Tests.Fixtures.{failed}

abbrev open_buffer : Buffer
open_buffer = record { queue = failed ∷ []; capacity = 2; closed = false; accepted = 1; shed = 0 }

abbrev s0 : System
s0 = record {
  writer = record { size = 2; batch = []; flushed = [] };
  buffer = open_buffer;
  cancelled = true;
  phase = draining;
  accepted = failed ∷ [];
}

s0-Inv : Inv 1 s0
unfolding mathlib.Core.List.flatten
s0-Inv = record {
  writer = record { sized = refl; pending = omega arith; pending_clean = tt; batches = tt };
  conserved = refl;
  stopped_idle = λ h. refl;
  stopped_why = λ h. inl refl;
  draining_why = λ h. refl;
}

abbrev empty_buffer : Buffer
empty_buffer = record open_buffer { queue = [] }

abbrev s1 : System
s1 = receive_entry s0 failed empty_buffer

abbrev s2 : System
s2 = finish s1

trace : Trace s0 2 0 s2
unfolding receive receive_entry
trace =
    own (own start (received failed empty_buffer (inr refl) refl refl) tt) (drained refl refl refl)
      tt

drain_ends_example :
    (2 ≤ length s0.buffer.queue + 0 + 1)
    × (((v : System) × (step : Step s2 v) × IsOwn step)
        ⊎ ((s2.phase ≡ stopped) × (◌≡◌ {A = ℕ} 0 0 → stored s2 ≡ filter is_redacted s2.accepted)))
drain_ends_example = drain_ends s0-Inv refl trace
