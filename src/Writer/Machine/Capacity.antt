-- ===== src/Writer/Machine/Capacity.antt =====
-- The buffer between the producers and the writer never holds more than its capacity.
use sentinellog.Prelude.{sym, subst}
use sentinellog.Buffer.{IsBounded, close, publish-IsBounded, receive-IsBounded}
use sentinellog.Writer.Machine.{
  System, Step, offer, receive_entry, finish, offered, cancel, close_input, received, input_ended,
  ticked, shutdown, drained,
}

-- A step ends with a buffer that fits if it starts with one.
pub Step-IsBounded : {s t : System} → Step s t → IsBounded s.buffer → IsBounded t.buffer
unfolding offer receive_entry finish close
Step-IsBounded {s} (offered e eq) fits =
    subst (λ (t : System). IsBounded t.buffer) (sym eq) (publish-IsBounded s.buffer e fits)
Step-IsBounded (cancel eq) fits = subst (λ (t : System). IsBounded t.buffer) (sym eq) fits
Step-IsBounded (close_input eq) fits = subst (λ (t : System). IsBounded t.buffer) (sym eq) fits
Step-IsBounded {s} (received e b live got eq) fits =
    subst (λ (t : System). IsBounded t.buffer) (sym eq) (receive-IsBounded s.buffer b e got fits)
Step-IsBounded (input_ended live got eq) fits =
    subst (λ (t : System). IsBounded t.buffer) (sym eq) fits
Step-IsBounded (ticked live eq) fits = subst (λ (t : System). IsBounded t.buffer) (sym eq) fits
Step-IsBounded (shutdown live stop eq) fits =
    subst (λ (t : System). IsBounded t.buffer) (sym eq) fits
Step-IsBounded (drained live got eq) fits = subst (λ (t : System). IsBounded t.buffer) (sym eq) fits
