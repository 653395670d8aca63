-- ===== src/Tests/Pipeline.antt =====
-- The way of an entry: the request, the limiter, the buffer and the writer.
use mathlib.Core.List.{flatten}
use sentinellog.Prelude.{
  ℕ, ◌+◌, ◌≡◌, ◌⊎◌, refl, ◌≤◌, inl, Text, codes, List, [], ◌∷◌, ◌++◌, filter, true, false, some,
  inr, All, length, text_eq, text_beq, arith,
}
use sentinellog.Prelude.Map.{lookup}
use sentinellog.Prelude.Strings.{has_prefix, hex_digest, hex_encode}
use sentinellog.Model.{LogEntry, Time, missing_field, error_text, validate}
use sentinellog.Buffer.{sent, full, publish, publish_outcome, close, receive}
use sentinellog.Writer.{take_entry, flush}
use sentinellog.Writer.Machine.{
  System, Reach, Step, running, stopped, offer, note_accepted, receive_entry, finish,
}
use sentinellog.Writer.Batches.{handled, is_redacted}
use sentinellog.Writer.Machine.Invariant.{Inv, Reach-Inv}
use sentinellog.Writer.Machine.Shutdown.{stored, stopped_by_close, accepted_lost}
use sentinellog.RateLimit.{seconds, Limiter, allow}
use sentinellog.RateLimit.Burst.{IsExact, allow_times, answers, burst_exact}
use sentinellog.Ingest.{
  reply, Json, Request, counts, bad_request, Handler, serve_http, publish_loop, decode_entries,
  bearer_token,
}
use sentinellog.Ingest.Auth.{authenticate, hash_token}
use sentinellog.Ingest.Gains.{Published}
use sentinellog.Ingest.Serve.{serve_clean, serve_counts}
use sentinellog.Ingest.Partial.{partial_batch, prepared}
use sentinellog.Tests.Fixtures.{plain_runtime, whole, tenant_a, failed, foreign}

abbrev start : System
start = record {
  writer = record { size = 1; batch = []; flushed = [] };
  buffer = record { queue = []; capacity = 2; closed = false; accepted = 0; shed = 0 };
  cancelled = false;
  phase = running;
  accepted = [];
}

start-Inv : Inv 0 start
unfolding flatten
start-Inv = record {
  writer = record { sized = refl; pending = omega arith; pending_clean = tt; batches = tt };
  conserved = refl;
  stopped_idle = λ h. refl;
  stopped_why = λ h. ground (arith, h);
  draining_why = λ h. ground (arith, h);
}

abbrev offered_state : System
offered_state = record start {
  buffer = record { queue = failed ∷ []; capacity = 2; closed = false; accepted = 1; shed = 0 };
  accepted = failed ∷ [];
}

abbrev taken_state : System
taken_state = record offered_state {
  writer = record { size = 1; batch = []; flushed = (failed ∷ []) ∷ [] };
  buffer = record { queue = []; capacity = 2; closed = false; accepted = 1; shed = 0 };
}

abbrev closed_state : System
closed_state = record taken_state {
  buffer = record { queue = []; capacity = 2; closed = true; accepted = 1; shed = 0 };
}

abbrev stopped_state : System
stopped_state = record closed_state { phase = stopped }

offered_Step : Step start offered_state
unfolding publish offer note_accepted
offered_Step = Step.offered failed refl

taken_Step : Step offered_state taken_state
unfolding receive take_entry receive_entry
taken_Step = Step.received failed taken_state.buffer (inl refl) refl refl

closed_Step : Step taken_state closed_state
unfolding close
closed_Step = Step.close_input refl

stopped_Step : Step closed_state stopped_state
unfolding receive flush finish
stopped_Step = Step.input_ended (inl refl) refl refl

run : Reach start stopped_state
run =
    Reach.next (Reach.next (Reach.next (Reach.next Reach.here offered_Step) taken_Step) closed_Step)
      stopped_Step

Reach-Inv_example : Inv 0 stopped_state
Reach-Inv_example = Reach-Inv start-Inv run

stopped_by_close_example : stored stopped_state ≡ filter is_redacted (failed ∷ [])
stopped_by_close_example = stopped_by_close start-Inv run refl refl

accepted_lost_example :
    (u : System) × Reach start u
    × (u.accepted ≡ failed ∷ [])
    × ((v : System)
        → Reach u v
        → (v.phase ≡ stopped)
          × ((more : List LogEntry) × (v.buffer.queue ≡ failed ∷ more))
          × (stored v ≡ handled start.writer))
unfolding receive
accepted_lost_example = accepted_lost start failed refl refl (omega arith)

publish_outcome_example :
    (((publish start.buffer failed).1 ≡ sent)
      × ((publish start.buffer failed).0.queue ≡ start.buffer.queue ++ failed ∷ [])
      × ((publish start.buffer failed).0.shed ≡ start.buffer.shed)
      × (length (publish start.buffer failed).0.queue ≤ start.buffer.capacity))
    ⊎ (((publish start.buffer failed).1 ≡ full)
        × (length start.buffer.queue ≡ start.buffer.capacity)
        × ((publish start.buffer failed).0.queue ≡ start.buffer.queue)
        × ((publish start.buffer failed).0.shed ≡ start.buffer.shed + 1))
publish_outcome_example = publish_outcome start.buffer failed refl (omega arith) (omega arith)

abbrev limiter : Limiter
limiter = record { rate = 1; burst = 2; ttl = 600; buckets = [] }

whole-IsExact : IsExact limiter.rate
unfolding seconds
whole-IsExact = record {
  sub_one = λ n h. omega arith;
  le_one = λ n h. refl;
  lt_nat = λ m n h k. refl;
  idle = λ n h. omega arith;
}

burst_exact_example : allow_times limiter tenant_a 5 3 ≡ answers 2 3
unfolding lookup
burst_exact_example =
    burst_exact tenant_a 5 2 (omega arith) limiter 3
      (record { exact = whole-IsExact; ceiling = refl }) (omega arith) refl

abbrev json : Json
json = record { unmarshal_many = λ s. inr (failed ∷ foreign ∷ []); unmarshal_one = λ s. inr failed }

abbrev request : Request
request = record { method = codes "POST"; authorization = codes "Bearer tok"; body = codes "[]" }

abbrev handler : Handler
handler = record {
  auth = record { by_hash = (hash_token (codes "tok"), tenant_a) ∷ [] };
  limiter = limiter;
  redactor = record { patterns = []; entropy_threshold = 3; min_token_len = 20; allow_keys = [] };
  buffer = record { queue = []; capacity = 1; closed = false; accepted = 0; shed = 0 };
  max_body = 100;
}

abbrev clock : ℕ → Time
clock i = 7

abbrev number : ℕ
number = 1

-- The first of the two entries is accepted and the second is shed.
served : (serve_http json 5 clock handler request).1 ≡ counts 1 1
unfolding serve_http authenticate lookup text_beq bearer_token has_prefix hex_digest hex_encode
    allow decode_entries publish_loop validate publish reply
served = refl

serve_clean_example :
    (gained : List LogEntry) × ((serve_http json 5 clock handler request).0.buffer.queue
      ≡ handler.buffer.queue ++ gained)
    × All
        (λ e.
          (authenticate handler.auth (bearer_token request) ≡ some e.tenant_id)
          × (e.redacted ≡ true))
        gained
serve_clean_example = serve_clean json 5 clock handler request

serve_counts_example :
    (tenant : Text) × (entries gained : List LogEntry) × (decode_entries json handler.max_body
        request.body
      ≡ inr entries)
    × ((serve_http json 5 clock handler request).0.buffer.queue ≡ handler.buffer.queue ++ gained)
    × Published handler.redactor tenant entries gained
    × (length gained ≡ number)
    × (number + number ≡ length entries)
    × (number ≡ 0 → number ≡ 0)
serve_counts_example = serve_counts json 5 clock handler request number number served

abbrev unnamed : LogEntry
unnamed = record failed { service = [] }

partial_batch_example :
    ((publish_loop handler.redactor tenant_a clock 0 (failed ∷ unnamed ∷ []) 0 0 handler.buffer).1
      ≡ bad_request (error_text (missing_field (codes "service"))))
    × ((publish_loop handler.redactor tenant_a clock 0
          (failed ∷ unnamed ∷ [])
          0
          0
          handler.buffer).0.queue
        ≡ handler.buffer.queue ++ prepared handler.redactor tenant_a clock 0 (failed ∷ []))
unfolding validate text_beq
partial_batch_example =
    partial_batch handler.redactor tenant_a clock (failed ∷ []) [] unnamed
      (missing_field (codes "service")) 0 0 0 handler.buffer (refl, tt) refl refl (omega arith)
