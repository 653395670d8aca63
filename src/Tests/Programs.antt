-- ===== src/Tests/Programs.antt =====
-- Runs of the whole program.
use sentinellog.Prelude.{
  ℕ, ◌≡◌, refl, pos, codes, List, [], ◌∷◌, ◌++◌, ◌+◌, ◌==◌, true, inl, inr, none, some, map, All,
  length, arith, text_beq, text_eq, Text,
}
use sentinellog.Prelude.Map.{lookup, insert}
use sentinellog.Model.{LogEntry, StoredEntry, validate}
use sentinellog.Store.{Query}
use sentinellog.Buffer.{Buffer, receive, publish, item, sent}
use sentinellog.Writer.Machine.{received, receive_entry, offer}
use sentinellog.Store.Writes.{stored_entry}
use sentinellog.Embed.{Embedder}
use sentinellog.Config.{Config}
use sentinellog.Ingest.{Json, Request, counts, prepare, decode_entries, bearer_token}
use sentinellog.Ingest.Auth.{authenticate}
use sentinellog.Ingest.Gains.{Published}
use sentinellog.Program.{Parts, State, fresh, start, sized, store_of}
use sentinellog.Program.Server.{Clock, ingest}
use sentinellog.Program.Steps.{Move, Run, published}
use sentinellog.Program.Invariant.{IsAdmitted, Holds}
use sentinellog.Program.Delivery.{
  start-Holds, start-Run-Holds, accepted_delivered, search-IsAdmitted,
}
use sentinellog.Program.Requests.{ingest-Run}
use sentinellog.Program.Acknowledged.{acknowledged, held, Sublist}
use sentinellog.Program.Interleaved.{Serves, loops, waits, sends, ends}
use sentinellog.RateLimit.{allow}
use sentinellog.Tests.Fixtures.{plain_runtime, whole, sorting, no_match, failed}

abbrev embedder : Embedder
embedder = record { embed = λ s. 1 ∷ 1 ∷ []; dim = 2; version = codes "test" }

abbrev parts : Parts
parts = record {
  emb = embedder;
  sorting = sorting;
  name_sorting = sorting;
  format_score = λ x. [];
  format_g = λ x. [];
}

abbrev cfg : Config
cfg = record {
  listen_addr = [];
  buffer_size = pos 4;
  batch_size = pos 1;
  batch_interval = pos 1000;
  rate_per_tenant = 5;
  burst_per_tenant = pos 3;
  max_body_bytes = pos 100;
  shutdown_timeout = pos 1000;
}

abbrev s0 : State
s0 = fresh parts no_match cfg 4 1

started : start parts no_match cfg ≡ some s0
unfolding start sized
started = refl

s0-Holds : Holds 0 s0.auth s0.redactor s0
s0-Holds = start-Holds parts no_match cfg started refl

known : authenticate s0.auth (codes "dev-token") ≡ some (codes "acme")
unfolding authenticate text_beq lookup fresh sentinellog.Ingest.Auth.add_token insert
    sentinellog.Ingest.Auth.new_authenticator sentinellog.Prelude.Strings.hex_digest
    sentinellog.Prelude.Strings.hex_encode
known = refl

valid : validate failed ≡ none
unfolding validate text_beq
valid = refl

abbrev s1 : State
s1 = published parts s0 (codes "acme") 7 failed

published-Run : Run parts s0 s1
published-Run =
    Run.next Run.here (Move.publishes (codes "dev-token") (codes "acme") 7 failed known valid refl)

abbrev entry : LogEntry
entry = prepare s0.redactor (codes "acme") 7 failed

abbrev taken : Buffer
taken = record s1.system.buffer { queue = [] }

got : receive s1.system.buffer ≡ item entry taken
unfolding receive offer publish fresh sentinellog.Buffer.new
got = refl

abbrev s2 : State
s2 = record s1 { system = receive_entry s1.system entry taken }

run : Run parts s0 s2
unfolding offer fresh
run = Run.next published-Run (Move.writes _ (received entry taken (inl refl) got refl) tt refl)

start-Run-Holds_example : Holds 0 s0.auth s0.redactor s2
start-Run-Holds_example = start-Run-Holds parts no_match cfg started refl run

accepted_delivered_example :
    (s2.system.accepted
      ≡ map stored_entry (store_of s2.system).entries
        ++ (s2.system.writer.batch ++ s2.system.buffer.queue))
    × All (IsAdmitted s0.auth s0.redactor) s2.system.accepted
accepted_delivered_example = accepted_delivered parts s0-Holds run

abbrev json : Json
json = record { unmarshal_many = λ s. inl []; unmarshal_one = λ s. inr failed }

abbrev clock : Clock
clock = record { start = 1; end = 2; now = 3; clock = λ i. i; stamp = pos 4; later = pos 5 }

abbrev request : Request
request = record {
  method = codes "POST";
  authorization = codes "Bearer dev-token";
  body = codes "{}";
}

-- The request is served while another one publishes between its check by the limiter and its own
-- publish.
abbrev limited_state : State
limited_state = record s0 { limiter = (allow s0.limiter (codes "acme") 3).0 }

abbrev between : State
between = published parts limited_state (codes "acme") 7 failed

abbrev after_request : State
after_request = published parts between (codes "acme") 0 failed

other_publish-Run : Run parts limited_state between
other_publish-Run =
    Run.next Run.here (Move.publishes (codes "dev-token") (codes "acme") 7 failed known valid refl)

abbrev full_buffer : Buffer
full_buffer = record between.system.buffer {
  queue = between.system.buffer.queue ++ prepare s0.redactor (codes "acme") 0 failed ∷ [];
  accepted = 2;
}

request_publish :
    publish between.system.buffer (prepare s0.redactor (codes "acme") 0 failed)
    ≡ (full_buffer, sent)
unfolding offer publish fresh sentinellog.Buffer.new
request_publish = refl

authenticated : authenticate s0.auth (bearer_token request) ≡ some (codes "acme")
unfolding authenticate text_beq lookup fresh sentinellog.Ingest.Auth.add_token insert
    sentinellog.Ingest.Auth.new_authenticator sentinellog.Prelude.Strings.hex_digest
    sentinellog.Prelude.Strings.hex_encode bearer_token sentinellog.Prelude.Strings.has_prefix
authenticated = refl

allowed : (allow s0.limiter (codes "acme") 3).1 ≡ true
unfolding allow lookup fresh sentinellog.RateLimit.new
allowed = refl

decoded : decode_entries json s0.max_body request.body ≡ inr (failed ∷ [])
unfolding decode_entries fresh
decoded = refl

request-Serves : Serves parts json 3 (λ i. i) request s0 after_request (counts 1 0)
unfolding sentinellog.Ingest.reply text_beq
request-Serves =
    loops (codes "acme") (failed ∷ []) refl authenticated allowed decoded
      (waits other_publish-Run (sends failed full_buffer valid request_publish (ends refl refl)))

acknowledged_example :
    (tenant : Text) × (entries gained more : List LogEntry) × (authenticate s0.auth
        (bearer_token request)
      ≡ some tenant)
    × (decode_entries json s0.max_body request.body ≡ inr entries)
    × Published s0.redactor tenant entries gained
    × (length gained ≡ 1)
    × (1 + 0 ≡ length entries)
    × (held after_request ≡ s0.system.accepted ++ more)
    × Sublist gained more
acknowledged_example =
    acknowledged parts s0-Holds json 3 (λ i. i) request 1 0 request-Serves Run.here

ingest-Run_example : Run parts s0 (ingest json clock s0 request).0
ingest-Run_example = ingest-Run parts json clock s0 request

abbrev query : Query
query = record {
  tenant_id = codes "acme";
  service = [];
  level = [];
  contains = [];
  since = 0;
  until = 0;
  limit = pos 10;
}

search-IsAdmitted_example :
    All
      (λ (e : StoredEntry).
        IsAdmitted s0.auth s0.redactor e.entry × (e.tenant_id ≡ query.tenant_id))
      (sentinellog.Store.search (store_of s2.system) query)
search-IsAdmitted_example = search-IsAdmitted parts s0-Holds run query

found_one : length (sentinellog.Store.search (store_of s2.system) query) ≡ 1
unfolding sentinellog.Store.search text_beq store_of offer publish receive_entry fresh
    sentinellog.Buffer.new sentinellog.Store.write_batch sentinellog.Store.new_mem
    sentinellog.Writer.take_entry prepare sentinellog.Redaction.redact sentinellog.Store.limit_or
    sentinellog.Store.matches
found_one = refl
