-- ===== src/Program/Steps.antt =====
-- What the goroutines of the program may do, in any order.
use sentinellog.Prelude.{ℕ, ◌+◌, ◌^◌, ◌<◌, ◌≡◌, ℤ, Bool, Text, List, none, some, length}
use sentinellog.Prelude.Strings.{Runtime}
use sentinellog.Prelude.Float.{Float}
use sentinellog.Model.{Time, LogEntry, validate}
use sentinellog.Writer.Machine.{System, Step, offer}
use sentinellog.Writer.Machine.Growth.{IsInternal}
use sentinellog.RateLimit.{allow, sweep}
use sentinellog.Ingest.{prepare}
use sentinellog.Ingest.Auth.{authenticate}
use sentinellog.Query.Handler.{Decoders, Endpoint, Request, handle}
use sentinellog.Worker.Anomaly.{Key}
use sentinellog.Program.{Parts, State, store_of, query_handler}

module _ ⦃rt : Runtime⦄ ⦃fl : Float⦄ (parts : Parts) where
  -- A publish of a handler goroutine: a valid entry, prepared for the tenant of a known token.
  abbrev pub published : State → Text → Time → LogEntry → State
  published s tenant now e = record s { system = offer s.system (prepare s.redactor tenant now e) }

  pub data Move (s u : State) : Type 0 where
    -- an ingest request
    limited :
        (key : Text) (now : ℕ) → u ≡ record s { limiter = (allow s.limiter key now).0 } → Move s u
    publishes :
        (token tenant : Text) (now : Time) (e : LogEntry)
        → authenticate s.auth token ≡ some tenant
        → validate e ≡ none
        → u ≡ published s tenant now e
        → Move s u
    -- the writer, the signal, the shutdown
    writes :
        (t : System) (step : Step s.system t)
        → IsInternal step
        → u ≡ record s { system = t }
        → Move s u
    -- the sweeper
    swept : (now : ℕ) → u ≡ record s { limiter = sweep s.limiter now } → Move s u
    -- the workers; the store holds fewer than 2 ^ 64 entries
    embeds :
        (now : Time)
        → length (store_of s.system).entries < 2 ^ 64
        → u ≡ record s {
          embed_worker =
              (sentinellog.Worker.Embed.tick parts.emb now
                (store_of s.system)
                s.embed_worker
                s.vec).0;
          vec =
              (sentinellog.Worker.Embed.tick parts.emb now
                (store_of s.system)
                s.embed_worker
                s.vec).1;
        }
        → Move s u
    samples :
        (order : List (Key × Bool) → List Key) (clock : Key → Time)
        → u ≡ record s {
          sampler = sentinellog.Worker.Anomaly.tick order clock (store_of s.system) s.sampler;
        }
        → Move s u
    -- a query request; the audit log has fewer than 2 ^ 64 records after it
    queries :
        (decoders : Decoders) (now later : ℤ) (e : Endpoint) (r : Request)
        → length s.audit.records + 2 < 2 ^ 64
        → u
          ≡ record s { audit = (handle decoders now later (query_handler parts s) r e).0.svc.audit }
        → Move s u

  pub data Run (s : State) : State → Type 0 where
    here : Run s s
    next : {t u : State} → Run s t → Move t u → Run s u
