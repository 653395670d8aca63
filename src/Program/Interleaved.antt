-- ===== src/Program/Interleaved.antt =====
-- A request to the ingest endpoint as net/http runs it, beside the other goroutines.
use sentinellog.Prelude.{
  ℕ, suc, ◌≡◌, inl, inr, true, false, Text, codes, List, [], ◌∷◌, none, some, ◌==◌, text_eq,
}
use sentinellog.Prelude.Strings.{Runtime}
use sentinellog.Prelude.Float.{Float}
use sentinellog.Model.{Time, LogEntry, Error, validate, error_text}
use sentinellog.Buffer.{Buffer, sent, full, panicked, publish}
use sentinellog.RateLimit.{allow}
use sentinellog.Ingest.{
  Json, Request, Response, failure, aborted, reply, bad_request, prepare, decode_entries,
  bearer_token,
}
use sentinellog.Ingest.Auth.{authenticate}
use sentinellog.Program.{Parts, State}
use sentinellog.Program.Steps.{Run, published}

module _ ⦃rt : Runtime⦄ ⦃fl : Float⦄ (parts : Parts) where
  -- The loop of the handler over the entries, from its round `i` with the two counts so far and the
  -- state `s`, to the state `u` with the answer. Before each round the other goroutines, which may
  -- serve requests as well, make any moves.
  pub data Loop (tenant : Text) (clock : ℕ → Time) (u : State) (answer : Response)
      : ℕ → List LogEntry → ℕ → ℕ → State → Type 0 where
    waits :
        {i accepted shed : ℕ} {es : List LogEntry} {s t : State}
        → Run parts s t
        → Loop tenant clock u answer i es accepted shed t
        → Loop tenant clock u answer i es accepted shed s
    ends :
        {i accepted shed : ℕ} {s : State}
        → u ≡ s
        → answer ≡ reply accepted shed
        → Loop tenant clock u answer i [] accepted shed s
    refuses :
        {i accepted shed : ℕ} {es : List LogEntry} {s : State} (e : LogEntry) (err : Error)
        → validate e ≡ some err
        → u ≡ s
        → answer ≡ bad_request (error_text err)
        → Loop tenant clock u answer i (e ∷ es) accepted shed s
    sends :
        {i accepted shed : ℕ} {es : List LogEntry} {s : State} (e : LogEntry) (b : Buffer)
        → validate e ≡ none
        → publish s.system.buffer (prepare s.redactor tenant (clock i) e) ≡ (b, sent)
        → Loop tenant clock u answer
            (suc i)
            es
            (suc accepted)
            shed
            (published parts s tenant (clock i) e)
        → Loop tenant clock u answer i (e ∷ es) accepted shed s
    sheds :
        {i accepted shed : ℕ} {es : List LogEntry} {s : State} (e : LogEntry) (b : Buffer)
        → validate e ≡ none
        → publish s.system.buffer (prepare s.redactor tenant (clock i) e) ≡ (b, full)
        → Loop tenant clock u answer
            (suc i)
            es
            accepted
            (suc shed)
            (published parts s tenant (clock i) e)
        → Loop tenant clock u answer i (e ∷ es) accepted shed s
    panics :
        {i accepted shed : ℕ} {es : List LogEntry} {s : State} (e : LogEntry) (b : Buffer)
        → validate e ≡ none
        → publish s.system.buffer (prepare s.redactor tenant (clock i) e) ≡ (b, panicked)
        → u ≡ s
        → answer ≡ aborted
        → Loop tenant clock u answer i (e ∷ es) accepted shed s

  -- The whole handler, from the state `s` to the state `u` with the answer; `now` is the limiter's
  -- reading of the clock and `clock i` that of the round `i`.
  pub data Serves (json : Json) (now : ℕ) (clock : ℕ → Time) (r : Request) (s u : State)
      (answer : Response) : Type 0 where
    not_post :
        (r.method == codes "POST") ≡ false
        → u ≡ s
        → answer ≡ failure 405 false (codes "method not allowed")
        → Serves json now clock r s u answer
    unknown :
        (r.method == codes "POST") ≡ true
        → authenticate s.auth (bearer_token r) ≡ none
        → u ≡ s
        → answer ≡ failure 401 false (codes "unauthorized")
        → Serves json now clock r s u answer
    limited :
        (tenant : Text)
        → (r.method == codes "POST") ≡ true
        → authenticate s.auth (bearer_token r) ≡ some tenant
        → (allow s.limiter tenant now).1 ≡ false
        → u ≡ record s { limiter = (allow s.limiter tenant now).0 }
        → answer ≡ failure 429 true (codes "rate limit exceeded")
        → Serves json now clock r s u answer
    malformed :
        (tenant text : Text)
        → (r.method == codes "POST") ≡ true
        → authenticate s.auth (bearer_token r) ≡ some tenant
        → (allow s.limiter tenant now).1 ≡ true
        → decode_entries json s.max_body r.body ≡ inl text
        → u ≡ record s { limiter = (allow s.limiter tenant now).0 }
        → answer ≡ bad_request text
        → Serves json now clock r s u answer
    loops :
        (tenant : Text) (entries : List LogEntry)
        → (r.method == codes "POST") ≡ true
        → authenticate s.auth (bearer_token r) ≡ some tenant
        → (allow s.limiter tenant now).1 ≡ true
        → decode_entries json s.max_body r.body ≡ inr entries
        → Loop tenant clock u answer 0 entries 0 0
            (record s { limiter = (allow s.limiter tenant now).0 })
        → Serves json now clock r s u answer
