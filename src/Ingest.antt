-- ===== src/Ingest.antt =====
-- internal/ingest/handler.go: the HTTP handler that takes log entries in.
pub mod Auth
pub mod Gains
pub mod Serve
pub mod Partial
use sentinellog.Prelude.{
  ℕ, zero, suc, ◌+◌, ◌≡◌, ◌⊎◌, inl, inr, Bool, true, false, not, ◌&&◌, Text, codes, List, [], ◌∷◌,
  ◌++◌, Option, none, some, ltb, if◌then◌else◌, ◌==◌, nat_eq, text_eq, length, drop,
}
use sentinellog.Prelude.Strings.{Runtime, has_prefix}
use sentinellog.Prelude.Float.{Float}
use sentinellog.Model.{LogEntry, Time, validate, error_text}
use sentinellog.Buffer.{Buffer, Outcome, sent, full, panicked, publish}
use sentinellog.RateLimit.{Limiter, allow}
use sentinellog.Redaction.{Redactor, redact}
use sentinellog.Ingest.Auth.{Authenticator, authenticate}

-- encoding/json: the text of an error, or the values.
pub record Json : Type 0 where
  pub unmarshal_many : Text → Text ⊎ List LogEntry
  pub unmarshal_one : Text → Text ⊎ LogEntry

pub record Request : Type 0 where
  pub method : Text
  pub authorization : Text  -- the header, empty if it is missing
  pub body : Text

-- `http.Error` with its status, whether the header Retry-After is set, and its text; the status 202
-- with the two counts; and the panic of a publish, which net/http turns into an aborted connection.
pub data Response : Type 0 where
  failure : ℕ → Bool → Text → Response
  counts : ℕ → ℕ → Response
  aborted : Response

-- What `io.ReadAll` gives of the reader that `http.MaxBytesReader` limits.
read_all : ℕ → Text → Text ⊎ Text
read_all max_body body =
    if ltb max_body (length body) then inl (codes "http: request body too large") else inr body

one_entry : Text ⊎ LogEntry → Text ⊎ List LogEntry
one_entry (inl e) = inl e
one_entry (inr e) = inr (e ∷ [])

decode_trimmed : Json → Text → Text ⊎ List LogEntry
unfolding one_entry
decode_trimmed json [] = inl (codes "empty body")
decode_trimmed json (c ∷ s) =
    if c == b'[' then json.unmarshal_many (c ∷ s) else one_entry (json.unmarshal_one (c ∷ s))

unfoldable pub bad_request : Text → Response
bad_request text = failure 400 false (codes "bad request: " ++ text)

-- The answer after the loop.
unfoldable pub reply : ℕ → ℕ → Response
reply accepted shed =
    if accepted == 0 && ltb 0 shed
    then failure 503 true (codes "overloaded: shedding load")
    else counts accepted shed

module _ ⦃rt : Runtime⦄ where
  unfoldable pub bearer_token : Request → Text
  bearer_token r =
      if has_prefix r.authorization (codes "Bearer ")
      then rt.trim_space (drop 7 r.authorization)
      else codes ""

  unfoldable pub decode_entries : Json → ℕ → Text → Text ⊎ List LogEntry
  unfolding read_all decode_trimmed
  decode_entries json max_body body = elim (read_all max_body body) [
    | inl e ↦ inl e
    | inr data_bytes ↦ decode_trimmed json (rt.trim_space data_bytes)
  ]

module _ ⦃fl : Float⦄ where
  -- The tenant is assigned, a missing timestamp is stamped, and the entry is redacted.
  unfoldable pub prepare : Redactor → Text → Time → LogEntry → LogEntry
  prepare r tenant now e =
      (redact r (record e {
        tenant_id = tenant;
        timestamp = if e.timestamp == 0 then now else e.timestamp;
      })).0

  -- The loop over the entries; `clock i` is what `time.Now` gives for the entry `i`.
  unfoldable pub publish_loop :
      Redactor → Text → (ℕ → Time) → ℕ → List LogEntry → ℕ → ℕ → Buffer → Buffer × Response
  unfolding bad_request
  publish_loop r tenant clock i [] accepted shed b = (b, reply accepted shed)
  publish_loop r tenant clock i (e ∷ es) accepted shed b = elim (validate e) [
    | some err ↦ (b, bad_request (error_text err))
    | none ↦
        let (b', outcome) = publish b (prepare r tenant (clock i) e) in
        elim outcome [
          | sent ↦ publish_loop r tenant clock (suc i) es (suc accepted) shed b'
          | full ↦ publish_loop r tenant clock (suc i) es accepted (suc shed) b'
          | panicked ↦ (b', aborted)
        ]
  ]

module _ ⦃rt : Runtime⦄ ⦃fl : Float⦄ where
  pub record Handler : Type 0 where
    pub auth : Authenticator
    pub limiter : Limiter
    pub redactor : Redactor
    pub buffer : Buffer
    pub max_body : ℕ

  unfoldable pub take_body : Handler → Text → (ℕ → Time) → Text ⊎ List LogEntry → Handler × Response
  unfolding bad_request
  take_body h tenant clock (inl text) = (h, bad_request text)
  take_body h tenant clock (inr entries) =
      let (b, response) = publish_loop h.redactor tenant clock 0 entries 0 0 h.buffer in
      (record h { buffer = b }, response)

  -- The rest of the handler, for an authenticated tenant; `now` is the limiter's reading.
  unfoldable pub serve_tenant :
      Json → ℕ → (ℕ → Time) → Handler → Request → Text → Handler × Response
  unfolding take_body
  serve_tenant json now clock h r tenant =
      let (limiter, allowed) = allow h.limiter tenant now in
      let limited : Handler = record h { limiter = limiter } in
      elim allowed [
        | false ↦ (limited, failure 429 true (codes "rate limit exceeded"))
        | true ↦ take_body limited tenant clock (decode_entries json h.max_body r.body)
      ]

  unfoldable pub serve_http : Json → ℕ → (ℕ → Time) → Handler → Request → Handler × Response
  unfolding serve_tenant
  serve_http json now clock h r =
      if not (r.method == codes "POST")
      then (h, failure 405 false (codes "method not allowed"))
      else elim (authenticate h.auth (bearer_token r)) [
        | none ↦ (h, failure 401 false (codes "unauthorized"))
        | some tenant ↦ serve_tenant json now clock h r tenant
      ]
