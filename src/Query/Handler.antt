-- ===== src/Query/Handler.antt =====
-- internal/query/handler.go: the HTTP surface of the service.
pub mod Isolation
pub mod Outcomes
pub mod Trace
use sentinellog.Prelude.{
  ℕ, ◌+◌, ◌-◌, ◌/◌, ℤ, pos, Bool, true, false, not, ◌⊎◌, inl, inr, Text, codes, List, [], ◌∷◌, ◌++◌,
  Option, none, some, if◌then◌else◌, ◌==◌, text_eq, ltb, length, take, drop, ◌^◌,
}
use sentinellog.Prelude.Strings.{Runtime, has_prefix}
use sentinellog.Prelude.Float.{Float}
use sentinellog.Model.{StoredEntry}
use sentinellog.Store.{Query}
use sentinellog.Anomaly.{Event}
use sentinellog.Anomaly.Feed.{Feed, recent}
use sentinellog.Rbac.{Identity, can, action_anomaly}
use sentinellog.Query.{
  Result, forbidden, ok, panicked, Answer, Service, SemanticHit, structured_search, semantic_search,
  why_did_fail,
}

-- The bodies of the three endpoints that read one.
pub record SearchBody : Type 0 where
  pub service : Text
  pub level : Text
  pub contains : Text
  pub limit : ℤ

pub record SemanticBody : Type 0 where
  pub query : Text
  pub k : ℤ

pub record WhyBody : Type 0 where
  pub question : Text
  pub k : ℤ

-- What `http.MaxBytesReader` lets through of a body, and whether the reading then fails because the
-- body is longer.
pub record Stream : Type 0 where
  pub prefix : Text
  pub cut : Bool

max_bytes_reader : Text → ℕ → Stream
max_bytes_reader body n = record { prefix = take n body; cut = ltb n (length body) }

-- `Decode` of encoding/json into each of the bodies: the text of an error, or the value.
pub record Decoders : Type 0 where
  pub search : Stream → Text ⊎ SearchBody
  pub semantic : Stream → Text ⊎ SemanticBody
  pub why : Stream → Text ⊎ WhyBody

pub record Request : Type 0 where
  pub method : Text
  pub authorization : Text  -- the header, empty if it is missing
  pub body : Text

-- The four registered patterns.
pub data Endpoint : Type 0 where
  search semantic why anomalies : Endpoint

unfoldable pub pattern_of : Endpoint → Text
pattern_of search = codes "/v1/search"
pattern_of semantic = codes "/v1/semantic"
pattern_of why = codes "/v1/why"
pattern_of anomalies = codes "/v1/anomalies"

module _ ⦃rt : Runtime⦄ ⦃fl : Float⦄ where
  -- What `respond` encodes.
  pub data Payload : Type 0 where
    entries : List StoredEntry → Payload
    hits : List SemanticHit → Payload
    answer : Answer → Payload
    events : List Event → Payload

  -- `http.Error` with its status and text; the status 200 with the encoding of a value; and a panic,
  -- which net/http turns into an aborted connection.
  pub data Response : Type 0 where
    failure : ℕ → Text → Response
    encoded : Payload → Response
    aborted : Response

  pub record Handler : Type 0 where
    pub svc : Service
    pub feed : Feed
    pub resolve : Text → Option Identity

  unfoldable pub bearer : Request → Text
  bearer r =
      if has_prefix r.authorization (codes "Bearer ")
      then rt.trim_space (drop 7 r.authorization)
      else codes ""

  unfoldable pub auth : Handler → Request → Option Identity
  unfolding bearer
  auth h r = h.resolve (bearer r)

  unauthorized : Response
  unauthorized = failure 401 (codes "unauthorized")

  -- What `decode` makes of the reading of the body.
  pub read_body {ℓ} : {B : Type ℓ} → Request → Text ⊎ B → Response ⊎ B
  read_body r (inl err) =
      if not (r.method == codes "POST")
      then inl (failure 405 (codes "method not allowed"))
      else inl (failure 400 (codes "bad request: " ++ err))
  read_body r (inr body) =
      if not (r.method == codes "POST")
      then inl (failure 405 (codes "method not allowed"))
      else inr body

  -- The answer of a failed `decode`, or the body.
  unfoldable pub decode {ℓ} : {B : Type ℓ} → (Stream → Text ⊎ B) → Request → Response ⊎ B
  unfolding max_bytes_reader read_body
  decode decoder r = read_body r (decoder (max_bytes_reader r.body (2 ^ 16)))

  unfoldable pub respond {ℓ} : {A : Type ℓ} → (A → Payload) → Result A → Response
  respond payload forbidden = failure 403 (codes "forbidden")
  respond payload (ok a) = encoded (payload a)
  respond payload panicked = aborted

  -- The service's answer, as the end of a handler passes it on.
  finish {ℓ} : {A : Type ℓ} → Handler → (A → Payload) → Service × Result A → Handler × Response
  unfolding respond
  finish h payload (svc, result) = (record h { svc = svc }, respond payload result)

  search_query : SearchBody → Query
  search_query b = record {
    tenant_id = [];
    service = b.service;
    level = b.level;
    contains = b.contains;
    since = 0;
    until = 0;
    limit = b.limit;
  }

  -- The rest of each handler after `auth`; `now` and `later` are the clock's readings for the audit.
  pub search_body : ℤ → Handler → Identity → Response ⊎ SearchBody → Handler × Response
  unfolding finish search_query
  search_body now h id (inl failed) = (h, failed)
  search_body now h id (inr b) = finish h entries (structured_search h.svc now id (search_query b))

  pub semantic_body : ℤ → Handler → Identity → Response ⊎ SemanticBody → Handler × Response
  unfolding finish
  semantic_body now h id (inl failed) = (h, failed)
  semantic_body now h id (inr b) = finish h hits (semantic_search h.svc now id b.query b.k)

  pub why_body : ℤ → ℤ → Handler → Identity → Response ⊎ WhyBody → Handler × Response
  unfolding finish
  why_body now later h id (inl failed) = (h, failed)
  why_body now later h id (inr b) = finish h answer (why_did_fail h.svc now later id b.question b.k)

  pub anomalies_for : Handler → Identity → Handler × Response
  unfolding respond
  anomalies_for h id =
      if not (can id.role action_anomaly)
      then (h, failure 403 (codes "forbidden"))
      else (h, respond events (ok (recent h.feed id.tenant_id (pos 50))))

  module _ (decoders : Decoders) (now later : ℤ) (h : Handler) (r : Request) where
    pub handle_search : Handler × Response
    unfolding unauthorized search_body
    handle_search = elim (auth h r) [
      | none ↦ (h, unauthorized)
      | some id ↦ search_body now h id (decode decoders.search r)
    ]

    pub handle_semantic : Handler × Response
    unfolding unauthorized semantic_body
    handle_semantic = elim (auth h r) [
      | none ↦ (h, unauthorized)
      | some id ↦ semantic_body now h id (decode decoders.semantic r)
    ]

    pub handle_why : Handler × Response
    unfolding unauthorized why_body
    handle_why = elim (auth h r) [
      | none ↦ (h, unauthorized)
      | some id ↦ why_body now later h id (decode decoders.why r)
    ]

    pub handle_anomalies : Handler × Response
    unfolding unauthorized anomalies_for
    handle_anomalies = elim (auth h r) [ none ↦ (h, unauthorized) | some id ↦ anomalies_for h id ]

    -- The handler that `Register` gives a pattern.
    pub handle : Endpoint → Handler × Response
    unfolding handle_search handle_semantic handle_why handle_anomalies
    handle search = handle_search
    handle semantic = handle_semantic
    handle why = handle_why
    handle anomalies = handle_anomalies

  -- What `timed` hands to `OnLatency`, from the clock before and after, in nanoseconds.
  pub latency_ms : ℕ → ℕ → fl.F
  latency_ms start end = fl.div (fl.of_nat ((end - start) / 1000)) (fl.of_nat 1000)
