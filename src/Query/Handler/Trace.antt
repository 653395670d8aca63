-- ===== src/Query/Handler/Trace.antt =====
-- The statuses of the endpoints, and the trace that an answer leaves.
use sentinellog.Prelude.{
  ℕ, Option, ◌+◌, ◌^◌, ◌<◌, ◌≡◌, refl, ℤ, inl, inr, none, some, text_eq, length, Bool-cases,
  Option-cases, nat_eq, subst, sym,
}
use sentinellog.Prelude.Strings.{Runtime}
use sentinellog.Prelude.Float.{Float}
use sentinellog.Audit.Append.{IsIntact}
use sentinellog.Rbac.{Identity, action_search, action_rag, action_anomaly}
use sentinellog.Query.Handler.{
  Endpoint, Decoders, Request, Handler, auth, decode, unauthorized, search_body, semantic_body,
  why_body, max_bytes_reader, handle_search, handle_semantic, handle_why, handle_anomalies, handle,
}
use sentinellog.Query.Handler.Outcomes.{
  traces, granted, body_status, search_served, is_logged, Outcome, refused, search-Outcome,
  semantic-Outcome, why-Outcome, anomalies-Outcome, read_body-Outcome,
}

module _ ⦃rt : Runtime⦄ ⦃fl : Float⦄ where
  module _ (decoders : Decoders) where
    -- The status of an endpoint for an identity.
    identity_status : Endpoint → Request → Identity → Option ℕ
    unfolding body_status
    identity_status Endpoint.search r id =
        body_status action_search id r (search_served id)
          (decoders.search (max_bytes_reader r.body (2 ^ 16)))
    identity_status Endpoint.semantic r id =
        body_status action_search id r (λ _. some 200)
          (decoders.semantic (max_bytes_reader r.body (2 ^ 16)))
    identity_status Endpoint.why r id =
        body_status action_rag id r (λ _. some 200)
          (decoders.why (max_bytes_reader r.body (2 ^ 16)))
    identity_status Endpoint.anomalies r id = granted action_anomaly id (some 200)

    -- The status that a request calls for: 401 without a known token; 405 and 400 for the method and
    -- the body of an endpoint that reads one; 403 without the capability; no status for a search whose
    -- limit is too large for `make`; 200 otherwise.
    pub expected_status : Endpoint → Handler → Request → Option ℕ
    unfolding identity_status
    expected_status e h r = elim (auth h r) [ none ↦ some 401 | some id ↦ identity_status e r id ]

    module _ (now later : ℤ) (h : Handler) (r : Request) where
      handle-unauthorized :
          auth h r ≡ none → (e : Endpoint) → handle decoders now later h r e ≡ (h, unauthorized)
      unfolding handle
      handle-unauthorized a Endpoint.search = rw (a, handle_search) refl
      handle-unauthorized a Endpoint.semantic = rw (a, handle_semantic) refl
      handle-unauthorized a Endpoint.why = rw (a, handle_why) refl
      handle-unauthorized a Endpoint.anomalies = rw (a, handle_anomalies) refl

      handle_for :
          (id : Identity)
          → auth h r ≡ some id
          → IsIntact h.svc.audit
          → length h.svc.audit.records + 2 < 2 ^ 64
          → (e : Endpoint)
          → Outcome (traces e) (identity_status e r id) h (handle decoders now later h r e)
      unfolding handle traces decode identity_status search_body semantic_body why_body
      handle_for id a intact room Endpoint.search =
          rw (a, handle_search)
            (read_body-Outcome now later h id intact room r action_search (search_served id) 1
              (decoders.search (max_bytes_reader r.body (2 ^ 16))) (search_body now h id)
              (λ f. refl) (search-Outcome now later h id intact room))
      handle_for id a intact room Endpoint.semantic =
          rw (a, handle_semantic)
            (read_body-Outcome now later h id intact room r action_search (λ _. some 200) 1
              (decoders.semantic (max_bytes_reader r.body (2 ^ 16))) (semantic_body now h id)
              (λ f. refl) (semantic-Outcome now later h id intact room))
      handle_for id a intact room Endpoint.why =
          rw (a, handle_why)
            (read_body-Outcome now later h id intact room r action_rag (λ _. some 200) 2
              (decoders.why (max_bytes_reader r.body (2 ^ 16))) (why_body now later h id)
              (λ f. refl) (why-Outcome now later h id intact room))
      handle_for id a intact room Endpoint.anomalies =
          rw (a, handle_anomalies) (anomalies-Outcome now later h id intact room)

      -- Every endpoint answers with the status that the request calls for, and a search whose limit is
      -- too large for `make` panics and gives none. A request that is answered with another status than
      -- 200 changes nothing. One that is answered 200 leaves its records in the audit log, one for a
      -- search and two for a question, and so does a search that panics; the log, which was intact and
      -- has room for two records, is intact after it, and nothing else changes. A view of the anomalies
      -- leaves no record.
      pub handle-Outcome :
          (e : Endpoint)
          → IsIntact h.svc.audit
          → length h.svc.audit.records + 2 < 2 ^ 64
          → Outcome (traces e) (expected_status e h r) h (handle decoders now later h r e)
      unfolding expected_status unauthorized
      handle-Outcome e intact room = elim (Option-cases (auth h r)) [
        | inl a ↦
            rw (a, expected_status) (rw (handle-unauthorized a e) (refused (traces e) 401 h _ refl))
        | inr (id, a) ↦ rw (a, expected_status) (handle_for id a intact room e)
      ]

      -- The log stays intact whatever is asked.
      pub handle-IsIntact :
          (e : Endpoint)
          → IsIntact h.svc.audit
          → length h.svc.audit.records + 2 < 2 ^ 64
          → IsIntact (handle decoders now later h r e).0.svc.audit
      handle-IsIntact e intact room =
          let o = handle-Outcome e intact room in
          elim (Bool-cases (is_logged (expected_status e h r))) [
            | inl logged ↦ (o.traced logged).0
            | inr passed ↦
                subst (λ (g : Handler). IsIntact g.svc.audit) (sym (o.unchanged passed)) intact
          ]
