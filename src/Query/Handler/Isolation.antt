-- ===== src/Query/Handler/Isolation.antt =====
-- Tenants do not see each other through the endpoints.
use sentinellog.Prelude.{
  ◌≡◌, ◌≢◌, refl, sym, ap, ◌∙◌, ℤ, ◌⊎◌, inl, inr, Text, none, some, if◌then◌else◌, filter,
  Bool-cases, Option-cases, text_eq,
}
use sentinellog.Prelude.Strings.{Runtime}
use sentinellog.Prelude.Float.{Float}
use sentinellog.Store.{Query, has_room, search_made}
use sentinellog.Store.Search.{search_noninterference, of_tenant}
use sentinellog.Store.Others.{filter-write_batch_other}
use sentinellog.Rbac.{Identity, can, action_search}
use sentinellog.Query.{
  Service, Result, find_hits, found, structured_search, semantic_search, why_did_fail,
}
use sentinellog.Query.Answers.{find_hits-cong}
use sentinellog.Query.Isolation.{History, Foreign, Foreign-Agrees, why_noninterference}
use sentinellog.Query.Handler.{
  Endpoint, SearchBody, SemanticBody, WhyBody, Decoders, Request, Response, Payload, Handler, auth,
  decode, respond, finish, search_query, search_body, semantic_body, why_body, handle_search,
  handle_semantic, handle_why, handle_anomalies, handle,
}

module _ ⦃rt : Runtime⦄ ⦃fl : Float⦄ where
  Foreign-entries :
      {tenant : Text} {s u : Service}
      → Foreign tenant s u
      → filter (of_tenant tenant) u.store.entries ≡ filter (of_tenant tenant) s.store.entries
  Foreign-entries {tenant} {s} (Foreign.wrote batch others e) =
      ap (λ (x : Service). filter (of_tenant tenant) x.store.entries) e
      ∙ filter-write_batch_other batch s.store tenant others
  Foreign-entries {tenant} (Foreign.indexed it other e) =
      ap (λ (x : Service). filter (of_tenant tenant) x.store.entries) e
  Foreign-entries {tenant} (Foreign.documented owner kind title content tags other v room e) =
      ap (λ (x : Service). filter (of_tenant tenant) x.store.entries) e
  Foreign-entries {tenant} (Foreign.audited log e) =
      ap (λ (x : Service). filter (of_tenant tenant) x.store.entries) e

  History-entries :
      {tenant : Text} {s u : Service}
      → History tenant s u
      → filter (of_tenant tenant) u.store.entries ≡ filter (of_tenant tenant) s.store.entries
  History-entries History.here = refl
  History-entries (History.next before step) = Foreign-entries step ∙ History-entries before

  History-hits :
      (tenant text : Text) (k : ℤ) {s u : Service}
      → History tenant s u
      → find_hits u tenant text k ≡ find_hits s tenant text k
  History-hits tenant text k History.here = refl
  History-hits tenant text k (History.next before step) =
      find_hits-cong _ _ tenant (Foreign-Agrees step) text k ∙ History-hits tenant text k before

  module _ (s u : Service) (now now' : ℤ) (id : Identity) (past : History id.tenant_id s u) where
    structured_noninterference :
        (q : Query) → (structured_search u now' id q).1 ≡ (structured_search s now id q).1
    unfolding structured_search search_made
    structured_noninterference q = elim (Bool-cases (can id.role action_search)) [
      | inl may ↦ simp may (
          ap
            (λ entries.
              found
                (if has_room (record q { tenant_id = id.tenant_id }) then some entries else none))
            (search_noninterference u.store s.store (record q { tenant_id = id.tenant_id })
              (History-entries past)))
      | inr denied ↦ simp denied refl
    ]

    semantic_noninterference :
        (text : Text) (k : ℤ)
        → (semantic_search u now' id text k).1 ≡ (semantic_search s now id text k).1
    unfolding semantic_search
    semantic_noninterference text k = elim (Bool-cases (can id.role action_search)) [
      | inl may ↦ simp may (ap Result.ok (History-hits id.tenant_id text k past))
      | inr denied ↦ simp denied refl
    ]

  finish_response :
      {A : Type 0} (h : Handler) (payload : A → Payload) (out : Service × Result A)
      → (finish h payload out).1 ≡ respond payload out.1
  unfolding finish
  finish_response h payload (svc, result) = refl

  module _ (h g : Handler) (now later now' later' : ℤ) (id : Identity)
      (past : History id.tenant_id h.svc g.svc) where
    search_body_noninterference :
        (b : Response ⊎ SearchBody) → (search_body now' g id b).1 ≡ (search_body now h id b).1
    unfolding search_body
    search_body_noninterference (inl failed) = refl
    search_body_noninterference (inr b) =
        finish_response g Payload.entries (structured_search g.svc now' id (search_query b))
        ∙ ap (respond Payload.entries)
            (structured_noninterference h.svc g.svc now now' id past (search_query b))
        ∙ sym (finish_response h Payload.entries (structured_search h.svc now id (search_query b)))

    semantic_body_noninterference :
        (b : Response ⊎ SemanticBody) → (semantic_body now' g id b).1 ≡ (semantic_body now h id b).1
    unfolding semantic_body
    semantic_body_noninterference (inl failed) = refl
    semantic_body_noninterference (inr b) =
        finish_response g Payload.hits (semantic_search g.svc now' id b.query b.k)
        ∙ ap (respond Payload.hits)
            (semantic_noninterference h.svc g.svc now now' id past b.query b.k)
        ∙ sym (finish_response h Payload.hits (semantic_search h.svc now id b.query b.k))

    why_body_noninterference :
        (b : Response ⊎ WhyBody) → (why_body now' later' g id b).1 ≡ (why_body now later h id b).1
    unfolding why_body
    why_body_noninterference (inl failed) = refl
    why_body_noninterference (inr b) =
        finish_response g Payload.answer (why_did_fail g.svc now' later' id b.question b.k)
        ∙ ap (respond Payload.answer)
            (why_noninterference h.svc g.svc now later now' later' id b.question b.k past)
        ∙ sym (finish_response h Payload.answer (why_did_fail h.svc now later id b.question b.k))

  module _ (decoders : Decoders) (h g : Handler) (now later now' later' : ℤ) (r : Request) where
    handle_known :
        (id : Identity) (e : Endpoint)
        → e ≢ Endpoint.anomalies
        → auth h r ≡ some id
        → auth g r ≡ some id
        → History id.tenant_id h.svc g.svc
        → (handle decoders now' later' g r e).1 ≡ (handle decoders now later h r e).1
    unfolding handle
    handle_known id Endpoint.search other a b past =
        rw (a, b, handle_search)
          (search_body_noninterference h g now later now' later' id past (decode decoders.search r))
    handle_known id Endpoint.semantic other a b past =
        rw (a, b, handle_semantic)
          (semantic_body_noninterference h g now later now' later' id past
            (decode decoders.semantic r))
    handle_known id Endpoint.why other a b past =
        rw (a, b, handle_why)
          (why_body_noninterference h g now later now' later' id past (decode decoders.why r))
    handle_known id Endpoint.anomalies other a b past = absurd (other refl)

    handle_unknown :
        (e : Endpoint)
        → auth h r ≡ none
        → auth g r ≡ none
        → (handle decoders now' later' g r e).1 ≡ (handle decoders now later h r e).1
    unfolding handle
    handle_unknown Endpoint.search a b = rw (a, b, handle_search) refl
    handle_unknown Endpoint.semantic a b = rw (a, b, handle_semantic) refl
    handle_unknown Endpoint.why a b = rw (a, b, handle_why) refl
    handle_unknown Endpoint.anomalies a b = rw (a, b, handle_anomalies) refl

    -- Two servers that resolve a request's token alike, where the second has besides seen only what
    -- other tenants than the token's store, index and document, and any audit records, give the
    -- request the same response, status and body, at each endpoint but the one of the anomalies.
    pub handle_noninterference :
        (e : Endpoint)
        → e ≢ Endpoint.anomalies
        → auth g r ≡ auth h r
        → ((id : Identity) → auth h r ≡ some id → History id.tenant_id h.svc g.svc)
        → (handle decoders now' later' g r e).1 ≡ (handle decoders now later h r e).1
    handle_noninterference e other same past = elim (Option-cases (auth h r)) [
      | inl a ↦ handle_unknown e a (same ∙ a)
      | inr (id, a) ↦ handle_known id e other a (same ∙ a) (past id a)
    ]
