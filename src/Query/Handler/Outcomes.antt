-- ===== src/Query/Handler/Outcomes.antt =====
-- What each endpoint does for an identity.
use sentinellog.Prelude.{
  ℕ, ◌+◌, ◌^◌, ◌<◌, ◌≡◌, refl, ap, ℤ, ◌⊎◌, inl, inr, Text, codes, if◌then◌else◌, ◌==◌, text_eq,
  ◌||◌, Option, none, some, Bool, true, false, length, arith, Bool-cases, nat_eq,
}
use sentinellog.Prelude.Strings.{Runtime}
use sentinellog.Prelude.Float.{Float}
use sentinellog.Audit.Append.{IsIntact, append-IsIntact}
use sentinellog.Rbac.{Identity, can, action_search, action_rag, action_anomaly}
use sentinellog.Query.{
  Result, ok, found, Service, record_query, structured_search, semantic_search, why_did_fail,
}
use sentinellog.Store.{limit_or, search_made, has_room}
use sentinellog.Query.Answers.{why-forbidden}
use sentinellog.Query.Grounding.{why-IsGrounded, why_audited}
use sentinellog.Query.Handler.{
  Endpoint, SearchBody, SemanticBody, WhyBody, Request, Response, failure, encoded, aborted,
  search_query, Payload, Handler, read_body, respond, finish, search_body, semantic_body, why_body,
  anomalies_for,
}

-- The capability that an endpoint asks for.
pub capability : Endpoint → Text
capability Endpoint.search = action_search
capability Endpoint.semantic = action_search
capability Endpoint.why = action_rag
capability Endpoint.anomalies = action_anomaly

-- The records that an answer adds to the audit log.
unfoldable pub traces : Endpoint → ℕ
traces Endpoint.search = 1
traces Endpoint.semantic = 1
traces Endpoint.why = 2
traces Endpoint.anomalies = 0

module _ ⦃rt : Runtime⦄ ⦃fl : Float⦄ where
  -- The status of an answer; a panic gives none.
  pub status : Response → Option ℕ
  status (failure n text) = some n
  status (encoded payload) = some 200
  status aborted = none

  -- Of the resolved identity and the reading of the body, the first that fails sets the status;
  -- `served` is the status of a request that is let through.
  pub granted : Text → Identity → Option ℕ → Option ℕ
  granted action id served = if can id.role action then served else some 403

  unfoldable pub body_status {ℓ} :
      {B : Type ℓ} → Text → Identity → Request → (B → Option ℕ) → Text ⊎ B → Option ℕ
  unfolding granted
  body_status action id r served (inl err) = if r.method == codes "POST" then some 400 else some 405
  body_status action id r served (inr b) =
      if r.method == codes "POST" then granted action id (served b) else some 405

  -- A search is answered if the slice for its results can be made.
  unfoldable pub search_served : Identity → SearchBody → Option ℕ
  search_served id b =
      if id.tenant_id == codes "" || rt.makes (limit_or 100 b.limit) then some 200 else none

  -- Whether a request with this status has gone as far as the audit log.
  abbrev pub is_logged : Option ℕ → Bool
  is_logged none = true
  is_logged (some code) = code == 200

  -- The same log, or one with `n` more records, intact; nothing else of the handler differs.
  abbrev pub IsTraced : ℕ → Handler → Handler → Type 0
  IsTraced n h u =
      IsIntact u.svc.audit
      × (length u.svc.audit.records ≡ length h.svc.audit.records + n)
      × (u ≡ record h { svc = record h.svc { audit = u.svc.audit } })

  -- A handler's result `out` on `h`, where `expected` is the status.
  pub record Outcome (n : ℕ) (expected : Option ℕ) (h : Handler) (out : Handler × Response)
      : Type 0 where
    pub status_is : status out.1 ≡ expected
    pub unchanged : is_logged expected ≡ false → out.0 ≡ h
    pub traced : is_logged expected ≡ true → IsTraced n h out.0

  pub refused :
      (n code : ℕ) (h : Handler) (text : Text)
      → (code == 200) ≡ false
      → Outcome n (some code) h (h, failure code text)
  unfolding status
  refused n code h text other = record {
    status_is = refl;
    unchanged = λ _. refl;
    traced = λ e. absurd (ground (arith, e, other));
  }

  answered :
      (n : ℕ) (h : Handler) (svc : Service) (payload : Payload)
      → IsTraced n h (record h { svc = svc })
      → Outcome n (some 200) h (record h { svc = svc }, encoded payload)
  unfolding status
  answered n h svc payload t = record {
    status_is = refl;
    unchanged = λ other. absurd (ground (arith, other));
    traced = λ _. t;
  }

  cut_off :
      (n : ℕ) (h : Handler) (svc : Service)
      → IsTraced n h (record h { svc = svc })
      → Outcome n none h (record h { svc = svc }, aborted)
  unfolding status
  cut_off n h svc t = record {
    status_is = refl;
    unchanged = λ other. absurd (ground (arith, other));
    traced = λ _. t;
  }

  -- One more record of the search in an intact log.
  recorded :
      (h : Handler) (now : ℤ) (id : Identity) (action resource : Text)
      → IsIntact h.svc.audit
      → length h.svc.audit.records + 2 < 2 ^ 64
      → IsTraced 1 h (record h { svc = record_query h.svc now id action resource })
  unfolding record_query
  recorded h now id action resource intact room =
      let (kept, _, longer) =
        append-IsIntact now id.tenant_id id.actor action resource h.svc.audit intact
          (omega arith) in
      (kept, longer, refl)

  module _ (now later : ℤ) (h : Handler) (id : Identity) (intact : IsIntact h.svc.audit)
      (room : length h.svc.audit.records + 2 < 2 ^ 64) where
    pub search-Outcome :
        (b : SearchBody)
        → Outcome 1 (granted action_search id (search_served id b)) h (search_body now h id (inr b))
    unfolding search_body search_query finish structured_search granted respond found search_made
        has_room search_served
    search-Outcome b = elim (Bool-cases (can id.role action_search)) [
      | inl may ↦
          let t = recorded h now id action_search _ intact room in
          elim (Bool-cases (id.tenant_id == codes "" || rt.makes (limit_or 100 b.limit))) [
            | inl made ↦ simp (may, made) (answered 1 h _ _ t)
            | inr full ↦ simp (may, full) (cut_off 1 h _ t)
          ]
      | inr denied ↦ simp denied (refused 1 403 h _ refl)
    ]

    pub semantic-Outcome :
        (b : SemanticBody)
        → Outcome 1 (granted action_search id (some 200)) h (semantic_body now h id (inr b))
    unfolding semantic_body finish semantic_search granted respond
    semantic-Outcome b = elim (Bool-cases (can id.role action_search)) [
      | inl may ↦ simp may (answered 1 h _ _ (recorded h now id action_search _ intact room))
      | inr denied ↦ simp denied (refused 1 403 h _ refl)
    ]

    finish_ok :
        {A : Type 0} (payload : A → Payload) (out : Service × Result A) {a : A}
        → out.1 ≡ ok a
        → finish h payload out ≡ (record h { svc = out.0 }, encoded (payload a))
    unfolding finish respond
    finish_ok payload (svc, result) e = rw e refl

    pub why-Outcome :
        (b : WhyBody)
        → Outcome 2 (granted action_rag id (some 200)) h (why_body now later h id (inr b))
    unfolding why_body granted
    why-Outcome b = elim (Bool-cases (can id.role action_rag)) [
      | inl may ↦
          let (a, e, _) = why-IsGrounded h.svc now later id b.question b.k may in
          let (kept, _, longer, same) =
            why_audited h.svc now later id b.question b.k may intact room in
          simp (may, finish_ok Payload.answer (why_did_fail h.svc now later id b.question b.k) e)
            (answered 2 h _ _ (kept, longer, ap (λ (s : Service). record h { svc = s }) same))
      | inr denied ↦
          simp (denied, why-forbidden h.svc now later id b.question b.k denied)
            (refused 2 403 h _ refl)
    ]

    pub anomalies-Outcome : Outcome 0 (granted action_anomaly id (some 200)) h (anomalies_for h id)
    unfolding anomalies_for granted respond
    anomalies-Outcome = elim (Bool-cases (can id.role action_anomaly)) [
      | inl may ↦ simp may (answered 0 h h.svc _ (intact, omega arith, refl))
      | inr denied ↦ simp denied (refused 0 403 h _ refl)
    ]

    pub read_body-Outcome :
        {B : Type 0} (r : Request) (action : Text) (served : B → Option ℕ) (n : ℕ) (read : Text ⊎ B)
        (rest : Response ⊎ B → Handler × Response)
        → ((failed : Response) → rest (inl failed) ≡ (h, failed))
        → ((b : B) → Outcome n (granted action id (served b)) h (rest (inr b)))
        → Outcome n (body_status action id r served read) h (rest (read_body r read))
    unfolding read_body body_status
    read_body-Outcome r action served n (inl err) rest stops goes =
        elim (Bool-cases (r.method == codes "POST")) [
          | inr other ↦ simp (other, stops) (refused n 405 h _ refl)
          | inl post ↦ simp (post, stops) (refused n 400 h _ refl)
        ]
    read_body-Outcome r action served n (inr b) rest stops goes =
        elim (Bool-cases (r.method == codes "POST")) [
          | inr other ↦ simp (other, stops) (refused n 405 h _ refl)
          | inl post ↦ simp post (goes b)
        ]
