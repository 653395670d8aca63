-- ===== src/Query/Grounding.antt =====
-- What an answer rests on, and what it leaves in the audit log.
use sentinellog.Prelude.{
  ◌+◌, ◌^◌, ◌<◌, ◌≡◌, ◌≢◌, ◌↔◌, refl, sym, ap, subst, ◌∙◌, inl, inr, ℤ, true, Bool-cases, Text,
  codes, List, [], ◌∷◌, ◌++◌, map, filter, any, none, ◌==◌, text_eq, text_beq-different, All,
  All-zip, All-Memᴰ, filter-All, filter-All_of_All, length, arith,
}
use mathlib.Core.List.{Memᴰ}
use sentinellog.Prelude.Strings.{Runtime}
use sentinellog.Prelude.Float.{Float}
use sentinellog.Vector.{Hit}
use sentinellog.Audit.{Log, append, verify}
use sentinellog.Audit.Append.{IsIntact, append-IsIntact}
use sentinellog.Rbac.{Identity, can, action_search, action_rag}
use sentinellog.Query.{
  ok, Answer, Service, SemanticHit, record_query, resolve_snippet, resolve_hits, find_hits,
  has_injection, is_relevant, answer_from, cited, refusal, why_did_fail, truncate,
}
use sentinellog.Query.Answers.{grounded_answer, asked, why-eq}

module _ ⦃rt : Runtime⦄ ⦃fl : Float⦄ (s : Service) (tenant : Text) where
  -- A hit whose snippet is what its reference resolves to inside the tenant, which is not empty.
  IsResolved : SemanticHit → Type 0
  IsResolved h = (h.snippet ≡ resolve_snippet s tenant h.ref) × (h.snippet ≢ [])

  resolve_hits-IsResolved : (hs : List Hit) → All IsResolved (resolve_hits s tenant hs)
  unfolding resolve_hits IsResolved
  resolve_hits-IsResolved [] = tt
  resolve_hits-IsResolved (h ∷ hs) =
      elim (Bool-cases (resolve_snippet s tenant h.ref == codes "")) [
        | inl e ↦ simp e (resolve_hits-IsResolved hs)
        | inr e ↦ simp e ((refl, λ n. text_beq-different _ [] e n), resolve_hits-IsResolved hs)
      ]

  module _ (question : Text) (k : ℤ) where
    -- A reference that an answer may rest on: a hit of the search has it, scores high enough, and it
    -- resolves inside the tenant to a text that is not empty.
    pub Supports : Text → Type 0
    Supports ref =
        (h : SemanticHit) × Memᴰ h (find_hits s tenant question k)
        × (h.ref ≡ ref)
        × (fl.le s.min_score h.score ≡ true)
        × (resolve_snippet s tenant ref ≢ [])

    pub IsGrounded : Answer → Type 0
    IsGrounded a =
        All Supports a.citations
        × ((a.refused ≡ true) ↔ (a.citations ≡ []))
        × ((a.injection_hit ≡ true)
            → (h : SemanticHit) × Memᴰ h (find_hits s tenant question k)
              × (has_injection h.snippet ≡ true))

    IsSupport : SemanticHit → Type 0
    IsSupport h = (Memᴰ h (find_hits s tenant question k) × IsResolved h) × (is_relevant s h ≡ true)

    IsSupport-Supports :
        (hs : List SemanticHit)
        → All IsSupport hs
        → All Supports (map (λ (h : SemanticHit). h.ref) hs)
    unfolding IsSupport Supports IsResolved is_relevant
    IsSupport-Supports [] a = tt
    IsSupport-Supports (h ∷ hs) (a, rest) =
        ((h, a.0.0, refl, a.1, λ e. a.0.1.1 (a.0.1.0 ∙ e)), IsSupport-Supports hs rest)

    some_injection :
        (hs : List SemanticHit)
        → All IsSupport hs
        → any (λ (h : SemanticHit). has_injection h.snippet) hs ≡ true
        → (h : SemanticHit) × Memᴰ h (find_hits s tenant question k)
          × (has_injection h.snippet ≡ true)
    unfolding IsSupport
    some_injection [] a e = absurd (ground (arith, e))
    some_injection (h ∷ hs) a e = elim (Bool-cases (has_injection h.snippet)) [
      | inl found ↦ (h, a.0.0.0, found)
      | inr other ↦ some_injection hs a.1 (simp other at e)
    ]

    answer_from-IsGrounded :
        (hs : List SemanticHit) → All IsSupport hs → IsGrounded (answer_from s question hs)
    unfolding IsGrounded answer_from cited refusal
    answer_from-IsGrounded [] a = (tt, (λ _. refl, λ _. refl), λ e. absurd (ground (arith, e)))
    answer_from-IsGrounded (h ∷ hs) a = (
      IsSupport-Supports (h ∷ hs) a,
      (λ e. absurd (ground (arith, e)), λ e. absurd (ground (arith, e))),
      some_injection (h ∷ hs) a,
    )

    find_hits-IsSupport : All IsSupport (filter (is_relevant s) (find_hits s tenant question k))
    unfolding find_hits IsSupport
    find_hits-IsSupport =
        let found = find_hits s tenant question k in
        let In = λ (h : SemanticHit). Memᴰ h found × IsResolved h in
        let all : All In found =
          All-zip (λ (h : SemanticHit). Memᴰ h found) IsResolved found (All-Memᴰ found)
            (resolve_hits-IsResolved
              (sentinellog.Vector.search s.sorting s.vec tenant (s.emb.embed question) k)) in
        All-zip In (λ h. is_relevant s h ≡ true) (filter (is_relevant s) found)
          (filter-All_of_All (is_relevant s) In found all) (filter-All (is_relevant s) found)

    grounded_answer-IsGrounded : IsGrounded (grounded_answer s tenant question k)
    unfolding grounded_answer
    grounded_answer-IsGrounded = answer_from-IsGrounded _ find_hits-IsSupport

module _ ⦃rt : Runtime⦄ ⦃fl : Float⦄ where
  -- Whoever has the capability gets an answer to every question, and the answer is grounded: each
  -- citation is the reference of a hit of the semantic search in the asker's tenant whose score
  -- reaches the minimum and which resolves inside the tenant to a text that is not empty; the answer
  -- is a refusal exactly if it cites nothing; and the mark of an injection is set only for a text of
  -- the tenant that carries one.
  pub why-IsGrounded :
      (s : Service) (now later : ℤ) (id : Identity) (question : Text) (k : ℤ)
      → can id.role action_rag ≡ true
      → (a : Answer) × ((why_did_fail s now later id question k).1 ≡ ok a)
        × IsGrounded s id.tenant_id question k a
  why-IsGrounded s now later id question k may = (
    grounded_answer s id.tenant_id question k,
    ap (λ p. p.1) (why-eq s now later id question k may),
    grounded_answer-IsGrounded s id.tenant_id question k,
  )

  -- The service `u` is `s` with two more records in a log that is intact.
  abbrev pub IsTraced : Service → Service → Type 0
  IsTraced s u =
      IsIntact u.audit
      × (verify u.audit ≡ none)
      × (length u.audit.records ≡ length s.audit.records + 2)
      × (u ≡ record s { audit = u.audit })

  -- A question leaves its trace: the audit log stays intact, so that `Verify` accepts it, and has two
  -- more records, one of the question and one of the search inside it; nothing else of the service
  -- changes.
  pub why_audited :
      (s : Service) (now later : ℤ) (id : Identity) (question : Text) (k : ℤ)
      → can id.role action_rag ≡ true
      → IsIntact s.audit
      → length s.audit.records + 2 < 2 ^ 64
      → IsTraced s (why_did_fail s now later id question k).0
  unfolding asked record_query
  why_audited s now later id question k may intact room =
      let e = ap (λ p. p.0) (why-eq s now later id question k may) in
      let resource = truncate question 128 in
      let first =
        append-IsIntact now id.tenant_id id.actor action_rag resource s.audit intact
          (omega arith) in
      let after : Log = (append s.audit now id.tenant_id id.actor action_rag resource).0 in
      let second =
        append-IsIntact later id.tenant_id id.actor action_search
          (codes "semantic:" ++ truncate question 64) after first.0
          (omega (arith, first.2, room)) in
      subst (IsTraced s) (sym e) (second.0, second.1, omega (arith, second.2, first.2), refl)
