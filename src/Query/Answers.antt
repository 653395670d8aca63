-- ===== src/Query/Answers.antt =====
-- The answers of the service depend on the tenant's own data alone.
use sentinellog.Prelude.{
  ℕ, suc, ◌≡◌, refl, ap, ◌∙◌, inl, inr, ℤ, true, false, Text, codes, List, [], ◌∷◌, ◌++◌, filter,
  Option, none, some, text_eq, drop, arith,
}
use sentinellog.Prelude.Strings.{Runtime}
use sentinellog.Prelude.Float.{Float}
use sentinellog.Model.Decimal.{parse_uint}
use sentinellog.Store.{get}
use sentinellog.Vector.{Hit, MemVectorStore, partition}
use sentinellog.Vector.Isolation.{search-cong}
use sentinellog.Kb.{get_by_ref}
use sentinellog.Rbac.{Identity, can, can_iff, Grants, action_search, action_rag}
use sentinellog.Query.{
  forbidden, ok, Answer, Service, SemanticHit, record_query, log_snippet, resolve_snippet,
  resolve_hits, find_hits, semantic_search, is_relevant, cited, answer_from, finish_why, summary,
  summary_line, why_did_fail, truncate,
}

-- Whoever may ask why may search, so the search inside is never forbidden.
search_granted : (role : Text) → Grants role action_rag → Grants role action_search
search_granted role (inl (e, _)) = absurd (ground (arith, e))
search_granted role (inr (inl (_, r))) = inl (refl, inr r)
search_granted role (inr (inr (inl (e, _)))) = absurd (ground (arith, e))
search_granted role (inr (inr (inr (e, _)))) = absurd (ground (arith, e))

pub rag_searches : (role : Text) → can role action_rag ≡ true → can role action_search ≡ true
rag_searches role h =
    (can_iff role action_search).1 (search_granted role ((can_iff role action_rag).0 h))

module _ ⦃rt : Runtime⦄ ⦃fl : Float⦄ where
  -- Two services with the same configuration and the same data of one tenant.
  pub record Agrees (s u : Service) (tenant : Text) : Type 0 where
    pub embeds : (text : Text) → s.emb.embed text ≡ u.emb.embed text
    pub sorts : s.sorting ≡ u.sorting
    pub scores : s.min_score ≡ u.min_score
    pub formats : s.format_score ≡ u.format_score
    pub partitions : partition s.vec tenant ≡ partition u.vec tenant
    pub entries : (id : ℕ) → get s.store tenant id ≡ get u.store tenant id
    pub docs : (ref : Text) → get_by_ref s.kb tenant ref ≡ get_by_ref u.kb tenant ref

  module _ (s u : Service) (tenant : Text) (same : Agrees s u tenant) where
    log_snippet-cong :
        (id : Option ℕ) → log_snippet s.store tenant id ≡ log_snippet u.store tenant id
    unfolding log_snippet
    log_snippet-cong none = refl
    log_snippet-cong (some id) = rw (same.entries id) refl

    resolve_snippet-cong :
        (ref : Text) → resolve_snippet s tenant ref ≡ resolve_snippet u tenant ref
    unfolding resolve_snippet
    resolve_snippet-cong ref = cc (log_snippet-cong (parse_uint (drop 4 ref)), same.docs ref)

    resolve_hits-cong : (hs : List Hit) → resolve_hits s tenant hs ≡ resolve_hits u tenant hs
    unfolding resolve_hits
    resolve_hits-cong [] = refl
    resolve_hits-cong (h ∷ hs) = cc (resolve_snippet-cong h.ref, resolve_hits-cong hs)

    pub find_hits-cong :
        (text : Text) (k : ℤ) → find_hits s tenant text k ≡ find_hits u tenant text k
    unfolding find_hits
    find_hits-cong text k =
        resolve_hits-cong (sentinellog.Vector.search s.sorting s.vec tenant (s.emb.embed text) k)
        ∙ ap (λ q. resolve_hits u tenant (sentinellog.Vector.search s.sorting s.vec tenant q k))
            (same.embeds text)
        ∙ ap
            (λ o.
              resolve_hits u tenant (sentinellog.Vector.search o s.vec tenant (u.emb.embed text) k))
            same.sorts
        ∙ ap (resolve_hits u tenant)
            (search-cong u.sorting s.vec u.vec tenant (u.emb.embed text) k same.partitions)

    summary-cong : (i : ℕ) (hs : List SemanticHit) → summary s i hs ≡ summary u i hs
    unfolding summary summary_line
    summary-cong i [] = refl
    summary-cong i (h ∷ hs) = rw (summary-cong (suc i) hs, same.formats) refl

    answer_from-cong :
        (question : Text) (hs : List SemanticHit)
        → answer_from s question hs ≡ answer_from u question hs
    unfolding answer_from cited
    answer_from-cong question [] = refl
    answer_from-cong question (h ∷ hs) = rw (summary-cong 1 (h ∷ hs)) refl

    relevant-cong : (hs : List SemanticHit) → filter (is_relevant s) hs ≡ filter (is_relevant u) hs
    unfolding is_relevant
    relevant-cong hs = rw same.scores refl

  -- The answer to a question, from what the data of the tenant give.
  unfoldable pub grounded_answer : Service → Text → Text → ℤ → Answer
  unfolding is_relevant find_hits answer_from
  grounded_answer s tenant question k =
      answer_from s question (filter (is_relevant s) (find_hits s tenant question k))

  pub grounded_answer-cong :
      (s u : Service) (tenant : Text)
      → Agrees s u tenant
      → (question : Text) (k : ℤ)
      → grounded_answer s tenant question k ≡ grounded_answer u tenant question k
  unfolding grounded_answer
  grounded_answer-cong s u tenant same question k =
      answer_from-cong s u tenant same question _
      ∙ ap (answer_from u question) (relevant-cong s u tenant same _)
      ∙ ap (λ hs. answer_from u question (filter (is_relevant u) hs))
          (find_hits-cong s u tenant same question k)

  module _ (s : Service) (now later : ℤ) (id : Identity) (question : Text) (k : ℤ) where
    -- The service after the two records of a question.
    unfoldable pub asked : Service
    unfolding record_query truncate
    asked =
        record_query (record_query s now id action_rag (truncate question 128)) later id
          action_search (codes "semantic:" ++ truncate question 64)

    first-Agrees : Agrees (record_query s now id action_rag (truncate question 128)) s id.tenant_id
    unfolding record_query
    first-Agrees = record {
      embeds = λ _. refl;
      sorts = refl;
      scores = refl;
      formats = refl;
      partitions = refl;
      entries = λ _. refl;
      docs = λ _. refl;
    }

    asked-Agrees : Agrees asked s id.tenant_id
    unfolding asked record_query
    asked-Agrees = record {
      embeds = λ _. refl;
      sorts = refl;
      scores = refl;
      formats = refl;
      partitions = refl;
      entries = λ _. refl;
      docs = λ _. refl;
    }

    why-asked :
        can id.role action_rag ≡ true
        → why_did_fail s now later id question k ≡ (
          asked,
          ok (
              answer_from asked question (
                filter (is_relevant asked) (
                  find_hits
                    (record_query s now id action_rag (truncate question 128))
                    id.tenant_id
                    question
                    k))),
        )
    unfolding why_did_fail semantic_search finish_why asked
    why-asked may =
        let search : can id.role action_search ≡ true = rag_searches id.role may in
        simp (may, search) refl

    pub why-eq :
        can id.role action_rag ≡ true
        → why_did_fail s now later id question k
          ≡ (asked, ok (grounded_answer s id.tenant_id question k))
    unfolding grounded_answer
    why-eq may =
        why-asked may
        ∙ ap (λ a. (asked, ok a))
            (answer_from-cong asked s id.tenant_id asked-Agrees question _
              ∙ ap (answer_from s question) (relevant-cong asked s id.tenant_id asked-Agrees _)
              ∙ ap (λ hs. answer_from s question (filter (is_relevant s) hs))
                  (find_hits-cong (record_query s now id action_rag (truncate question 128)) s
                    id.tenant_id first-Agrees question k))

    pub why-forbidden :
        can id.role action_rag ≡ false → why_did_fail s now later id question k ≡ (s, forbidden)
    unfolding why_did_fail
    why-forbidden no_right = simp no_right refl
