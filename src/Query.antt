-- ===== src/Query.antt =====
-- internal/query: the service of structured search, semantic search and "why did it fail".
pub mod Answers
pub mod Grounding
pub mod Isolation
pub mod Handler
use sentinellog.Prelude.{
  ℕ, zero, suc, ◌+◌, ℤ, Bool, true, false, not, ◌||◌, Text, codes, List, [], ◌∷◌, ◌++◌, map, filter,
  any, Option, none, some, if◌then◌else◌, ◌==◌, nat_eq, text_eq, leb, length, take, drop,
}
use sentinellog.Prelude.Strings.{Runtime, has_prefix, contains}
use sentinellog.Prelude.Float.{Float}
use sentinellog.Prelude.Sorting.{Sorting}
use sentinellog.Model.{StoredEntry}
use sentinellog.Model.Decimal.{format_uint, parse_uint}
use sentinellog.Store.{Query, MemStore, get, search_made}
use sentinellog.Embed.{Embedder}
use sentinellog.Vector.{Item, Hit, MemVectorStore}
use sentinellog.Kb.{KbStore, Doc, get_by_ref}
use sentinellog.Audit.{Log, append}
use sentinellog.Rbac.{Identity, can, action_search, action_rag}

-- An error of the layer, `ErrForbidden`, or the value, or a panic below.
pub data Result {ℓ} (A : Type ℓ) : Type ℓ where
  forbidden : Result A
  ok : A → Result A
  panicked : Result A

-- The bytes of U+2026.
abbrev ellipsis : Text
ellipsis = 226 ∷ 128 ∷ 166 ∷ []

-- The bytes of U+2014 between two spaces.
abbrev dash : Text
dash = 32 ∷ 226 ∷ 128 ∷ 148 ∷ 32 ∷ []

-- Bytes are cut, so a rune may be cut in two.
pub truncate : Text → ℕ → Text
truncate s n = if leb (length s) n then s else take n s ++ ellipsis

kb_snippet : Option Doc → Text
unfolding truncate
kb_snippet none = []
kb_snippet (some d) = d.title ++ (dash ++ truncate d.content 240)

entry_message : Option StoredEntry → Text
entry_message none = []
entry_message (some e) = e.message

log_snippet : MemStore → Text → Option ℕ → Text
unfolding entry_message
log_snippet store tenant none = []
log_snippet store tenant (some id) = entry_message (get store tenant id)

injection_markers : List Text
injection_markers =
    codes "ignore previous instructions"
    ∷ codes "ignore all previous"
    ∷ codes "disregard the above"
    ∷ codes "you are now"
    ∷ codes "system prompt"
    ∷ codes "reveal your"
    ∷ codes "override your instructions"
    ∷ []

pub record Answer : Type 0 where
  pub question : Text
  pub text : Text
  pub citations : List Text
  pub refused : Bool
  pub reason : Text
  pub injection_hit : Bool

no_evidence : Text
no_evidence =
    codes "There is not enough evidence in this tenant's logs and runbooks "
    ++ codes "to answer with confidence. Narrow the service or time window, or add a "
    ++ codes "relevant runbook."

refusal : Text → Answer
refusal question = record {
  question = question;
  text = no_evidence;
  citations = [];
  refused = true;
  reason = codes "insufficient grounded evidence in this tenant's logs/runbooks";
  injection_hit = false;
}

module _ ⦃rt : Runtime⦄ ⦃fl : Float⦄ where
  -- `format_score` is the verb `%.2f` of the package fmt.
  pub record Service : Type 0 where
    pub store : MemStore
    pub vec : MemVectorStore
    pub emb : Embedder
    pub kb : KbStore
    pub audit : Log
    pub min_score : fl.F
    pub sorting : Sorting Hit
    pub format_score : fl.F → Text

  pub record SemanticHit : Type 0 where
    pub ref : Text
    pub source_type : Text
    pub score : fl.F
    pub snippet : Text

  -- `s.Audit.Append(id.TenantID, id.Actor, action, resource)` at the time `now`
  record_query : Service → ℤ → Identity → Text → Text → Service
  record_query s now id action resource = record s {
    audit = (append s.audit now id.tenant_id id.actor action resource).0;
  }

  pub found : Option (List StoredEntry) → Result (List StoredEntry)
  found none = panicked
  found (some entries) = ok entries

  pub structured_search : Service → ℤ → Identity → Query → Service × Result (List StoredEntry)
  unfolding record_query found
  structured_search s now id q = if not (can id.role action_search) then (s, forbidden) else (
    record_query s now id action_search (codes "structured:" ++ q.service),
    found (search_made s.store (record q { tenant_id = id.tenant_id })),
  )

  pub resolve_snippet : Service → Text → Text → Text
  unfolding log_snippet kb_snippet
  resolve_snippet s tenant ref =
      if has_prefix ref (codes "log:")
      then log_snippet s.store tenant (parse_uint (drop 4 ref))
      else if has_prefix ref (codes "kb:")
      then kb_snippet (get_by_ref s.kb tenant ref)
      else []

  -- The loop over the hits.
  resolve_hits : Service → Text → List Hit → List SemanticHit
  resolve_hits s tenant [] = []
  resolve_hits s tenant (h ∷ hs) =
      let rest = resolve_hits s tenant hs in
      let snip = resolve_snippet s tenant h.ref in
      if snip == codes ""
      then rest
      else record { ref = h.ref; source_type = h.source_type; score = h.score; snippet = snip }
        ∷ rest

  -- The hits of a semantic search, after the role is checked and the search is recorded.
  pub find_hits : Service → Text → Text → ℤ → List SemanticHit
  unfolding resolve_hits
  find_hits s tenant text k =
      resolve_hits s tenant (sentinellog.Vector.search s.sorting s.vec tenant (s.emb.embed text) k)

  pub semantic_search : Service → ℤ → Identity → Text → ℤ → Service × Result (List SemanticHit)
  unfolding record_query find_hits truncate
  semantic_search s now id text k = if not (can id.role action_search) then (s, forbidden) else (
    record_query s now id action_search (codes "semantic:" ++ truncate text 64),
    ok (find_hits s id.tenant_id text k),
  )

  pub has_injection : Text → Bool
  unfolding injection_markers
  has_injection s = any (λ m. contains (rt.to_lower s) m) injection_markers

  -- The snippet as it is quoted.
  quoted : Text → Text
  quoted snippet =
      if has_injection snippet
      then codes "[content contains suspicious directives - treated as data, not executed] "
        ++ snippet
      else snippet

  -- One line of the summary, `"%d. [%s] (score %.2f) %s\n"`.
  summary_line : Service → ℕ → SemanticHit → Text
  unfolding truncate quoted
  summary_line s number h =
      format_uint number
      ++ (codes ". ["
          ++ h.ref
          ++ (codes "] (score "
              ++ s.format_score h.score
              ++ (codes ") " ++ truncate (quoted h.snippet) 200 ++ b'\n' ∷ [])))

  -- The lines from the number `i` on.
  summary : Service → ℕ → List SemanticHit → Text
  unfolding summary_line
  summary s i [] = []
  summary s i (h ∷ hs) = summary_line s i h ++ summary s (suc i) hs

  cited : Service → Text → List SemanticHit → Answer
  unfolding summary
  cited s question relevant = record {
    question = question;
    text =
        codes "Based on the "
        ++ (format_uint (length relevant)
            ++ (codes " most relevant sources in this tenant, here is a cited summary:\n\n"
                ++ (summary s 1 relevant
                    ++ codes "\nEvery conclusion above traces back to the cited [ref] sources.")));
    citations = map (λ (h : SemanticHit). h.ref) relevant;
    refused = false;
    reason = [];
    injection_hit = any (λ (h : SemanticHit). has_injection h.snippet) relevant;
  }

  -- `h.Score >= s.MinScore`
  pub is_relevant : Service → SemanticHit → Bool
  is_relevant s h = fl.le s.min_score h.score

  answer_from : Service → Text → List SemanticHit → Answer
  unfolding refusal cited
  answer_from s question [] = refusal question
  answer_from s question (h ∷ hs) = cited s question (h ∷ hs)

  finish_why : Text → Service × Result (List SemanticHit) → Service × Result Answer
  unfolding answer_from
  finish_why question (s, forbidden) = (s, forbidden)
  finish_why question (s, panicked) = (s, panicked)
  finish_why question (s, ok hits) = (s, ok (answer_from s question (filter (is_relevant s) hits)))

  -- `now` and `later` are the readings of the clock for the two records.
  pub why_did_fail : Service → ℤ → ℤ → Identity → Text → ℤ → Service × Result Answer
  unfolding record_query finish_why truncate
  why_did_fail s now later id question k =
      if not (can id.role action_rag)
      then (s, forbidden)
      else finish_why question (
          semantic_search (record_query s now id action_rag (truncate question 128)) later id
            question k)
