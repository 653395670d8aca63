-- ===== src/Query/Isolation.antt =====
-- Tenants do not see each other through the service.
use sentinellog.Prelude.{
  ◌+◌, ◌^◌, ◌<◌, ◌≡◌, ◌≢◌, refl, sym, ap, subst, ◌∙◌, inl, inr, ℤ, Bool-cases, Text, List, All,
}
use sentinellog.Prelude.Strings.{Runtime}
use sentinellog.Prelude.Float.{Float}
use sentinellog.Model.{LogEntry}
use sentinellog.Store.{write_batch}
use sentinellog.Store.Others.{get-write_batch_other}
use sentinellog.Vector.{Item, upsert}
use sentinellog.Vector.Isolation.{partition-upsert_other}
use sentinellog.Kb.{Kind, add}
use sentinellog.Kb.Documents.{IsNumbered, add_found, partition-add_other}
use sentinellog.Audit.{Log}
use sentinellog.Rbac.{Identity, can, action_rag}
use sentinellog.Query.{ok, Service, why_did_fail}
use sentinellog.Query.Answers.{Agrees, grounded_answer, grounded_answer-cong, why-eq, why-forbidden}

module _ ⦃rt : Runtime⦄ ⦃fl : Float⦄ where
  -- A step of the program that is no write of the tenant: another tenant's entries are stored, its
  -- vectors or its documents are added, or the audit log changes.
  pub data Foreign (tenant : Text) (s u : Service) : Type 0 where
    wrote :
        (batch : List LogEntry)
        → All (λ (e : LogEntry). e.tenant_id ≢ tenant) batch
        → u ≡ record s { store = write_batch s.store batch }
        → Foreign tenant s u
    indexed :
        (it : Item)
        → it.tenant_id ≢ tenant
        → u ≡ record s { vec = upsert s.vec it }
        → Foreign tenant s u
    documented :
        (owner : Text) (kind : Kind) (title content : Text) (tags : List Text)
        → owner ≢ tenant
        → IsNumbered s.kb
        → s.kb.next_id + 1 < 2 ^ 64
        → u ≡ record s {
          kb = (add s.emb s.kb s.vec owner kind title content tags).1;
          vec = (add s.emb s.kb s.vec owner kind title content tags).2;
        }
        → Foreign tenant s u
    audited : (log : Log) → u ≡ record s { audit = log } → Foreign tenant s u

  pub data History (tenant : Text) (s : Service) : Service → Type 0 where
    here : History tenant s s
    next : {t u : Service} → History tenant s t → Foreign tenant t u → History tenant s u

  pub Foreign-Agrees : {tenant : Text} {s u : Service} → Foreign tenant s u → Agrees u s tenant
  Foreign-Agrees {tenant} {s} (wrote batch others e) =
      subst (λ x. Agrees x s tenant) (sym e)
        (record {
          embeds = λ _. refl;
          sorts = refl;
          scores = refl;
          formats = refl;
          partitions = refl;
          entries = λ id. get-write_batch_other batch s.store tenant id others;
          docs = λ _. refl;
        })
  Foreign-Agrees {tenant} {s} (indexed it other e) =
      subst (λ x. Agrees x s tenant) (sym e)
        (record {
          embeds = λ _. refl;
          sorts = refl;
          scores = refl;
          formats = refl;
          partitions = partition-upsert_other s.vec it tenant other;
          entries = λ _. refl;
          docs = λ _. refl;
        })
  Foreign-Agrees {tenant} {s} (documented owner kind title content tags other v room e) =
      subst (λ x. Agrees x s tenant) (sym e)
        (record {
          embeds = λ _. refl;
          sorts = refl;
          scores = refl;
          formats = refl;
          partitions =
              partition-add_other s.emb s.kb s.vec owner kind title content tags tenant other;
          entries = λ _. refl;
          docs = λ ref.
              (add_found s.emb s.kb s.vec owner kind title content tags v room).2 tenant ref other;
        })
  Foreign-Agrees {tenant} {s} (audited log e) =
      subst (λ x. Agrees x s tenant) (sym e)
        (record {
          embeds = λ _. refl;
          sorts = refl;
          scores = refl;
          formats = refl;
          partitions = refl;
          entries = λ _. refl;
          docs = λ _. refl;
        })

  History-answer :
      (tenant question : Text) (k : ℤ) {s u : Service}
      → History tenant s u
      → grounded_answer u tenant question k ≡ grounded_answer s tenant question k
  History-answer tenant question k here = refl
  History-answer tenant question k (next before step) =
      grounded_answer-cong _ _ tenant (Foreign-Agrees step) question k
      ∙ History-answer tenant question k before

  -- What the other tenants store, index and document, in any order and however often, and what the
  -- audit log records, changes no answer to a tenant: not its text, not its citations, not whether it
  -- is refused.
  pub why_noninterference :
      (s u : Service) (now later now' later' : ℤ) (id : Identity) (question : Text) (k : ℤ)
      → History id.tenant_id s u
      → (why_did_fail u now' later' id question k).1 ≡ (why_did_fail s now later id question k).1
  why_noninterference s u now later now' later' id question k h =
      elim (Bool-cases (can id.role action_rag)) [
        | inl may ↦
            ap (λ p. p.1) (why-eq u now' later' id question k may)
            ∙ ap ok (History-answer id.tenant_id question k h)
            ∙ sym (ap (λ p. p.1) (why-eq s now later id question k may))
        | inr denied ↦
            ap (λ p. p.1) (why-forbidden u now' later' id question k denied)
            ∙ sym (ap (λ p. p.1) (why-forbidden s now later id question k denied))
      ]
