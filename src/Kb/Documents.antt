-- ===== src/Kb/Documents.antt =====
-- Documents are found by their reference and inside their tenant alone.
use mathlib.Core.List.{Memᴰ}
use sentinellog.Prelude.{
  ℕ, ◌+◌, ◌^◌, ◌≤◌, ◌<◌, ◌≡◌, ◌≢◌, refl, sym, ap, subst, ◌∙◌, inl, inr, false, Bool-cases, ◌&&◌,
  Text, List, [], ◌∷◌, ◌++◌, some, if◌then◌else◌, ◌==◌, nat_eq, text_eq, text_beq_iff,
  text_beq-false, nat_beq_iff, All, All-imp, All-append, arith, u64,
}
use sentinellog.Prelude.Map.{insert}
use sentinellog.Prelude.Float.{Float}
use sentinellog.Embed.{Embedder}
use sentinellog.Vector.{MemVectorStore, partition}
use sentinellog.Vector.Isolation.{partition-upsert_other, IsPartitioned, upsert-IsPartitioned}
use sentinellog.Kb.{Kind, Doc, doc_ref, KbStore, new, find_ref, get_by_ref, new_doc, doc_item, add}

-- The keys of the map are IDs that were given out, and each document has its key for its ID.
pub record IsNumbered (s : KbStore) : Type 0 where
  pub given : All (λ p. p.0 ≤ s.next_id) s.docs
  pub named : All (λ (p : ℕ × Doc). p.1.id ≡ p.0) s.docs

pub new-IsNumbered : IsNumbered new
unfolding new
new-IsNumbered = record { given = tt; named = tt }

insert_fresh :
    (id : ℕ) (d : Doc) (docs : List (ℕ × Doc)) (next : ℕ)
    → All (λ p. p.0 ≤ next) docs
    → next < id
    → insert id d docs ≡ docs ++ (id, d) ∷ []
unfolding insert
insert_fresh id d [] next a h = refl
insert_fresh id d ((j, e) ∷ docs) next a h =
    ground (arith, a.0, nat_beq_iff j id, insert_fresh id d docs next a.1 h)

find_ref_other :
    (tenant ref : Text) (docs : List (ℕ × Doc)) (id : ℕ) (d : Doc)
    → d.tenant_id ≢ tenant
    → find_ref tenant ref (docs ++ (id, d) ∷ []) ≡ find_ref tenant ref docs
unfolding find_ref
find_ref_other tenant ref [] id d other =
    let theirs : (d.tenant_id == tenant) ≡ false = text_beq-false d.tenant_id tenant other in
    simp theirs refl
find_ref_other tenant ref ((j, e) ∷ docs) id d other =
    ap (λ r. if e.tenant_id == tenant && doc_ref e == ref then some e else r)
      (find_ref_other tenant ref docs id d other)

find_ref_complete :
    (tenant ref : Text) (docs : List (ℕ × Doc)) (id : ℕ) (d : Doc)
    → d.tenant_id ≡ tenant
    → doc_ref d ≡ ref
    → (found : Doc) × (find_ref tenant ref (docs ++ (id, d) ∷ []) ≡ some found)
unfolding find_ref
find_ref_complete tenant ref [] id d t r =
    (d, ground (arith, text_beq_iff d.tenant_id tenant, text_beq_iff (doc_ref d) ref, t, r))
find_ref_complete tenant ref ((j, e) ∷ docs) id d t r =
    elim (Bool-cases (e.tenant_id == tenant && doc_ref e == ref)) [
      | inl here ↦ (e, simp here refl)
      | inr other ↦
          let (found, h) = find_ref_complete tenant ref docs id d t r in (found, simp other h)
    ]

-- A document that is found is one of the store's, of the tenant that asks, under the reference that
-- it asks for; if none is found, the tenant has none under the reference.
find_ref_sound :
    (tenant ref : Text) (docs : List (ℕ × Doc)) (d : Doc)
    → find_ref tenant ref docs ≡ some d
    → ((id : ℕ) × Memᴰ (id, d) docs) × (d.tenant_id ≡ tenant) × (doc_ref d ≡ ref)
unfolding find_ref
find_ref_sound tenant ref [] d h = absurd (ground (arith, h))
find_ref_sound tenant ref ((j, e) ∷ docs) d h =
    elim (Bool-cases (e.tenant_id == tenant && doc_ref e == ref)) [
      | inl found ↦
          let same : e ≡ d = ground (arith, found, h) in
          (
            (j, Memᴰ.head (ap (λ x. (j, x)) (sym same))),
            sym (ap (λ (x : Doc). x.tenant_id) same)
                ∙ (text_beq_iff e.tenant_id tenant).0 (ground (arith, found)),
            sym (ap doc_ref same) ∙ (text_beq_iff (doc_ref e) ref).0 (ground (arith, found)),
          )
      | inr other ↦
          let ((id, m), t, r) = find_ref_sound tenant ref docs d (simp other at h) in
          ((id, Memᴰ.tail m), t, r)
    ]

with_docs : List (ℕ × Doc) → ℕ → KbStore
with_docs docs next_id = record { docs = docs; next_id = next_id }

module _ ⦃fl : Float⦄ (emb : Embedder) (s : KbStore) (vec : MemVectorStore) (tenant : Text)
    (kind : Kind) (title content : Text) (tags : List Text) where
  docs-add :
      IsNumbered s
      → s.next_id + 1 < 2 ^ 64
      → (add emb s vec tenant kind title content tags).1 ≡ record {
        docs = s.docs ++ (s.next_id + 1, new_doc s tenant kind title content tags) ∷ [];
        next_id = s.next_id + 1;
      }
  unfolding add new_doc with_docs
  docs-add v room =
      let d : Doc = new_doc s tenant kind title content tags in
      let e : u64 (s.next_id + 1) ≡ s.next_id + 1 = omega (arith, room) in
      ap (λ i. with_docs (insert i d s.docs) i) e
      ∙ ap (λ l. with_docs l (s.next_id + 1))
          (insert_fresh (s.next_id + 1) d s.docs s.next_id v.given (omega arith))

  -- A store after the document `d` is added to `s`: it is numbered, the reference of `d` finds a
  -- document of the tenant under that reference, and what another tenant finds is what it found.
  abbrev pub Holds : Doc → KbStore → Type 0
  Holds d after =
      IsNumbered after
      × ((found : Doc) × (get_by_ref after tenant (doc_ref d) ≡ some found)
          × (found.tenant_id ≡ tenant)
          × (doc_ref found ≡ doc_ref d))
      × ((other ref : Text) → tenant ≢ other → get_by_ref after other ref ≡ get_by_ref s other ref)

  grown-Holds :
      (d : Doc)
      → d.tenant_id ≡ tenant
      → d.id ≡ s.next_id + 1
      → IsNumbered s
      → Holds d (with_docs (s.docs ++ (s.next_id + 1, d) ∷ []) (s.next_id + 1))
  unfolding get_by_ref with_docs
  grown-Holds d t i v =
      let n = s.next_id + 1 in
      let (found, h) = find_ref_complete tenant (doc_ref d) s.docs n d t refl in
      let (_, t', r) = find_ref_sound tenant (doc_ref d) (s.docs ++ (n, d) ∷ []) found h in
      (
        record {
          given =
              All-append (λ (p : ℕ × Doc). p.0 ≤ n) s.docs ((n, d) ∷ [])
                (All-imp (λ p le. omega (arith, le)) s.docs v.given) (omega arith, tt);
          named = All-append (λ (p : ℕ × Doc). p.1.id ≡ p.0) s.docs ((n, d) ∷ []) v.named (i, tt);
        },
        (found, h, t', r),
        λ other ref differs. find_ref_other other ref s.docs n d (λ e. differs (sym t ∙ e)),
      )

  -- `Add` on a numbered store leaves it numbered; the new document's reference finds a document of
  -- its tenant under that reference, and what another tenant finds is what it found before.
  pub add_found :
      IsNumbered s
      → s.next_id + 1 < 2 ^ 64
      → Holds
          (add emb s vec tenant kind title content tags).0
          (add emb s vec tenant kind title content tags).1
  unfolding add new_doc with_docs
  add_found v room =
      subst (Holds (new_doc s tenant kind title content tags)) (sym (docs-add v room))
        (grown-Holds (new_doc s tenant kind title content tags) refl (omega (arith, room)) v)

  -- The vector store of another tenant is left alone.
  pub partition-add_other :
      (other : Text)
      → tenant ≢ other
      → partition (add emb s vec tenant kind title content tags).2 other ≡ partition vec other
  unfolding add doc_item new_doc
  partition-add_other other differs =
      partition-upsert_other vec (doc_item emb (new_doc s tenant kind title content tags)) other
        differs

  pub add-IsPartitioned :
      IsPartitioned vec → IsPartitioned (add emb s vec tenant kind title content tags).2
  unfolding add doc_item new_doc
  add-IsPartitioned v =
      upsert-IsPartitioned vec (doc_item emb (new_doc s tenant kind title content tags)) v
