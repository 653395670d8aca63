-- ===== src/Kb.antt =====
-- internal/kb: the knowledge base, whose documents are indexed as they are added.
pub mod Documents
use sentinellog.Prelude.{
  ℕ, zero, suc, ◌+◌, ◌≡◌, ◌≢◌, Bool, true, false, ◌&&◌, Text, codes, List, [], ◌∷◌, ◌++◌, map,
  Option, none, some, if◌then◌else◌, ◌==◌, nat_eq, text_eq, u64, length,
}
use sentinellog.Prelude.Map.{insert}
use sentinellog.Prelude.Float.{Float}
use sentinellog.Model.Decimal.{format_uint}
use sentinellog.Embed.{Embedder}
use sentinellog.Vector.{Item, MemVectorStore, upsert}

-- `Kind` is a string in the source.
abbrev pub Kind : Type 0
Kind = Text

abbrev pub runbook : Kind
runbook = codes "runbook"

abbrev pub postmortem : Kind
postmortem = codes "postmortem"

pub record Doc : Type 0 where
  pub id : ℕ
  pub tenant_id : Text
  pub kind : Kind
  pub title : Text
  pub content : Text
  pub tags : List Text

unfoldable pub doc_ref : Doc → Text
doc_ref d = codes "kb:" ++ d.kind ++ (b':' ∷ format_uint d.id)

-- The embedder and the vector store of the source's record are arguments of `add`.
pub record KbStore : Type 0 where
  pub docs : List (ℕ × Doc)
  pub next_id : ℕ  -- atomic.Uint64

unfoldable pub new : KbStore
new = record { docs = []; next_id = 0 }

-- The loop of `GetByRef`, in the order that the map is visited in.
find_ref : Text → Text → List (ℕ × Doc) → Option Doc
find_ref tenant ref [] = none
find_ref tenant ref ((id, d) ∷ rest) =
    if d.tenant_id == tenant && doc_ref d == ref then some d else find_ref tenant ref rest

pub get_by_ref : KbStore → Text → Text → Option Doc
unfolding find_ref
get_by_ref s tenant ref = find_ref tenant ref s.docs

pub len : KbStore → ℕ
len s = length s.docs

module _ ⦃fl : Float⦄ where
  -- The item that `Add` hands to the vector store.
  doc_item : Embedder → Doc → Item
  doc_item emb d = record {
    tenant_id = d.tenant_id;
    ref = doc_ref d;
    source_type = d.kind;
    vec = emb.embed (d.title ++ b'\n' ∷ d.content);
    version = emb.version;
  }

  pub new_doc : KbStore → Text → Kind → Text → Text → List Text → Doc
  new_doc s tenant kind title content tags = record {
    id = u64 (s.next_id + 1);
    tenant_id = tenant;
    kind = kind;
    title = title;
    content = content;
    tags = tags;
  }

  pub add :
      Embedder
      → KbStore
      → MemVectorStore
      → Text
      → Kind
      → Text
      → Text
      → List Text
      → Doc × KbStore × MemVectorStore
  unfolding new_doc doc_item
  add emb s vec tenant kind title content tags =
      let d = new_doc s tenant kind title content tags in
      (d, record { docs = insert d.id d s.docs; next_id = d.id }, upsert vec (doc_item emb d))
