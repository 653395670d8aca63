-- ===== src/Tests/Queries.antt =====
-- The vector store, the knowledge base and the query service.
use Prim.Native.Nat.{min}
use mathlib.Core.List.{Permᴰ}
use sentinellog.Prelude.{
  pos, ◌≡◌, refl, codes, List, [], ◌∷◌, ◌++◌, map, false, length, arith, All, text_beq,
}
use sentinellog.Prelude.Sorting.{IsWeakOrder, Ordered}
use sentinellog.Store.{new_mem, write_batch}
use sentinellog.Embed.{Embedder}
use sentinellog.Vector.{
  Item, Hit, MemVectorStore, partition, upsert, search, score_item, scores_higher, k_or_five,
}
use sentinellog.Vector.Ranking.{search_ranked}
use sentinellog.Kb.{runbook, KbStore, add}
use sentinellog.Audit.{Log}
use sentinellog.Rbac.{Identity, admin}
use sentinellog.Query.{ok, Answer, Service, why_did_fail}
use sentinellog.Query.Grounding.{IsGrounded, why-IsGrounded}
use sentinellog.Tests.Fixtures.{plain_runtime, whole, sorting, tenant_a, tenant_b, failed}

abbrev item_a : Item
item_a = record {
  tenant_id = tenant_a;
  ref = codes "log:1";
  source_type = codes "log";
  vec = 1 ∷ 2 ∷ [];
  version = [];
}

abbrev item_b : Item
item_b = record item_a { tenant_id = tenant_b; vec = 9 ∷ 9 ∷ [] }

abbrev vectors : MemVectorStore
vectors = upsert (upsert sentinellog.Vector.new_mem item_a) item_b

scores_weak : IsWeakOrder scores_higher
scores_weak = record {
  asym = λ x y h. ground (arith, h);
  connects = λ x y z h k. ground (arith, h, k);
}

search_ranked_example :
    (rest : List Hit) × Permᴰ
      (search sorting vectors tenant_a (1 ∷ 1 ∷ []) (pos 5) ++ rest)
      (map (score_item (1 ∷ 1 ∷ [])) (partition vectors tenant_a))
    × Ordered scores_higher (search sorting vectors tenant_a (1 ∷ 1 ∷ []) (pos 5))
    × All
        (λ kept. All (λ left. scores_higher left kept ≡ false) rest)
        (search sorting vectors tenant_a (1 ∷ 1 ∷ []) (pos 5))
    × (length (search sorting vectors tenant_a (1 ∷ 1 ∷ []) (pos 5))
        ≡ min (k_or_five (pos 5)) (length (partition vectors tenant_a)))
search_ranked_example =
    search_ranked sorting vectors tenant_a (1 ∷ 1 ∷ []) (pos 5) scores_weak (λ e. ground (arith, e))

abbrev embedder : Embedder
embedder = record { embed = λ s. 1 ∷ 1 ∷ []; dim = 2; version = codes "test" }

abbrev service : Service
service = record {
  store = write_batch new_mem (failed ∷ []);
  vec = vectors;
  emb = embedder;
  kb = sentinellog.Kb.new;
  audit = sentinellog.Audit.new;
  min_score = 1;
  sorting = sorting;
  format_score = λ x. [];
}

abbrev ann : Identity
ann = record { actor = codes "ann"; tenant_id = tenant_a; role = admin }

why-IsGrounded_example :
    (a : Answer) × ((why_did_fail service (pos 1) (pos 2) ann (codes "why") (pos 3)).1 ≡ ok a)
    × IsGrounded service tenant_a (codes "why") (pos 3) a
unfolding sentinellog.Rbac.can text_beq
why-IsGrounded_example = why-IsGrounded service (pos 1) (pos 2) ann (codes "why") (pos 3) refl
