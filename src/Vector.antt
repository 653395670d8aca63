-- ===== src/Vector.antt =====
-- internal/vector: the vector store, with a partition for each tenant.
pub mod Isolation
pub mod Idempotence
pub mod Ranking
use sentinellog.Prelude.{
  ℕ, zero, suc, ◌+◌, ℤ, pos, negsuc, Bool, true, false, ◌||◌, Text, codes, List, [], ◌∷◌, ◌++◌, map,
  Option, none, some, if◌then◌else◌, ◌==◌, text_eq, ltb, length, take,
}
use sentinellog.Prelude.Map.{lookup, insert}
use sentinellog.Prelude.Float.{Float}
use sentinellog.Prelude.Sorting.{Sorting}
use sentinellog.Embed.{cosine}

-- `m[k]` of a missing key is the zero value.
pub value_or {ℓ} : {A : Type ℓ} → A → Option A → A
value_or a none = a
value_or a (some b) = b

module _ ⦃fl : Float⦄ where
  pub record Item : Type 0 where
    pub tenant_id : Text
    pub ref : Text
    pub source_type : Text
    pub vec : List fl.F
    pub version : Text

  -- The embedded `Item` is opened, as Go promotes its fields.
  pub record Hit : Type 0 where
    pub item : Item
    pub open item use *
    pub score : fl.F

  pub record MemVectorStore : Type 0 where
    pub items : List (Text × List Item)
    pub by_ref : List (Text × Bool)

  pub new_mem : MemVectorStore
  new_mem = record { items = []; by_ref = [] }

  -- The key of `by_ref`.
  abbrev pub ref_key : Text → Text → Text
  ref_key tenant ref = tenant ++ 0 ∷ ref

  -- `s.items[tenant]`
  pub partition : MemVectorStore → Text → List Item
  unfolding value_or
  partition s tenant = value_or [] (lookup tenant s.items)

  -- `s.byRef[key]`
  pub is_present : MemVectorStore → Text → Bool
  unfolding value_or
  is_present s key = value_or false (lookup key s.by_ref)

  pub upsert : MemVectorStore → Item → MemVectorStore
  upsert s it =
      if it.tenant_id == codes "" || it.ref == codes ""
      then s
      else if is_present s (ref_key it.tenant_id it.ref)
      then s
      else record {
        items = insert it.tenant_id (partition s it.tenant_id ++ it ∷ []) s.items;
        by_ref = insert (ref_key it.tenant_id it.ref) true s.by_ref;
      }

  -- `if k <= 0 { k = 5 }`
  pub k_or_five : ℤ → ℕ
  k_or_five (pos zero) = 5
  k_or_five (pos (suc n)) = suc n
  k_or_five (negsuc n) = 5

  pub score_item : List fl.F → Item → Hit
  score_item query it = record { item = it; score = cosine query it.vec }

  -- The less function that `Search` hands to sort.Slice: the higher score comes first.
  abbrev pub scores_higher : Hit → Hit → Bool
  scores_higher a b = fl.lt b.score a.score

  pub search : Sorting Hit → MemVectorStore → Text → List fl.F → ℤ → List Hit
  search sorting s tenant query k =
      if tenant == codes ""
      then []
      else let hits =
          sorting.sort_slice scores_higher (map (score_item query) (partition s tenant)) in
        if ltb (k_or_five k) (length hits) then take (k_or_five k) hits else hits

  count_items : List (Text × List Item) → ℕ
  count_items [] = 0
  count_items ((t, l) ∷ rest) = length l + count_items rest

  pub len : MemVectorStore → ℕ
  unfolding count_items
  len s = count_items s.items
