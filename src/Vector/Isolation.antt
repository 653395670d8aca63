-- ===== src/Vector/Isolation.antt =====
-- The tenants' partitions and what an upsert does to them.
use sentinellog.Prelude.{
  ℕ, ◌≡◌, ◌≢◌, ◌⊎◌, inl, inr, refl, sym, ap, subst, ◌∙◌, ℤ, Bool, true, false, ◌||◌, Bool-cases,
  Text, codes, List, [], ◌∷◌, ◌++◌, map, Option, some, if◌then◌else◌, ◌==◌, text_eq, text_beq_iff,
  text_beq-different, ltb, length, take, arith, All, All-append, All-take, All-imp,
}
use sentinellog.Prelude.Map.{lookup, insert, lookup-insert}
use sentinellog.Prelude.Float.{Float}
use sentinellog.Prelude.Sorting.{Sorting, All-Perm}
use sentinellog.Vector.{
  value_or, Item, Hit, MemVectorStore, new_mem, ref_key, partition, is_present, upsert, k_or_five,
  score_item, scores_higher, search,
}

value_or-if {ℓ} :
    {A : Type ℓ} (c : Bool) (a x : A) (o : Option A)
    → value_or a (if c then some x else o) ≡ (if c then x else value_or a o)
unfolding value_or
value_or-if true a x o = refl
value_or-if false a x o = refl

if_other {ℓ} : {A : Type ℓ} (x y : A) (a b : Text) → a ≢ b → (if a == b then x else y) ≡ y
if_other x y a b h = ground (arith, text_beq_iff a b)

pub or_right : (a b : Bool) → a ≡ false → (a || b) ≡ true → b ≡ true
or_right a b e h = ground arith

cut-All {ℓ} :
    {A : Type 0} (P : A → Type ℓ) (k : ℕ) (l : List A)
    → All P l
    → All P (if ltb k (length l) then take k l else l)
cut-All P k l h = elim (Bool-cases (ltb k (length l))) [
  | inl e ↦ simp e (All-take P k l h)
  | inr e ↦ simp e h
]

module _ ⦃fl : Float⦄ where
  -- Every item stands in the partition of its own tenant.
  abbrev pub IsPartitioned : MemVectorStore → Type 0
  IsPartitioned s = (t : Text) → All (λ (it : Item). it.tenant_id ≡ t) (partition s t)

  pub new_mem-IsPartitioned : IsPartitioned new_mem
  unfolding new_mem partition value_or lookup
  new_mem-IsPartitioned t = tt

  -- The three ways of an upsert.
  pub upsert-cases :
      (s : MemVectorStore) (it : Item)
      → (upsert s it ≡ s)
        ⊎ ((is_present s (ref_key it.tenant_id it.ref) ≡ false)
            × ((upsert s it) ≡ record {
              items = insert it.tenant_id (partition s it.tenant_id ++ it ∷ []) s.items;
              by_ref = insert (ref_key it.tenant_id it.ref) true s.by_ref;
            }))
  unfolding upsert
  upsert-cases s it = elim (Bool-cases (it.tenant_id == codes "" || it.ref == codes "")) [
    | inl e ↦ inl (simp e refl)
    | inr e ↦ elim (Bool-cases (is_present s (ref_key it.tenant_id it.ref))) [
      | inl p ↦ inl (simp (e, p) refl)
      | inr p ↦ inr (p, simp (e, p) refl)
    ]
  ]

  -- What the partitions are after an upsert that is not skipped.
  partition-upsert :
      (s : MemVectorStore) (it : Item) (t : Text)
      → partition
          (record {
            items = insert it.tenant_id (partition s it.tenant_id ++ it ∷ []) s.items;
            by_ref = insert (ref_key it.tenant_id it.ref) true s.by_ref;
          })
          t
        ≡ (if it.tenant_id == t then partition s it.tenant_id ++ it ∷ [] else partition s t)
  unfolding partition value_or
  partition-upsert s it t =
      ap (value_or []) (lookup-insert it.tenant_id t (partition s it.tenant_id ++ it ∷ []) s.items)
      ∙ value_or-if (it.tenant_id == t) [] (partition s it.tenant_id ++ it ∷ []) (lookup t s.items)

  at_tenant :
      (s : MemVectorStore) (it : Item) (t : Text)
      → IsPartitioned s
      → All
          (λ (x : Item). x.tenant_id ≡ t)
          (if it.tenant_id == t then partition s it.tenant_id ++ it ∷ [] else partition s t)
  at_tenant s it t valid = elim (Bool-cases (it.tenant_id == t)) [
    | inl e ↦
        let same : it.tenant_id ≡ t = (text_beq_iff it.tenant_id t).0 e in
        simp e (
          All-append (λ (x : Item). x.tenant_id ≡ t) (partition s it.tenant_id) (it ∷ [])
            (subst (λ u. All (λ (x : Item). x.tenant_id ≡ t) (partition s u)) (sym same) (valid t))
            (same, tt))
    | inr e ↦ simp e (valid t)
  ]

  pub upsert-IsPartitioned :
      (s : MemVectorStore) (it : Item) → IsPartitioned s → IsPartitioned (upsert s it)
  upsert-IsPartitioned s it valid = elim (upsert-cases s it) [
    | inl same ↦ subst IsPartitioned (sym same) valid
    | inr (_, new) ↦ subst IsPartitioned (sym new) (λ t.
        subst (All (λ (x : Item). x.tenant_id ≡ t)) (sym (partition-upsert s it t))
          (at_tenant s it t valid))
  ]

  pub partition-upsert_other :
      (s : MemVectorStore) (it : Item) (t : Text)
      → it.tenant_id ≢ t
      → partition (upsert s it) t ≡ partition s t
  partition-upsert_other s it t other = elim (upsert-cases s it) [
    | inl same ↦ ap (λ (x : MemVectorStore). partition x t) same
    | inr (_, new) ↦
        ap (λ (x : MemVectorStore). partition x t) new
        ∙ partition-upsert s it t
        ∙ if_other _ _ it.tenant_id t other
  ]

  All-score :
      (query : List fl.F) (t : Text) (l : List Item)
      → All (λ (x : Item). x.tenant_id ≡ t) l
      → All (λ (h : Hit). h.tenant_id ≡ t) (map (score_item query) l)
  unfolding score_item
  All-score query t [] h = tt
  All-score query t (x ∷ l) h = (h.0, All-score query t l h.1)

  module _ (sorting : Sorting Hit) where
    -- A search returns items of the tenant that asks and of no other, however well theirs match, and
    -- keeps doing so after any upsert; for the empty tenant it returns nothing.
    pub search_isolated :
        (s : MemVectorStore) (tenant : Text) (query : List fl.F) (k : ℤ)
        → IsPartitioned s
        → All
            (λ (h : Hit). (h.tenant_id ≡ tenant) × (tenant ≢ codes ""))
            (search sorting s tenant query k)
    unfolding search
    search_isolated s tenant query k valid = elim (Bool-cases (tenant == codes "")) [
      | inl e ↦ simp (search, e) tt
      | inr e ↦
          let P = λ (h : Hit). (h.tenant_id ≡ tenant) × (tenant ≢ codes "") in
          let named : tenant ≢ codes "" = λ n. text_beq-different tenant (codes "") e n in
          let found : All P
              (sorting.sort_slice scores_higher (map (score_item query) (partition s tenant))) =
            All-Perm P (sorting.perm scores_higher _) (
              All-imp (λ h t. (t, named)) (map (score_item query) (partition s tenant))
                (All-score query tenant (partition s tenant) (valid tenant))) in
          simp (search, e) (cut-All P (k_or_five k) _ found)
    ]

    pub search-cong :
        (s s' : MemVectorStore) (tenant : Text) (query : List fl.F) (k : ℤ)
        → partition s tenant ≡ partition s' tenant
        → search sorting s tenant query k ≡ search sorting s' tenant query k
    unfolding search
    search-cong s s' tenant query k e = rw e refl

    -- What one tenant upserts changes no search of another.
    pub search_noninterference_vec :
        (s : MemVectorStore) (it : Item) (tenant : Text) (query : List fl.F) (k : ℤ)
        → it.tenant_id ≢ tenant
        → search sorting (upsert s it) tenant query k ≡ search sorting s tenant query k
    search_noninterference_vec s it tenant query k other =
        search-cong (upsert s it) s tenant query k (partition-upsert_other s it tenant other)
