-- ===== src/Vector/Idempotence.antt =====
-- An upsert that is repeated.
use sentinellog.Prelude.{
  ◌≡◌, ◌≢◌, sym, subst, Option, some, if◌then◌else◌, arith, inl, inr, refl, ap, ◌∙◌, Bool, true,
  false, ◌||◌, Bool-cases, Text, codes, List, [], ◌∷◌, ◌++◌, ◌==◌, text_eq, text_beq_iff,
}
use sentinellog.Prelude.Map.{lookup, insert, lookup-insert}
use sentinellog.Prelude.Float.{Float}
use sentinellog.Vector.{value_or, Item, MemVectorStore, ref_key, partition, is_present, upsert}
use sentinellog.Vector.Isolation.{or_right, upsert-cases}

module _ ⦃fl : Float⦄ where
  -- The test of the two early returns of `Upsert`.
  skips : MemVectorStore → Text → Text → Bool
  skips s tenant ref = (tenant == codes "" || ref == codes "") || is_present s (ref_key tenant ref)

  upsert-skipped :
      (s : MemVectorStore) (it : Item) → skips s it.tenant_id it.ref ≡ true → upsert s it ≡ s
  unfolding skips upsert
  upsert-skipped s it h = elim (Bool-cases (it.tenant_id == codes "" || it.ref == codes "")) [
    | inl e ↦ simp e refl
    | inr e ↦ simp (e, or_right _ _ e h) refl
  ]

  is_present-insert :
      (s : MemVectorStore) (items : List (Text × List Item)) (key : Text)
      → is_present (record { items = items; by_ref = insert key true s.by_ref }) key ≡ true
  unfolding is_present value_or
  is_present-insert s items key =
      let same : (key == key) ≡ true = (text_beq_iff key key).1 refl in
      ap (value_or false) (lookup-insert key key true s.by_ref) ∙ simp same refl

  skips-upsert : (s : MemVectorStore) (it : Item) → skips (upsert s it) it.tenant_id it.ref ≡ true
  unfolding skips upsert
  skips-upsert s it = elim (Bool-cases (it.tenant_id == codes "" || it.ref == codes "")) [
    | inl e ↦ simp e refl
    | inr e ↦ elim (Bool-cases (is_present s (ref_key it.tenant_id it.ref))) [
      | inl p ↦ simp (e, p) refl
      | inr p ↦
          simp (e, p)
            (is_present-insert s (insert it.tenant_id (partition s it.tenant_id ++ it ∷ []) s.items)
              (ref_key it.tenant_id it.ref))
    ]
  ]

  -- An upsert of a reference that its tenant has upserted before changes nothing, whatever else the
  -- item holds.
  pub upsert-upsert :
      (s : MemVectorStore) (it again : Item)
      → again.tenant_id ≡ it.tenant_id
      → again.ref ≡ it.ref
      → upsert (upsert s it) again ≡ upsert s it
  upsert-upsert s it again t r = upsert-skipped (upsert s it) again (
      ap (λ u. skips (upsert s it) u again.ref) t
      ∙ ap (λ u. skips (upsert s it) it.tenant_id u) r
      ∙ skips-upsert s it)

  value_or-kept :
      (c : Bool) (o : Option Bool)
      → value_or false o ≡ true
      → value_or false (if c then some true else o) ≡ true
  unfolding value_or
  value_or-kept true o h = refl
  value_or-kept false o h = h

  -- An upsert takes no reference back.
  pub is_present-kept :
      (s : MemVectorStore) (it : Item) (key : Text)
      → is_present s key ≡ true
      → is_present (upsert s it) key ≡ true
  unfolding is_present
  is_present-kept s it key h = elim (upsert-cases s it) [
    | inl same ↦ subst (λ (x : MemVectorStore). is_present x key ≡ true) (sym same) h
    | inr (_, new) ↦
        let k : Text = ref_key it.tenant_id it.ref in
        subst (λ (x : MemVectorStore). is_present x key ≡ true) (sym new)
          (ap (value_or false) (lookup-insert k key true s.by_ref)
            ∙ value_or-kept (k == key) (lookup key s.by_ref) h)
  ]

  -- A reference of a named tenant that is skipped is one that the store has.
  skips-is_present :
      (s : MemVectorStore) (tenant ref : Text)
      → tenant ≢ codes ""
      → ref ≢ codes ""
      → skips s tenant ref ≡ true
      → is_present s (ref_key tenant ref) ≡ true
  unfolding skips
  skips-is_present s tenant ref t r h =
      ground (arith, t, r, h, text_beq_iff tenant (codes ""), text_beq_iff ref (codes ""))

  -- After an upsert the store has the reference, unless the tenant or the reference is empty.
  pub is_present-upsert :
      (s : MemVectorStore) (it : Item)
      → it.tenant_id ≢ codes ""
      → it.ref ≢ codes ""
      → is_present (upsert s it) (ref_key it.tenant_id it.ref) ≡ true
  is_present-upsert s it t r =
      skips-is_present (upsert s it) it.tenant_id it.ref t r (skips-upsert s it)
