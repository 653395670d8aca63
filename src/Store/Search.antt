-- ===== src/Store/Search.antt =====
-- `Search`: what it returns, and that nothing of another tenant reaches it.
use mathlib.Core.List.{reverse-append}
use sentinellog.Prelude.{
  ℕ, zero, suc, ◌≤◌, ◌≡◌, sym, ap, ◌∙◌, ◌↔◌, ◌⊎◌, inl, inr, Bool, true, Text, codes, List, [], ◌∷◌,
  ◌++◌, reverse, some, arith, ltb, ◌==◌, text_eq, nat_eq, if◌then◌else◌, length, take, get_elem?,
  filter, All, Bool-cases, append_assoc, append-nil, text_beq_iff, take_of_length-le,
  take-length_append, take-suc, get_elem?-some_of_lt, length-append, All-take, All-reverse,
  filter-All_of_All, All-imp, filter-All, filter-reverse, filter-filter_of_imp,
}
use sentinellog.Prelude.Strings.{Runtime, contains}
use sentinellog.Model.{StoredEntry}
use sentinellog.Store.{Query, MemStore, matches, search, search_loop, limit_or}

abbrev pub of_tenant : Text → StoredEntry → Bool
of_tenant tenant e = e.tenant_id == tenant

reverse-take-suc :
    (es : List StoredEntry) (i : ℕ) {x : StoredEntry}
    → get_elem? es i ≡ some x
    → reverse (take (suc i) es) ≡ x ∷ reverse (take i es)
reverse-take-suc es i here = ap reverse (take-suc es i here) ∙ reverse-append (take i es) _

module _ ⦃rt : Runtime⦄ where
  -- The filter of a query, field by field; an empty field or the zero time filters nothing.
  pub record Satisfies (e : StoredEntry) (q : Query) : Type 0 where
    pub same_tenant : e.tenant_id ≡ q.tenant_id
    pub same_service : (q.service ≡ []) ⊎ (e.service ≡ q.service)
    pub same_level : (q.level ≡ []) ⊎ (e.level ≡ q.level)
    pub has_text :
        (q.contains ≡ []) ⊎ (contains (rt.to_lower e.message) (rt.to_lower q.contains) ≡ true)
    pub not_before : (q.since ≡ 0) ⊎ (q.since ≤ e.timestamp)
    pub not_after : (q.until ≡ 0) ⊎ (e.timestamp ≤ q.until)

  matches→Satisfies : (e : StoredEntry) (q : Query) → matches e q ≡ true → Satisfies e q
  unfolding matches
  matches→Satisfies e q h = ground (
    arith,
    text_beq_iff e.tenant_id q.tenant_id,
    text_beq_iff q.service [],
    text_beq_iff e.service q.service,
    text_beq_iff q.level [],
    text_beq_iff e.level q.level,
    text_beq_iff q.contains [],
  )

  Satisfies→matches : (e : StoredEntry) (q : Query) → Satisfies e q → matches e q ≡ true
  unfolding matches
  Satisfies→matches e q h = ground (
    arith,
    text_beq_iff e.tenant_id q.tenant_id,
    text_beq_iff q.service [],
    text_beq_iff e.service q.service,
    text_beq_iff q.level [],
    text_beq_iff e.level q.level,
    text_beq_iff q.contains [],
  )

  -- The test of the loop decides the filter that the query describes.
  pub matches_iff : (e : StoredEntry) (q : Query) → (matches e q ≡ true) ↔ Satisfies e q
  matches_iff e q = (matches→Satisfies e q, Satisfies→matches e q)

  abbrev pub accepted : Query → List StoredEntry → List StoredEntry
  accepted q = filter (λ e. matches e q)

  -- The loop at index `i` has walked the entries from `i` on.
  search_loop-eq :
      (entries : List StoredEntry) (q : Query) (limit i : ℕ) (out : List StoredEntry)
      → i ≤ length entries
      → length out ≤ limit
      → search_loop entries q limit i out
        ≡ take limit (out ++ accepted q (reverse (take i entries)))
  unfolding search_loop
  search_loop-eq entries q limit zero out p r = sym (rw append-nil (take_of_length-le limit out r))
  search_loop-eq entries q limit (suc i) out p r = elim (Bool-cases (ltb (length out) limit)) [
    | inr full ↦
        let exact : limit ≡ length out = ground arith in
        simp full (rw exact (sym (take-length_append out _)))
    | inl room ↦
        let (x, here) = get_elem?-some_of_lt entries i (omega arith) in
        simp (room, here, reverse-take-suc entries i here)
          (elim (Bool-cases (matches x q)) [
            | inr miss ↦ simp miss (search_loop-eq entries q limit i out (omega arith) r)
            | inl hit ↦ simp hit (
                search_loop-eq entries q limit i (out ++ x ∷ []) (omega arith)
                  (ground (arith, length-append out (x ∷ [])))
                ∙ ap (take limit) (append_assoc out (x ∷ []) _))
          ])
  ]

  -- A query with a tenant gets the newest of that tenant's entries that it matches, newest first,
  -- at most as many as its limit; a query without a tenant gets nothing.
  pub search-eq :
      (s : MemStore) (q : Query)
      → search s q ≡ (
          if q.tenant_id == codes ""
          then []
          else take (limit_or 100 q.limit) (accepted q (reverse s.entries)))
  unfolding search
  search-eq s q =
      let limit : ℕ = limit_or 100 q.limit in
      let whole : take (length s.entries) s.entries ≡ s.entries =
        take_of_length-le (length s.entries) s.entries (omega arith) in
      simp
        (search_loop-eq s.entries q limit (length s.entries) [] (omega arith) (omega arith), whole)

  accepted-of_tenant :
      (q : Query) (es : List StoredEntry)
      → accepted q (filter (of_tenant q.tenant_id) es) ≡ accepted q es
  accepted-of_tenant q =
      filter-filter_of_imp (λ e. matches e q) (of_tenant q.tenant_id)
        (λ e h. (text_beq_iff e.tenant_id q.tenant_id).1 (matches→Satisfies e q h).same_tenant)

  -- Every result satisfies the whole filter, its tenant included.
  pub search-Satisfies : (s : MemStore) (q : Query) → All (λ e. Satisfies e q) (search s q)
  search-Satisfies s q = elim (Bool-cases (q.tenant_id == codes "")) [
    | inl closed ↦ simp (search-eq, closed) tt
    | inr scoped ↦
        simp (search-eq, scoped)
          (All-take (λ e. Satisfies e q) _ _
            (All-imp (λ e h. matches→Satisfies e q h) _ (filter-All _ (reverse s.entries))))
  ]

  pub search-All :
      (P : StoredEntry → Type 0) (s : MemStore) (q : Query) → All P s.entries → All P (search s q)
  search-All P s q h = elim (Bool-cases (q.tenant_id == codes "")) [
    | inl closed ↦ simp (search-eq, closed) tt
    | inr scoped ↦
        simp (search-eq, scoped)
          (All-take P _ _ (
            filter-All_of_All (λ e. matches e q) P (reverse s.entries) (All-reverse P s.entries h)))
  ]

  -- What a tenant's query returns depends on that tenant's entries alone: two stores that hold the
  -- same entries of the tenant, in the same order, give the same answer.
  pub search_noninterference :
      (s t : MemStore) (q : Query)
      → filter (of_tenant q.tenant_id) s.entries ≡ filter (of_tenant q.tenant_id) t.entries
      → search s q ≡ search t q
  search_noninterference s t q same =
      let seen : reverse (accepted q s.entries) ≡ reverse (accepted q t.entries) = ap reverse (
        sym (accepted-of_tenant q s.entries)
        ∙ ap (accepted q) same
        ∙ accepted-of_tenant q t.entries) in
      simp (search-eq, filter-reverse, seen)
