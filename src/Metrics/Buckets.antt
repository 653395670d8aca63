-- ===== src/Metrics/Buckets.antt =====
-- What the buckets of a histogram count.
use sentinellog.Prelude.{
  ℕ, zero, suc, ◌+◌, ◌≤◌, ◌<◌, ◌≡◌, refl, sym, ap, subst, ◌∙◌, inl, inr, true, List, [], ◌∷◌, map,
  filter, some, if◌then◌else◌, ltb, length, replicate, get_elem?, u64, arith, Bool-cases, All,
  lt→ltb, get_elem?-some_of_lt,
}
use sentinellog.Prelude.Float.{Float}
use sentinellog.Store.BinarySearch.{sort_search, IsFirst, sort_search-IsFirst}
use sentinellog.Metrics.{Histogram, bounds_ms, new_histogram, at_least, observe_value}
use sentinellog.Metrics.Sums.{sum_below, sum_below-bump, sum_below-replicate, length-bump}

module _ ⦃fl : Float⦄ where
  -- The laws of IEEE 754 that the buckets need; they hold with NaN too.
  pub record IsLinear : Type 0 where
    pub le_trans : (x y z : fl.F) → fl.le x y ≡ true → fl.le y z ≡ true → fl.le x z ≡ true
    pub of_nat_mono : (a b : ℕ) → a ≤ b → fl.le (fl.of_nat a) (fl.of_nat b) ≡ true

  -- Each bound is at least the one before it.
  Rising : List fl.F → Type 0
  Rising bounds =
      (i j : ℕ) (a b : fl.F)
      → i ≤ j
      → get_elem? bounds i ≡ some a
      → get_elem? bounds j ≡ some b
      → fl.le a b ≡ true

  at_least_mono :
      IsLinear
      → (bounds : List fl.F) (v : fl.F) → Rising bounds
      → (k m : ℕ) → k ≤ m
      → m < length bounds
      → at_least bounds v k ≡ true
      → at_least bounds v m ≡ true
  unfolding at_least Rising
  at_least_mono linear bounds v rising k m le lt h =
      let (a, at_k) = get_elem?-some_of_lt bounds k (omega arith) in
      let (b, at_m) = get_elem?-some_of_lt bounds m lt in
      rw (at_m, at_least)
        (linear.le_trans v a b (rw (at_k, at_least) at h) (rising k m a b le at_k at_m))

  abbrev Ascending : List ℕ → Type 0
  Ascending [] = Unit
  Ascending (n ∷ ns) = All (λ m. n ≤ m) ns × Ascending ns

  get_elem?-All :
      (n : ℕ) (ns : List ℕ) (j : ℕ) (b : fl.F)
      → All (λ m. n ≤ m) ns
      → get_elem? (map fl.of_nat ns) j ≡ some b
      → (m : ℕ) × (n ≤ m) × (b ≡ fl.of_nat m)
  get_elem?-All n [] j b up h = ground arith
  get_elem?-All n (m ∷ ns) zero b up h = (m, up.0, ground arith)
  get_elem?-All n (m ∷ ns) (suc j) b up h = get_elem?-All n ns j b up.1 h

  map-Rising : IsLinear → (ns : List ℕ) → Ascending ns → Rising (map fl.of_nat ns)
  unfolding Rising
  map-Rising linear [] up i j a b le p q = ground arith
  map-Rising linear (n ∷ ns) up zero zero a b le p q =
      let e : fl.of_nat n ≡ a = ground arith in
      let e' : fl.of_nat n ≡ b = ground arith in
      rw (← e, ← e') (linear.of_nat_mono n n (omega arith))
  map-Rising linear (n ∷ ns) up zero (suc j) a b le p q =
      let (m, more, e) = get_elem?-All n ns j b up.0 q in
      let e' : fl.of_nat n ≡ a = ground arith in rw (e, ← e') (linear.of_nat_mono n m more)
  map-Rising linear (n ∷ ns) up (suc i) zero a b le p q = absurd (omega arith)
  map-Rising linear (n ∷ ns) up (suc i) (suc j) a b le p q =
      map-Rising linear ns up.1 i j a b (omega arith) p q

  -- How many of the values are at most the bound.
  abbrev pub at_most : fl.F → List fl.F → ℕ
  at_most b vs = length (filter (λ v. fl.le v b) vs)

  -- The histogram after the values, the latest one first.
  pub observed : List fl.F → Histogram
  observed [] = new_histogram
  observed (v ∷ vs) = observe_value (observed vs) v

  -- What the counts say of the values so far.
  pub record Counted (bounds vs : List fl.F) (h : Histogram) : Type 0 where
    pub same_bounds : h.bounds ≡ bounds
    pub sized : length h.counts ≡ length bounds + 1
    pub below :
        (j : ℕ) (b : fl.F)
        → get_elem? bounds j ≡ some b
        → u64 (sum_below (suc j) h.counts) ≡ u64 (at_most b vs)
    pub all : u64 (sum_below (length bounds + 1) h.counts) ≡ u64 (length vs)
    pub counted : h.total ≡ u64 (length vs)

  length-replicate : (k : ℕ) → length (replicate {A = ℕ} k 0) ≡ k
  length-replicate zero = refl
  length-replicate (suc k) = ap suc (length-replicate k)

  new-Counted : Counted new_histogram.bounds [] new_histogram
  unfolding new_histogram
  new-Counted =
      let bounds = map fl.of_nat bounds_ms in
      record {
        same_bounds = refl;
        sized = length-replicate (length bounds + 1);
        below = λ j b h. ap u64 (sum_below-replicate (suc j) (length bounds + 1));
        all = ap u64 (sum_below-replicate (length bounds + 1) (length bounds + 1));
        counted = refl;
      }

  at_most-cons :
      (b v : fl.F) (vs : List fl.F)
      → at_most b (v ∷ vs) ≡ at_most b vs + (if fl.le v b then 1 else 0)
  at_most-cons b v vs = ground arith

  -- The bucket of a value is at or below the index `j` exactly if the value is at most its bound.
  bucket_test :
      (bounds : List fl.F) (v : fl.F) (i j : ℕ) (b : fl.F)
      → IsFirst (length bounds) (at_least bounds v) i
      → j < length bounds
      → get_elem? bounds j ≡ some b
      → ltb i (suc j) ≡ fl.le v b
  unfolding at_least
  bucket_test bounds v i j b first lt here = elim (Bool-cases (ltb i (suc j))) [
    | inl low ↦ low ∙ sym (rw (here, at_least) at (first.from j (ground arith) lt))
    | inr high ↦ high ∙ sym (rw (here, at_least) at (first.before j (ground arith)))
  ]

  get_elem?-lt :
      {A : Type 0} (xs : List A) (i : ℕ) {x : A} → get_elem? xs i ≡ some x → i < length xs
  get_elem?-lt [] i h = ground arith
  get_elem?-lt (x ∷ xs) zero h = omega arith
  get_elem?-lt (x ∷ xs) (suc i) h = omega (arith, get_elem?-lt xs i h)

  observe_value-Counted :
      (bounds vs : List fl.F) (v : fl.F) (h : Histogram)
      → IsLinear
      → Rising bounds
      → Counted bounds vs h
      → Counted bounds (v ∷ vs) (observe_value h v)
  unfolding observe_value
  observe_value-Counted bounds vs v h linear rising c =
      let i : ℕ = sort_search (length h.bounds) (at_least h.bounds v) in
      let first : IsFirst (length bounds) (at_least bounds v) i =
        subst
          (λ bs.
            IsFirst (length bounds) (at_least bounds v) (sort_search (length bs) (at_least bs v)))
          (sym c.same_bounds)
          (sort_search-IsFirst (length bounds) (at_least bounds v)
            (at_least_mono linear bounds v rising)) in
      let inside : i < length h.counts = omega (arith, first.in_range, c.sized) in
      record {
        same_bounds = c.same_bounds;
        sized = length-bump h.counts i ∙ c.sized;
        below = λ j b here.
            let test = bucket_test bounds v i j b first (get_elem?-lt bounds j here) here in
            let bumped = sum_below-bump h.counts i (suc j) inside in
            bumped ∙ rw test (omega (arith, c.below j b here, at_most-cons b v vs));
        all =
            let past : ltb i (length bounds + 1) ≡ true =
              lt→ltb _ _ (omega (arith, first.in_range)) in
            let bumped = sum_below-bump h.counts i (length bounds + 1) inside in
            bumped ∙ rw past (omega (arith, c.all));
        counted = omega (arith, c.counted);
      }

  bounds_ms-Rising : IsLinear → Rising new_histogram.bounds
  unfolding new_histogram
  bounds_ms-Rising linear = map-Rising linear bounds_ms (omega arith)

  pub observed-Counted : IsLinear → (vs : List fl.F) → Counted new_histogram.bounds vs (observed vs)
  unfolding observed
  observed-Counted linear [] = new-Counted
  observed-Counted linear (v ∷ vs) =
      observe_value-Counted _ vs v (observed vs) linear (bounds_ms-Rising linear)
        (observed-Counted linear vs)
