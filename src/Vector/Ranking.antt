-- ===== src/Vector/Ranking.antt =====
-- The best hits first, and no better one left out.
use Prim.Native.Nat.{min}
use mathlib.Core.List.{Permᴰ}
use mathlib.Core.List.Permᴰ.{nil, cons, swap, trans}
use sentinellog.Prelude.{
  ℕ, suc, ◌≡◌, ◌≢◌, inl, inr, refl, sym, ap, subst, ◌∙◌, ℤ, Bool, false, Bool-cases, Text, codes,
  List, [], ◌∷◌, ◌++◌, map, if◌then◌else◌, ◌==◌, text_eq, text_beq-false, ltb, length, take, drop,
  length-take, length-map, take-append-drop, take_of_length-le, arith, All,
}
use sentinellog.Prelude.Float.{Float}
use sentinellog.Prelude.Sorting.{Sorting, IsWeakOrder, Ordered}
use sentinellog.Vector.{
  Hit, MemVectorStore, partition, k_or_five, score_item, scores_higher, search,
}

length-Perm : {A : Type 0} {xs ys : List A} → Permᴰ xs ys → length xs ≡ length ys
length-Perm nil = refl
length-Perm (cons e p) = ap suc (length-Perm p)
length-Perm (swap e f) = refl
length-Perm (trans p q) = length-Perm p ∙ length-Perm q

module _ {A : Type 0} (less : A → A → Bool) where
  All-append_left : (P : A → Type 0) (xs ys : List A) → All P (xs ++ ys) → All P xs
  All-append_left P [] ys h = tt
  All-append_left P (x ∷ xs) ys h = (h.0, All-append_left P xs ys h.1)

  All-append_right : (P : A → Type 0) (xs ys : List A) → All P (xs ++ ys) → All P ys
  All-append_right P [] ys h = h
  All-append_right P (x ∷ xs) ys h = All-append_right P xs ys h.1

  Ordered-append :
      (xs ys : List A)
      → Ordered less (xs ++ ys)
      → Ordered less xs × All (λ x. All (λ y. less y x ≡ false) ys) xs
  Ordered-append [] ys h = (tt, tt)
  Ordered-append (x ∷ xs) ys h =
      let (first, later) = Ordered-append xs ys h.1 in
      (
        (All-append_left (λ y. less y x ≡ false) xs ys h.0, first),
        (All-append_right (λ y. less y x ≡ false) xs ys h.0, later),
      )

cut : {A : Type 0} (k : ℕ) (l : List A) → (if ltb k (length l) then take k l else l) ≡ take k l
cut k l = elim (Bool-cases (ltb k (length l))) [
  | inl e ↦ simp e refl
  | inr e ↦ simp e (sym (take_of_length-le k l (ground arith)))
]

module _ ⦃fl : Float⦄ (sorting : Sorting Hit) where
  search-take :
      (s : MemVectorStore) (tenant : Text) (query : List fl.F) (k : ℤ)
      → tenant ≢ codes ""
      → search sorting s tenant query k
        ≡ take
            (k_or_five k)
            (sorting.sort_slice scores_higher (map (score_item query) (partition s tenant)))
  unfolding search
  search-take s tenant query k named =
      let e : (tenant == codes "") ≡ false = text_beq-false tenant (codes "") named in
      simp e (
        cut (k_or_five k)
          (sorting.sort_slice scores_higher (map (score_item query) (partition s tenant))))

  -- What a search of a tenant answers are the k best of its items: with the rest they are exactly
  -- the scored items of its partition, they stand in the order of their scores, no item of the rest
  -- scores higher than one of them, and there are k, or all if there are fewer. The scores have to be
  -- in a weak order, as floats are without NaN.
  pub search_ranked :
      (s : MemVectorStore) (tenant : Text) (query : List fl.F) (k : ℤ)
      → IsWeakOrder scores_higher
      → tenant ≢ codes ""
      → (rest : List Hit) × Permᴰ
          (search sorting s tenant query k ++ rest)
          (map (score_item query) (partition s tenant))
        × Ordered scores_higher (search sorting s tenant query k)
        × All
            (λ kept. All (λ left. scores_higher left kept ≡ false) rest)
            (search sorting s tenant query k)
        × (length (search sorting s tenant query k)
            ≡ min (k_or_five k) (length (partition s tenant)))
  search_ranked s tenant query k weak named =
      let all = map (score_item query) (partition s tenant) in
      let sorted = sorting.sort_slice scores_higher all in
      let n = k_or_five k in
      let found = search-take s tenant query k named in
      let (order, best) = Ordered-append scores_higher (take n sorted) (drop n sorted) (
        subst (Ordered scores_higher) (sym (take-append-drop n sorted))
          (sorting.ordered scores_higher all weak)) in
      let perm : Permᴰ (take n sorted ++ drop n sorted) all =
        subst (λ l. Permᴰ l all) (sym (take-append-drop n sorted))
          (sorting.perm scores_higher all) in
      let size : length (take n sorted) ≡ min n (length (partition s tenant)) =
        length-take n sorted
        ∙ ap (min n) (
            length-Perm (sorting.perm scores_higher all)
            ∙ length-map (score_item query) (partition s tenant)) in
      (
        drop n sorted,
        subst (λ l. Permᴰ (l ++ drop n sorted) all) (sym found) perm,
        subst (Ordered scores_higher) (sym found) order,
        subst (All (λ kept. All (λ left. scores_higher left kept ≡ false) (drop n sorted)))
            (sym found) best,
        ap length found ∙ size,
      )
