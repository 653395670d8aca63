-- ===== src/Anomaly/Feed/Eviction.antt =====
-- Tenants share the capacity of the feed.
use mathlib.Core.List.{reverse-append}
use sentinellog.Prelude.{
  ℕ, zero, suc, ◌≤◌, ◌≡◌, ◌≢◌, refl, ap, ◌∙◌, ℤ, Text, List, [], ◌∷◌, ◌++◌, reverse, filter,
  filter_none, All, All-imp, All-take, All-reverse, take, length, take_of_length-le, text_beq-false,
  arith, text_eq,
}
use sentinellog.Prelude.Float.{Float}
use sentinellog.Anomaly.{Event}
use sentinellog.Anomaly.Feed.{new_feed, n_or_50, recent}
use sentinellog.Anomaly.Feed.Recent.{of_tenant, push_all, recent-push_all, length-reverse}

take-append_long :
    {A : Type 0} (n : ℕ) (xs ys : List A) → n ≤ length xs → take n (xs ++ ys) ≡ take n xs
take-append_long zero xs ys h = refl
take-append_long (suc n) [] ys h = absurd (omega (arith, h))
take-append_long (suc n) (x ∷ xs) ys h = ap (◌∷◌ x) (take-append_long n xs ys (omega (arith, h)))

module _ ⦃fl : Float⦄ where
  -- When as many events of other tenants as the feed has room for have been pushed after a tenant's,
  -- whatever they were, the tenant reads an empty feed.
  pub recent_evicted :
      (capacity : ℤ) (mine theirs : List Event) (tenant : Text) (n : ℤ)
      → All (λ (e : Event). e.tenant_id ≢ tenant) theirs
      → (new_feed capacity).cap ≤ length theirs
      → recent (push_all (new_feed capacity) (mine ++ theirs)) tenant n ≡ []
  recent_evicted capacity mine theirs tenant n foreign many =
      let cap = (new_feed capacity).cap in
      let kept : take cap (reverse (mine ++ theirs)) ≡ take cap (reverse theirs) =
        ap (take cap) (reverse-append mine theirs)
        ∙ take-append_long cap (reverse theirs) (reverse mine)
            (omega (arith, many, length-reverse theirs)) in
      let misses =
        All-imp (λ (e : Event) other. text_beq-false e.tenant_id tenant other) theirs foreign in
      let empty : filter (of_tenant tenant) (take cap (reverse theirs)) ≡ [] =
        filter_none (of_tenant tenant) _
          (All-take _ cap (reverse theirs) (All-reverse _ theirs misses)) in
      (recent-push_all capacity (mine ++ theirs) tenant n).0
      ∙ ap (λ l. take (n_or_50 n) (filter (of_tenant tenant) l)) kept
      ∙ ap (take (n_or_50 n)) empty
      ∙ take_of_length-le (n_or_50 n) [] (omega arith)
