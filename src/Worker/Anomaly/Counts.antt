-- ===== src/Worker/Anomaly/Counts.antt =====
-- What the anomaly worker counts in a window.
use sentinellog.Prelude.{
  ℕ, suc, ◌+◌, ◌≤◌, ◌<◌, ◌≡◌, refl, ap, ◌∙◌, inl, inr, Bool, true, false, ◌&&◌, ◌||◌, Option, List,
  [], ◌∷◌, some, none, if◌then◌else◌, ◌==◌, length, filter, any, arith, Bool-cases,
}
use sentinellog.Prelude.Float.{Float}
use sentinellog.Prelude.Map.{lookup, lookup-insert}
use sentinellog.Model.{StoredEntry}
use sentinellog.Worker.Anomaly.{
  Key, key_eq, key_of, is_failure, Window, count_of, count_entry, count_entries, empty,
}

abbrev pub of_key : Key → StoredEntry → Bool
of_key k e = key_of e == k

-- A failure of the key.
abbrev pub fails : Key → StoredEntry → Bool
fails k e = is_failure e && of_key k e

module _ ⦃fl : Float⦄ where
  open fl use {F, of_nat, add}

  -- Adding 1 is exact below the bound, which is 2 ^ 53 for float64.
  pub record CountsTo (bound : ℕ) : Type 0 where
    pub step : (n : ℕ) → n < bound → add (of_nat n) (of_nat 1) ≡ of_nat (n + 1)

  pub count_of-count_entry :
      (k : Key) (w : Window) (e : StoredEntry)
      → count_of k (count_entry w e)
        ≡ (if fails k e then add (count_of k w) (of_nat 1) else count_of k w)
  unfolding count_entry
  count_of-count_entry k w e = elim (Bool-cases (is_failure e)) [
    | inl failed ↦ elim (Bool-cases (of_key k e)) [
      | inl same ↦
          simp (failed, lookup-insert, same)
            (ap (λ j. add (count_of j w) (of_nat 1)) ((key_eq.agree_iff (key_of e) k).0 same))
      | inr other ↦ simp (failed, lookup-insert, other)
    ]
    | inr fine ↦ simp fine
  ]

  count_entries-eq :
      (bound : ℕ) (k : Key) (n : ℕ) (es : List StoredEntry) (w : Window)
      → CountsTo bound
      → n + length es ≤ bound
      → count_of k w ≡ of_nat n
      → count_of k (count_entries w es) ≡ of_nat (n + length (filter (fails k) es))
  unfolding count_entries
  count_entries-eq bound k n [] w exact small h = h ∙ ap of_nat (omega arith)
  count_entries-eq bound k n (e ∷ es) w exact small h = elim (Bool-cases (fails k e)) [
    | inl hit ↦
        count_entries-eq bound k (suc n) es (count_entry w e) exact (omega arith) (
          count_of-count_entry k w e
          ∙ simp hit
              (ap (λ c. add c (of_nat 1)) h ∙ exact.step n (omega arith) ∙ ap of_nat (omega arith)))
        ∙ ap of_nat (simp hit (omega arith))
    | inr miss ↦
        count_entries-eq bound k n es (count_entry w e) exact (omega arith)
          (count_of-count_entry k w e ∙ simp miss h)
        ∙ ap of_nat (simp miss refl)
  ]

  seen_step :
      (later here : Bool) (before : Option Bool) {after : Option Bool}
      → after ≡ (if here then some true else before)
      → (if later then some true else after) ≡ (if here || later then some true else before)
  seen_step true true before h = refl
  seen_step true false before h = refl
  seen_step false true before h = h
  seen_step false false before h = h

  seen-count_entries :
      (k : Key) (es : List StoredEntry) (w : Window)
      → lookup k (count_entries w es).seen
        ≡ (if any (of_key k) es then some true else lookup k w.seen)
  unfolding count_entries count_entry
  seen-count_entries k [] w = refl
  seen-count_entries k (e ∷ es) w =
      seen-count_entries k es (count_entry w e)
      ∙ seen_step (any (of_key k) es) (of_key k e) (lookup k w.seen)
          (lookup-insert (key_of e) k true w.seen)

  -- The window of a tick counts for each tenant and service the entries of level error or fatal, and
  -- has seen exactly the pairs that have an entry, if the window has at most as many entries as the
  -- floats count exactly.
  pub window_exact :
      (bound : ℕ) (k : Key) (es : List StoredEntry)
      → CountsTo bound
      → length es ≤ bound
      → (count_of k (count_entries empty es) ≡ of_nat (length (filter (fails k) es)))
        × (lookup k (count_entries empty es).seen ≡ (if any (of_key k) es then some true else none))
  unfolding lookup
  window_exact bound k es exact small = (
    count_entries-eq bound k 0 es empty exact (omega arith) refl ∙ ap of_nat (omega arith),
    seen-count_entries k es empty,
  )
