-- ===== src/Store/BinarySearch.antt =====
-- sort.Search, which `Since` calls on the entries' IDs.
use sentinellog.Prelude.{
  ℕ, zero, suc, ◌+◌, ◌/◌, ◌≤◌, ◌<◌, ◌≡◌, inl, inr, Bool, true, false, arith, ltb, Bool-cases,
  if◌then◌else◌,
}

-- `i, j` are the bounds of the loop, and each round at least halves what lies between them.
search_between : ℕ → (ℕ → Bool) → ℕ → ℕ → ℕ
search_between zero f i j = i
search_between (suc fuel) f i j =
    if ltb i j
    then (let h = (i + j) / 2 in
        elim (f h) [ true ↦ search_between fuel f i h | false ↦ search_between fuel f (suc h) j ])
    else i

unfoldable pub sort_search : ℕ → (ℕ → Bool) → ℕ
unfolding search_between
sort_search n f = search_between n f 0 n

-- What `sort.Search` promises: the first index at which the test holds, or `n`.
pub record IsFirst (n : ℕ) (f : ℕ → Bool) (r : ℕ) : Type 0 where
  pub in_range : r ≤ n
  pub before : (k : ℕ) → k < r → f k ≡ false
  pub from : (k : ℕ) → r ≤ k → k < n → f k ≡ true

module _ (n : ℕ) (f : ℕ → Bool) (mono : (k m : ℕ) → k ≤ m → m < n → f k ≡ true → f m ≡ true) where
  search_between-IsFirst :
      (fuel i j : ℕ)
      → i ≤ j
      → j ≤ n
      → j ≤ i + fuel
      → ((k : ℕ) → k < i → f k ≡ false)
      → ((k : ℕ) → j ≤ k → k < n → f k ≡ true)
      → IsFirst n f (search_between fuel f i j)
  unfolding search_between
  search_between-IsFirst zero i j a b c low high = record {
    in_range = omega arith;
    before = low;
    from = λ k p. high k (omega arith);
  }
  search_between-IsFirst (suc fuel) i j a b c low high = elim (Bool-cases (ltb i j)) [
    | inr done ↦
        let closed : j ≤ i = ground arith in
        rw done
          (record { in_range = omega arith; before = low; from = λ k p. high k (omega arith) })
    | inl more ↦
        let room : i < j = ground arith in
        let h = (i + j) / 2 in
        rw more (elim (Bool-cases (f h)) [
          | inl hit ↦ rw hit (
              search_between-IsFirst fuel i h (omega arith) (omega arith) (omega arith) low
                (λ k p q. mono h k p q hit))
          | inr miss ↦ rw miss (
              search_between-IsFirst fuel (suc h) j (omega arith) b (omega arith)
                (λ k p. elim (Bool-cases (f k)) [
                  | inl early ↦ ground (arith, mono k h (omega arith) (omega arith) early)
                  | inr e ↦ e
                ])
                high)
        ])
  ]

  pub sort_search-IsFirst : IsFirst n f (sort_search n f)
  unfolding sort_search
  sort_search-IsFirst =
      search_between-IsFirst n 0 n (omega arith) (omega arith) (omega arith)
        (λ k p. absurd (omega arith)) (λ k p q. absurd (omega arith))
