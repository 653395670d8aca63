-- ===== src/Metrics/Sums.antt =====
-- The counts of the buckets and their sums.
use sentinellog.Prelude.{
  ℕ, zero, suc, ◌+◌, ◌<◌, ◌≡◌, refl, ap, List, [], ◌∷◌, if◌then◌else◌, ltb, length, replicate, u64,
  arith,
}
use sentinellog.Metrics.{bump, count_at}

-- The sum of the counts at the indices below `n`.
pub sum_below : ℕ → List ℕ → ℕ
sum_below zero counts = 0
sum_below (suc n) [] = 0
sum_below (suc n) (c ∷ counts) = c + sum_below n counts

pub sum_below-zero : (counts : List ℕ) → sum_below 0 counts ≡ 0
unfolding sum_below
sum_below-zero counts = refl

-- A count that is bumped is in the sums past its index.
pub sum_below-bump :
    (counts : List ℕ) (i n : ℕ)
    → i < length counts
    → u64 (sum_below n (bump counts i)) ≡ u64 (sum_below n counts + (if ltb i n then 1 else 0))
unfolding sum_below bump
sum_below-bump [] i n h = absurd (omega arith)
sum_below-bump (c ∷ counts) i zero h = ground arith
sum_below-bump (c ∷ counts) zero (suc n) h = ground arith
sum_below-bump (c ∷ counts) (suc i) (suc n) h =
    ground (arith, sum_below-bump counts i n (omega arith))

pub length-bump : (counts : List ℕ) (i : ℕ) → length (bump counts i) ≡ length counts
unfolding bump
length-bump [] i = refl
length-bump (c ∷ counts) zero = refl
length-bump (c ∷ counts) (suc i) = ap suc (length-bump counts i)

pub sum_below-suc :
    (counts : List ℕ) (n : ℕ) → sum_below (suc n) counts ≡ sum_below n counts + count_at counts n
unfolding sum_below count_at
sum_below-suc [] zero = refl
sum_below-suc [] (suc n) = refl
sum_below-suc (c ∷ counts) zero = omega arith
sum_below-suc (c ∷ counts) (suc n) = omega (arith, sum_below-suc counts n)

pub sum_below-replicate : (n k : ℕ) → sum_below n (replicate k 0) ≡ 0
unfolding sum_below
sum_below-replicate zero k = refl
sum_below-replicate (suc n) zero = refl
sum_below-replicate (suc n) (suc k) = omega (arith, sum_below-replicate n k)
