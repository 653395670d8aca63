-- ===== src/Redaction/Card/Luhn.antt =====
-- What the Luhn check detects.
use mathlib.Core.List.{reverse-append, reverse-cons}
use sentinellog.Prelude.{
  ℕ, ◌+◌, ◌%◌, ◌≤◌, ◌≡◌, ◌≢◌, sym, ap, ◌∙◌, Bool, true, false, not, List, [], ◌∷◌, ◌++◌, reverse,
  arith, nat_beq, nat_beq_iff, append_assoc,
}
use sentinellog.Redaction.Card.{weigh, luhn_loop, luhn_valid}

abbrev flip_by : List ℕ → Bool → Bool
flip_by [] double = double
flip_by (n ∷ rest) double = flip_by rest (not double)

luhn_loop-add :
    (sum : ℕ) (double : Bool) (d : List ℕ) → luhn_loop sum double d ≡ sum + luhn_loop 0 double d
unfolding luhn_loop
luhn_loop-add sum double [] = omega arith
luhn_loop-add sum double (n ∷ rest) = omega (
  arith,
  luhn_loop-add (sum + weigh double n) (not double) rest,
  luhn_loop-add (0 + weigh double n) (not double) rest,
)

luhn_loop-append :
    (double : Bool) (d e : List ℕ)
    → luhn_loop 0 double (d ++ e) ≡ luhn_loop 0 double d + luhn_loop 0 (flip_by d double) e
unfolding luhn_loop
luhn_loop-append double [] e = omega arith
luhn_loop-append double (n ∷ d) e = omega (
  arith,
  luhn_loop-add (0 + weigh double n) (not double) (d ++ e),
  luhn_loop-add (0 + weigh double n) (not double) d,
  luhn_loop-append (not double) d e,
)

weigh-ne :
    (double : Bool) (x y : ℕ)
    → x ≤ 9
    → y ≤ 9
    → x ≢ y
    → (rest : ℕ) → (rest + weigh double x) % 10 ≡ 0
    → nat_beq ((rest + weigh double y) % 10) 0 ≡ false
unfolding weigh
weigh-ne true x y p q n rest h = ground arith
weigh-ne false x y p q n rest h = ground arith

-- The weight of the digit before the last `n` digits.
abbrev place : List ℕ → Bool
place after = flip_by (reverse after) false

luhn_sum-split :
    (before : List ℕ) (x : ℕ) (after : List ℕ)
    → luhn_loop 0 false (reverse (before ++ x ∷ after))
      ≡ luhn_loop 0 false (reverse after)
        + luhn_loop 0 (not (place after)) (reverse before)
        + weigh (place after) x
unfolding luhn_loop
luhn_sum-split before x after =
    let order : reverse (before ++ x ∷ after) ≡ reverse after ++ x ∷ reverse before =
      reverse-append before (x ∷ after)
      ∙ ap (λ l. l ++ reverse before) (reverse-cons x after)
      ∙ append_assoc (reverse after) (x ∷ []) (reverse before) in
    rw order (
      omega (
        arith,
        luhn_loop-append false (reverse after) (x ∷ reverse before),
        luhn_loop-add (0 + weigh (place after) x) (not (place after)) (reverse before),
      ))

-- A number that passes the check fails it after one digit, at any place, is replaced by another.
pub luhn_single_error :
    (before after : List ℕ) (x y : ℕ)
    → x ≤ 9
    → y ≤ 9
    → x ≢ y
    → luhn_valid (before ++ x ∷ after) ≡ true
    → luhn_valid (before ++ y ∷ after) ≡ false
unfolding luhn_valid
luhn_single_error before after x y p q n h = rw (luhn_sum-split before y after) (
    weigh-ne (place after) x y p q n _
      (sym (ap (λ (t : ℕ). t % 10) (luhn_sum-split before x after)) ∙ (nat_beq_iff _ 0).0 h))

luhn_sum-split_pair :
    (before : List ℕ) (x y : ℕ) (after : List ℕ)
    → luhn_loop 0 false (reverse (before ++ x ∷ y ∷ after))
      ≡ luhn_loop 0 false (reverse after)
        + luhn_loop 0 (not (not (place after))) (reverse before)
        + weigh (place after) y
        + weigh (not (place after)) x
unfolding luhn_loop
luhn_sum-split_pair before x y after =
    let order : reverse (before ++ x ∷ y ∷ after) ≡ reverse after ++ y ∷ x ∷ reverse before =
      reverse-append before (x ∷ y ∷ after)
      ∙ ap (λ l. l ++ reverse before) (reverse-append (x ∷ y ∷ []) after)
      ∙ append_assoc (reverse after) (y ∷ x ∷ []) (reverse before) in
    rw order (
      omega (
        arith,
        luhn_loop-append false (reverse after) (y ∷ x ∷ reverse before),
        luhn_loop-add (0 + weigh (place after) y + weigh (not (place after)) x)
            (not (not (place after))) (reverse before),
      ))

weigh_swap :
    (double : Bool) (x y : ℕ)
    → x ≤ 9
    → y ≤ 9
    → x ≢ y
    → ¬ ((x ≡ 0) × (y ≡ 9))
    → ¬ ((x ≡ 9) × (y ≡ 0))
    → (rest : ℕ) → (rest + weigh double y + weigh (not double) x) % 10 ≡ 0
    → nat_beq ((rest + weigh double x + weigh (not double) y) % 10) 0 ≡ false
unfolding weigh
weigh_swap true x y p q n a b rest h = ground arith
weigh_swap false x y p q n a b rest h = ground arith

-- Swapping two neighbours is noticed too, but for the pair of 0 and 9.
pub luhn_transposition :
    (before after : List ℕ) (x y : ℕ)
    → x ≤ 9
    → y ≤ 9
    → x ≢ y
    → ¬ ((x ≡ 0) × (y ≡ 9))
    → ¬ ((x ≡ 9) × (y ≡ 0))
    → luhn_valid (before ++ x ∷ y ∷ after) ≡ true
    → luhn_valid (before ++ y ∷ x ∷ after) ≡ false
unfolding luhn_valid
luhn_transposition before after x y p q n a b h = rw (luhn_sum-split_pair before y x after) (
    weigh_swap (place after) x y p q n a b _
      (sym (ap (λ (t : ℕ). t % 10) (luhn_sum-split_pair before x y after)) ∙ (nat_beq_iff _ 0).0 h))
