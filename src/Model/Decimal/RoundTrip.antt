-- ===== src/Model/Decimal/RoundTrip.antt =====
-- Printing and parsing a uint64.
use native.Mathlib.Nat.{pow-succ'}
use sentinellog.Prelude.{
  ℕ, zero, suc, ◌+◌, ◌-◌, ◌*◌, ◌/◌, ◌%◌, ◌^◌, ◌<◌, ◌≤◌, ◌≡◌, refl, sym, ap, ◌∙◌, inl, inr, false,
  Bool-cases, Text, [], ◌∷◌, some, arith, ltb, ◌==◌, nat_eq, nat_beq_iff,
}
use sentinellog.Model.Decimal.{digits, format_with, format_uint, scan, parse_uint}

scan_digit :
    (c n m : ℕ) (s : Text)
    → b'0' ≤ c
    → c ≤ b'9'
    → n * 10 + (c - b'0') ≡ m
    → m < 2 ^ 64
    → scan (c ∷ s) n ≡ scan s m
unfolding scan
scan_digit c n m s lo hi e small =
    let low : ltb c b'0' ≡ false = ground arith in
    let high : ltb b'9' c ≡ false = ground arith in
    let fits : ltb (2 ^ 64 - 1) (n * 10 + (c - b'0')) ≡ false = ground arith in
    simp (low, high, fits) (ap (scan s) e)

scan_nil : (n : ℕ) → scan [] n ≡ some n
unfolding scan
scan_nil n = refl

scan-digits :
    (room n : ℕ) (out : Text) → n < 10 ^ room → n < 2 ^ 64 → scan (digits room n out) 0 ≡ scan out n
unfolding digits
scan-digits zero n out h small = ap (scan out) (omega (arith, h))
scan-digits (suc room) n out h small = elim (Bool-cases (n == 0)) [
  | inl e ↦ simp e (ap (scan out) (sym ((nat_beq_iff n 0).0 e)))
  | inr e ↦
      let fewer : n / 10 < 10 ^ room = omega (arith, h, pow-succ' 10 room) in
      simp e (
        scan-digits room (n / 10) ((b'0' + n % 10) ∷ out) fewer (omega arith)
        ∙ scan_digit (b'0' + n % 10) (n / 10) n out (omega arith) (omega arith) (omega arith) small)
]

digits_cons : (room n c : ℕ) (out : Text) → (d : ℕ) × (s : Text) × (digits room n (c ∷ out) ≡ d ∷ s)
unfolding digits
digits_cons zero n c out = (c, out, refl)
digits_cons (suc room) n c out = elim (Bool-cases (n == 0)) [
  | inl e ↦ (c, out, simp e refl)
  | inr e ↦ let (d, s, h) = digits_cons room (n / 10) (b'0' + n % 10) (c ∷ out) in (d, s, simp e h)
]

parse_uint_cons : (s : Text) {d : ℕ} {t : Text} → s ≡ d ∷ t → parse_uint s ≡ scan s 0
unfolding parse_uint
parse_uint_cons [] h = ground arith
parse_uint_cons (c ∷ s) h = refl

digits_some :
    (room n : ℕ) → (n == 0) ≡ false → (d : ℕ) × (s : Text) × (digits (suc room) n [] ≡ d ∷ s)
unfolding digits
digits_some room n e =
    let (d, s, h) = digits_cons room (n / 10) (b'0' + n % 10) [] in (d, s, simp e h)

format_with-digits : (room n : ℕ) → (n == 0) ≡ false → format_with room n ≡ digits room n []
unfolding format_with
format_with-digits room n e = simp e refl

parse_uint-format_with :
    (room n : ℕ) → n < 10 ^ suc room → n < 2 ^ 64 → parse_uint (format_with (suc room) n) ≡ some n
unfolding format_with
parse_uint-format_with room n h small = elim (Bool-cases (n == 0)) [
  | inl e ↦ simp e (
      parse_uint_cons (b'0' ∷ []) refl
      ∙ scan_digit b'0' 0 n [] (omega arith) (omega arith) (sym ((nat_beq_iff n 0).0 e)) small
      ∙ scan_nil n)
  | inr e ↦
      let (d, s, cons) = digits_some room n e in
      ap parse_uint (format_with-digits (suc room) n e)
      ∙ parse_uint_cons (digits (suc room) n []) cons
      ∙ scan-digits (suc room) n [] h small
      ∙ scan_nil n
]

-- What parses starts with a digit.
pub parse_uint-starts :
    (s : Text) {n : ℕ} → parse_uint s ≡ some n → (c : ℕ) × (t : Text) × (s ≡ c ∷ t) × (b'0' ≤ c)
unfolding parse_uint scan
parse_uint-starts [] h = ground arith
parse_uint-starts (c ∷ s) h = (c, s, refl, ground arith)

-- What FormatUint prints of a uint64, ParseUint reads back, so a reference names its entry.
pub parse_uint-format_uint : (n : ℕ) → n < 2 ^ 64 → parse_uint (format_uint n) ≡ some n
unfolding format_uint
parse_uint-format_uint n small = parse_uint-format_with 19 n (omega arith) small
