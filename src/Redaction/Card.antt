-- ===== src/Redaction/Card.antt =====
-- `looksLikeCard` and `luhnValid`.
pub mod Luhn
use sentinellog.Prelude.{
  ℕ, ◌+◌, ◌-◌, ◌*◌, ◌%◌, Text, Bool, true, false, not, ◌&&◌, ◌||◌, List, [], ◌∷◌, reverse, ltb, leb,
  ◌==◌, nat_eq, if◌then◌else◌, length,
}

-- What a digit adds to the sum.
weigh : Bool → ℕ → ℕ
weigh double n = if double then (if ltb 9 (n * 2) then n * 2 - 9 else n * 2) else n

-- The loop of `luhnValid`, over the digits from the last to the first.
luhn_loop : ℕ → Bool → List ℕ → ℕ
unfolding weigh
luhn_loop sum double [] = sum
luhn_loop sum double (n ∷ rest) = luhn_loop (sum + weigh double n) (not double) rest

unfoldable pub luhn_valid : List ℕ → Bool
unfolding luhn_loop
luhn_valid d = luhn_loop 0 false (reverse d) % 10 == 0

-- The loop of `looksLikeCard`; a character that is no ASCII digit has no byte that is one.
unfoldable pub digits_of : Text → List ℕ
digits_of [] = []
digits_of (c ∷ rest) =
    let found = digits_of rest in if leb b'0' c && leb c b'9' then (c - b'0') ∷ found else found

unfoldable pub looks_like_card : Text → Bool
unfolding digits_of luhn_valid
looks_like_card match =
    let digits = digits_of match in
    if ltb (length digits) 13 || ltb 19 (length digits) then false else luhn_valid digits
