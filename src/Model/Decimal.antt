-- ===== src/Model/Decimal.antt =====
-- strconv.FormatUint(n, 10) and strconv.ParseUint(s, 10, 64), as `Ref` and `resolveSnippet` call
-- them, and their round trip.
pub mod RoundTrip
use sentinellog.Prelude.{
  ℕ, ℤ, pos, negsuc, zero, suc, ◌+◌, ◌-◌, ◌*◌, ◌/◌, ◌%◌, ◌^◌, ◌||◌, Text, [], ◌∷◌, Option, none,
  some, ltb, ◌==◌, nat_eq, if◌then◌else◌,
}

-- The digits of `n` in front of `out`, the last one first; `room` bounds their number.
digits : ℕ → ℕ → Text → Text
digits zero n out = out
digits (suc room) n out = if n == 0 then out else digits room (n / 10) ((b'0' + n % 10) ∷ out)

format_with : ℕ → ℕ → Text
unfolding digits
format_with room n = if n == 0 then b'0' ∷ [] else digits room n []

-- A uint64 has at most 20 digits.
pub format_uint : ℕ → Text
unfolding format_with
format_uint n = format_with 20 n

-- The digits read so far are `n`; `none` is any `*NumError`.
scan : Text → ℕ → Option ℕ
scan [] n = some n
scan (c ∷ s) n =
    let d = c - b'0' in
    if ltb c b'0' || ltb b'9' c
    then none
    else if ltb (2 ^ 64 - 1) (n * 10 + d)
    then none
    else scan s (n * 10 + d)

pub parse_uint : Text → Option ℕ
unfolding scan
parse_uint [] = none
parse_uint (c ∷ s) = scan (c ∷ s) 0

-- `%d` of an int64.
unfoldable pub format_int : ℤ → Text
format_int (pos n) = format_uint n
format_int (negsuc n) = b'-' ∷ format_uint (n + 1)
