-- ===== src/Prelude/Strings.antt =====
-- Go strings as their bytes.
use Prim.Native.Nat.{ℕ, ◌+◌, ◌-◌, ◌/◌, ◌%◌}
use Prim.Native.Char.{code}
use Prim.Native.String.{String}
use mathlib.Core.Bool.{Bool, true, false, ◌&&◌, ◌||◌}
use mathlib.Core.List.{List, [], ◌∷◌}
use sentinellog.Prelude.Tests.{leb, if◌then◌else◌, ◌==◌, nat_eq}

abbrev pub Text : Type 0
Text = List ℕ

-- The bytes of an ASCII literal.
abbrev pub codes : String → Text
codes String.[] = []
codes (String.◌∷◌ c s) = code c ∷ codes s

-- strings.HasPrefix
unfoldable pub has_prefix : Text → Text → Bool
has_prefix s [] = true
has_prefix [] (p ∷ ps) = false
has_prefix (c ∷ s) (p ∷ ps) = c == p && has_prefix s ps

-- strings.Contains
unfoldable pub contains : Text → Text → Bool
unfolding has_prefix
contains [] t = has_prefix [] t
contains (c ∷ s) t = has_prefix (c ∷ s) t || contains s t

-- hex.EncodeToString
hex_digit : ℕ → ℕ
hex_digit d = if leb d 9 then b'0' + d else b'a' + (d - 10)

unfoldable pub hex_encode : Text → Text
unfolding hex_digit
hex_encode [] = []
hex_encode (b ∷ s) = hex_digit (b / 16) ∷ hex_digit (b % 16) ∷ hex_encode s

-- What the program calls of the standard library and the language's runtime, and this model leaves
-- open: the digest, what goes by the tables of Unicode, and the memory that there is.
pub record Runtime : Type 0 where
  pub sha256 : Text → Text  -- the 32 bytes of `sha256.Sum256`
  pub to_lower : Text → Text  -- `strings.ToLower`
  pub trim_space : Text → Text  -- `strings.TrimSpace`
  -- whether `make` gives a slice of stored entries with this capacity; else it panics
  pub makes : ℕ → Bool

module _ ⦃rt : Runtime⦄ where
  -- hex.EncodeToString of a digest
  unfoldable pub hex_digest : Text → Text
  hex_digest data_bytes = hex_encode (rt.sha256 data_bytes)
