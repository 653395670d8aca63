-- ===== src/Redaction/Pattern.antt =====
-- The named patterns, over the standard library's regexp package.
pub mod Counting
use sentinellog.Prelude.{
  ℕ, suc, ◌+◌, ◌≡◌, refl, ap, ◌∙◌, Bool, true, false, not, ◌&&◌, Text, codes, List, [], ◌∷◌, ◌++◌,
  ◌==◌, text_eq, if◌then◌else◌, filter, length, arith, All, Bool-cases,
}
use sentinellog.Redaction.Card.{looks_like_card}
use sentinellog.Redaction.Replace.{placeholder}

-- A text as ReplaceAllStringFunc goes through it: what no match covers, and the matches.
pub data Segment : Type 0 where
  plain hit : Text → Segment

abbrev pub original : Segment → Text
original (plain t) = t
original (hit t) = t

abbrev pub join : List Text → Text
join [] = []
join (t ∷ ts) = t ++ join ts

abbrev pub originals : List Segment → List Text
originals [] = []
originals (g ∷ gs) = original g ∷ originals gs

-- `compile source` is the expression that `regexp.MustCompile(source)` gives; the segments of a
-- text are the text.
pub record Regexp : Type 0 where
  pub compile : Text → Text → List Segment
  pub covers : (source s : Text) → join (originals (compile source s)) ≡ s

pub record NamedPattern : Type 0 where
  pub name : Text
  pub find : Text → List Segment

-- The function that is handed to ReplaceAllStringFunc keeps a match only if it may be no card.
keeps : Text → Text → Bool
keeps name match = name == codes "credit_card" && not (looks_like_card match)

-- The new text, and the number of replacements.
replace_segments : Text → List Segment → Text × ℕ
unfolding keeps
replace_segments name [] = ([], 0)
replace_segments name (plain t ∷ gs) = let (rest, n) = replace_segments name gs in (t ++ rest, n)
replace_segments name (hit t ∷ gs) =
    let (rest, n) = replace_segments name gs in
    if keeps name t then (t ++ rest, n) else (placeholder ++ rest, suc n)

pub apply_pattern : NamedPattern → Text → Text × ℕ
unfolding replace_segments
apply_pattern p s = replace_segments p.name (p.find s)

-- The loop over the patterns: each works on what the one before it left.
unfoldable pub apply_patterns : List NamedPattern → Text → ℕ → Text × ℕ
apply_patterns [] s count = (s, count)
apply_patterns (p ∷ ps) s count =
    let (s', n) = apply_pattern p s in apply_patterns ps s' (count + n)
