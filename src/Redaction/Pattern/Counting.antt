-- ===== src/Redaction/Pattern/Counting.antt =====
-- The count of replacements says whether a text was changed.
use sentinellog.Prelude.{
  ℕ, ◌+◌, ◌≤◌, ◌≡◌, refl, ap, ◌∙◌, inl, inr, Text, List, [], ◌∷◌, ◌++◌, arith, All, Bool-cases,
}
use sentinellog.Redaction.Pattern.{
  NamedPattern, Segment, plain, hit, originals, join, keeps, replace_segments, apply_pattern,
  apply_patterns,
}

-- A pattern's matches and the text between them are the text.
abbrev pub Covers : NamedPattern → Type 0
Covers p = (s : Text) → join (originals (p.find s)) ≡ s

replace_segments_none :
    (name : Text) (gs : List Segment)
    → (replace_segments name gs).1 ≡ 0
    → (replace_segments name gs).0 ≡ join (originals gs)
unfolding replace_segments
replace_segments_none name [] h = refl
replace_segments_none name (plain t ∷ gs) h = ap (λ r. t ++ r) (replace_segments_none name gs h)
replace_segments_none name (hit t ∷ gs) h = elim (Bool-cases (keeps name t)) [
  | inl kept ↦
      let none : (replace_segments name gs).1 ≡ 0 = ground arith in
      simp kept (ap (λ r. t ++ r) (replace_segments_none name gs none))
  | inr lost ↦ absurd (ground arith)
]

pub apply_patterns_count :
    (ps : List NamedPattern) (s : Text) (count : ℕ) → count ≤ (apply_patterns ps s count).1
unfolding apply_patterns
apply_patterns_count [] s count = omega arith
apply_patterns_count (p ∷ ps) s count =
    let n = (apply_pattern p s).1 in
    omega (arith, apply_patterns_count ps (apply_pattern p s).0 (count + n))

-- If the count did not move, neither did the text.
pub apply_patterns_none :
    (ps : List NamedPattern) (s : Text) (count : ℕ)
    → All Covers ps
    → (apply_patterns ps s count).1 ≡ count
    → (apply_patterns ps s count).0 ≡ s
unfolding apply_patterns apply_pattern
apply_patterns_none [] s count c h = refl
apply_patterns_none (p ∷ ps) s count c h =
    let s' : Text = (apply_pattern p s).0 in
    let n : ℕ = (apply_pattern p s).1 in
    let none : n ≡ 0 = omega (arith, apply_patterns_count ps s' (count + n), h) in
    let rest : (apply_patterns ps s' (count + n)).1 ≡ count + n = omega (arith, h, none) in
    apply_patterns_none ps s' (count + n) c.1 rest
    ∙ replace_segments_none p.name (p.find s) none
    ∙ c.0 s
