-- ===== src/Redaction/Replace.antt =====
-- strings.FieldsFunc and strings.ReplaceAll, as the entropy pass calls them.
use sentinellog.Prelude.{
  ℕ, zero, suc, ◌-◌, ◌<◌, ◌≡◌, refl, sym, ap, ◌∙◌, inl, inr, Bool, true, false, not, ◌&&◌, ◌||◌,
  Text, codes, List, [], ◌∷◌, ◌++◌, arith, ◌==◌, nat_eq, text_eq, if◌then◌else◌, length, any,
  Bool-cases,
}
use sentinellog.Prelude.Strings.{has_prefix, contains}

-- The maximal runs of bytes that are no separator; `word` is the run read so far.
fields_loop : (ℕ → Bool) → Text → Text → List Text
fields_loop sep word [] = if word == [] then [] else word ∷ []
fields_loop sep word (c ∷ s) =
    let rest = fields_loop sep (if sep c then [] else word ++ c ∷ []) s in
    if sep c && not (word == []) then word ∷ rest else rest

unfoldable pub fields : (ℕ → Bool) → Text → List Text
unfolding fields_loop
fields sep s = fields_loop sep [] s

-- ReplaceAll for a nonempty `old`; `skip` bytes belong to the occurrence just replaced.
replace_loop : Text → Text → ℕ → Text → Text
replace_loop old new skip [] = []
replace_loop old new (suc skip) (c ∷ s) = replace_loop old new skip s
replace_loop old new zero (c ∷ s) =
    let found = has_prefix (c ∷ s) old in
    let rest = replace_loop old new (if found then length old - 1 else 0) s in
    if found then new ++ rest else c ∷ rest

unfoldable pub replace_all : Text → Text → Text → Text
unfolding replace_loop
replace_all s old new = replace_loop old new 0 s

abbrev pub placeholder : Text
placeholder = codes "[REDACTED]"

-- No bracket of the placeholder.
abbrev pub has_bracket : Text → Bool
has_bracket = any (λ c. c == b'[' || c == b']')

module _ (old : Text) where
  abbrev replaced : ℕ → Text → Text
  replaced = replace_loop old placeholder

  replaced_found :
      (c : ℕ) (s : Text)
      → has_prefix (c ∷ s) old ≡ true
      → replaced 0 (c ∷ s) ≡ placeholder ++ replaced (length old - 1) s
  unfolding replace_loop
  replaced_found c s found = simp found

  replaced_kept :
      (c : ℕ) (s : Text) → has_prefix (c ∷ s) old ≡ false → replaced 0 (c ∷ s) ≡ c ∷ replaced 0 s
  unfolding replace_loop
  replaced_kept c s kept = simp kept

  -- What the output begins with, brackets apart, the input began with.
  has_prefix_back :
      (s p : Text)
      → has_bracket p ≡ false
      → has_prefix (replaced 0 s) p ≡ true
      → has_prefix s p ≡ true
  unfolding replace_loop has_prefix
  has_prefix_back [] [] b h = refl
  has_prefix_back (c ∷ s) [] b h = refl
  has_prefix_back [] (q ∷ p) b h = h
  has_prefix_back (c ∷ s) (q ∷ p) b h = elim (Bool-cases (has_prefix (c ∷ s) old)) [
    | inl found ↦
        let opens = ap (λ t. has_prefix t (q ∷ p)) (sym (replaced_found c s found)) ∙ h in
        absurd (ground (arith, opens))
    | inr kept ↦
        let same = ap (λ t. has_prefix t (q ∷ p)) (sym (replaced_kept c s kept)) ∙ h in
        ground (arith, same, has_prefix_back s p)
  ]

has_prefix-nil : (f : Text) → 9 < length f → has_prefix [] f ≡ false
unfolding has_prefix
has_prefix-nil [] l = absurd (omega arith)
has_prefix-nil (q ∷ f) l = refl

-- A text longer than what stands before a closing bracket does not begin there.
has_prefix-bracket :
    (u t f : Text)
    → length u < length f
    → has_bracket f ≡ false
    → has_prefix (u ++ b']' ∷ t) f ≡ false
unfolding has_prefix
has_prefix-bracket u t [] l b = absurd (omega arith)
has_prefix-bracket [] t (q ∷ f) l b = ground arith
has_prefix-bracket (c ∷ u) t (q ∷ f) l b = ground (arith, has_prefix-bracket u t f)

contains-bracket :
    (u t f : Text)
    → length u < length f
    → has_bracket f ≡ false
    → contains (u ++ b']' ∷ t) f ≡ contains t f
unfolding contains
contains-bracket [] t f l b = rw (has_prefix-bracket [] t f l b)
contains-bracket (c ∷ u) t f l b =
    rw (has_prefix-bracket (c ∷ u) t f l b) (contains-bracket u t f (omega arith) b)

-- If a text does not begin at a byte that is kept, neither does it in the output.
has_prefix_cons_back :
    (old : Text) (c : ℕ) (s f : Text)
    → has_bracket f ≡ false
    → has_prefix (c ∷ s) f ≡ false
    → has_prefix (c ∷ replaced old 0 s) f ≡ false
unfolding has_prefix
has_prefix_cons_back old c s [] b h = absurd (ground arith)
has_prefix_cons_back old c s (q ∷ f) b h = ground (arith, has_prefix_back old s f)

module _ (f : Text) (bracketless : has_bracket f ≡ false) (long : 9 < length f) where
  -- The bytes of the placeholder cannot show the text, and what follows them may not either.
  contains-placeholder : (t : Text) → contains (placeholder ++ t) f ≡ contains t f
  contains-placeholder t = contains-bracket (codes "[REDACTED") t f long bracketless

  contains-replaced :
      (old : Text) (skip : ℕ) (s : Text)
      → contains s f ≡ false
      → contains (replaced old skip s) f ≡ false
  unfolding replace_loop contains
  contains-replaced old skip [] h = h
  contains-replaced old (suc skip) (c ∷ s) h = contains-replaced old skip s (ground arith)
  contains-replaced old zero (c ∷ s) h = elim (Bool-cases (has_prefix (c ∷ s) old)) [
    | inl found ↦
        ap (λ t. contains t f) (replaced_found old c s found)
        ∙ contains-placeholder (replaced old (length old - 1) s)
        ∙ contains-replaced old (length old - 1) s (ground arith)
    | inr kept ↦
        let later = contains-replaced old 0 s (ground arith) in
        let here = has_prefix_cons_back old c s f bracketless (ground arith) in
        ap (λ t. contains t f) (replaced_kept old c s kept) ∙ ground (arith, here, later)
  ]

  contains-replaced_self : (skip : ℕ) (s : Text) → contains (replaced f skip s) f ≡ false
  unfolding replace_loop contains has_prefix
  contains-replaced_self skip [] = has_prefix-nil f long
  contains-replaced_self (suc skip) (c ∷ s) = contains-replaced_self skip s
  contains-replaced_self zero (c ∷ s) = elim (Bool-cases (has_prefix (c ∷ s) f)) [
    | inl found ↦
        ap (λ t. contains t f) (replaced_found f c s found)
        ∙ contains-placeholder (replaced f (length f - 1) s)
        ∙ contains-replaced_self (length f - 1) s
    | inr kept ↦
        let later = contains-replaced_self 0 s in
        let here = has_prefix_cons_back f c s f bracketless kept in
        ap (λ t. contains t f) (replaced_kept f c s kept) ∙ ground (arith, here, later)
  ]

  -- A text of ten bytes or more, with no bracket in it, is gone after it is replaced, and no other
  -- replacement brings it back.
  pub contains-replace_all :
      (old s : Text)
      → (contains (replace_all s f placeholder) f ≡ false)
        × (contains s f ≡ false → contains (replace_all s old placeholder) f ≡ false)
  unfolding replace_all
  contains-replace_all old s = (contains-replaced_self 0 s, contains-replaced old 0 s)
