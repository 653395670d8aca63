-- ===== src/Prelude/Sorting.antt =====
-- sort.Slice, which the program calls with a less function; it may not be stable.
use mathlib.Core.Path.{◌≡◌, sym, subst}
use mathlib.Core.Bool.{Bool, true, false}
use mathlib.Core.List.{List, [], ◌∷◌, Permᴰ}
use mathlib.Core.List.Permᴰ.{nil, cons, swap, trans}
use sentinellog.Prelude.Filter.{All}

-- A strict weak order.
pub record IsWeakOrder {A : Type 0} (less : A → A → Bool) : Type 0 where
  pub asym : (x y : A) → less x y ≡ true → less y x ≡ false
  pub connects : (x y z : A) → less y x ≡ false → less z y ≡ false → less z x ≡ false

-- No item comes before one that is less.
abbrev pub Ordered : {A : Type 0} → (A → A → Bool) → List A → Type 0
Ordered less [] = Unit
Ordered less (x ∷ xs) = All (λ y. less y x ≡ false) xs × Ordered less xs

pub record Sorting (A : Type 0) : Type 0 where
  pub sort_slice : (A → A → Bool) → List A → List A
  pub perm : (less : A → A → Bool) (l : List A) → Permᴰ (sort_slice less l) l
  pub ordered :
      (less : A → A → Bool) (l : List A) → IsWeakOrder less → Ordered less (sort_slice less l)

pub All-Perm {ℓ} :
    {A : Type 0} (P : A → Type ℓ) {xs ys : List A} → Permᴰ xs ys → All P ys → All P xs
All-Perm P nil h = h
All-Perm P (cons e p) h = (subst P (sym e) h.0, All-Perm P p h.1)
All-Perm P (swap e f) h = (subst P (sym e) h.1.0, (subst P (sym f) h.0, h.1.1))
All-Perm P (trans p q) h = All-Perm P p (All-Perm P q h)
