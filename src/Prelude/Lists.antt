-- ===== src/Prelude/Lists.antt =====
-- Lists measured and indexed by native numbers, under the library's names.
use Prim.Native.Nat.{ℕ, zero, suc, ◌+◌, ◌-◌, ◌≤◌, ◌<◌, min}
use mathlib.Core.Path.{◌≡◌, refl, ap, sym, ◌∙◌}
use mathlib.Core.List.{
  map, reverse, reverse-cons, reverse-reverse, map-append, List, [], ◌∷◌, ◌++◌, Memᴰ,
}
use mathlib.Core.Option.{Option, none, some}
use native.Mathlib.Omega.{arith}

module _ {ℓ} {A : Type ℓ} where
  abbrev pub take : ℕ → List A → List A
  take zero l = []
  take (suc k) [] = []
  take (suc k) (a ∷ l) = a ∷ take k l

  abbrev pub drop : ℕ → List A → List A
  drop zero l = l
  drop (suc k) [] = []
  drop (suc k) (a ∷ l) = drop k l

  abbrev pub get_elem? : List A → ℕ → Option A
  get_elem? [] i = none
  get_elem? (a ∷ l) zero = some a
  get_elem? (a ∷ l) (suc i) = get_elem? l i

  abbrev pub length : List A → ℕ
  length [] = 0
  length (a ∷ l) = suc (length l)

  abbrev pub replicate : ℕ → A → List A
  replicate zero a = []
  replicate (suc n) a = a ∷ replicate n a

  abbrev pub get_last? : List A → Option A
  get_last? [] = none
  get_last? (x ∷ []) = some x
  get_last? (x ∷ y ∷ xs) = get_last? (y ∷ xs)

  pub length-append : (xs ys : List A) → length (xs ++ ys) ≡ length xs + length ys
  length-append [] ys = omega arith
  length-append (x ∷ xs) ys = omega (arith, length-append xs ys)

  pub length-take : (n : ℕ) (xs : List A) → length (take n xs) ≡ min n (length xs)
  length-take zero xs = omega arith
  length-take (suc n) [] = omega arith
  length-take (suc n) (x ∷ xs) = omega (arith, length-take n xs)

  pub length-drop : (n : ℕ) (xs : List A) → length (drop n xs) ≡ length xs - n
  length-drop zero xs = omega arith
  length-drop (suc n) [] = omega arith
  length-drop (suc n) (x ∷ xs) = omega (arith, length-drop n xs)

  pub take_of_length-le : (k : ℕ) (l : List A) → length l ≤ k → take k l ≡ l
  take_of_length-le (suc k) (a ∷ l) fits = ap (◌∷◌ a) (take_of_length-le k l (omega (arith, fits)))
  take_of_length-le zero (a ∷ l) fits = absurd (omega (arith, fits))
  take_of_length-le (suc k) [] fits = refl
  take_of_length-le zero [] fits = refl

  pub take-append-drop : (n : ℕ) (xs : List A) → take n xs ++ drop n xs ≡ xs
  take-append-drop zero xs = refl
  take-append-drop (suc n) [] = refl
  take-append-drop (suc n) (x ∷ xs) = ap (◌∷◌ x) (take-append-drop n xs)

  pub take-length_append : (xs ys : List A) → take (length xs) (xs ++ ys) ≡ xs
  take-length_append [] ys = refl
  take-length_append (x ∷ xs) ys = ap (◌∷◌ x) (take-length_append xs ys)

  pub drop-nil : (n : ℕ) → drop n [] ≡ []
  drop-nil zero = refl
  drop-nil (suc n) = refl

  pub drop_of_length-le : (n : ℕ) (xs : List A) → length xs ≤ n → drop n xs ≡ []
  drop_of_length-le n [] h = drop-nil n
  drop_of_length-le zero (x ∷ xs) h = absurd (omega arith)
  drop_of_length-le (suc n) (x ∷ xs) h = drop_of_length-le n xs (omega arith)

  pub drop-min : (n : ℕ) (xs : List A) → drop (min n (length xs)) xs ≡ drop n xs
  drop-min n [] = drop-nil (min n 0) ∙ sym (drop-nil n)
  drop-min zero (x ∷ xs) =
      let count : min 0 (suc (length xs)) ≡ 0 = omega arith in ap (λ k. drop k (x ∷ xs)) count
  drop-min (suc n) (x ∷ xs) =
      let count : min (suc n) (suc (length xs)) ≡ suc (min n (length xs)) = omega arith in
      ap (λ k. drop k (x ∷ xs)) count ∙ drop-min n xs

  pub drop-drop : (m n : ℕ) (xs : List A) → drop m (drop n xs) ≡ drop (n + m) xs
  drop-drop m zero xs = ground arith
  drop-drop m (suc n) [] = drop-nil m ∙ sym (drop-nil (suc n + m))
  drop-drop m (suc n) (x ∷ xs) =
      let count : suc (n + m) ≡ suc n + m = omega arith in
      drop-drop m n xs ∙ ap (λ k. drop k (x ∷ xs)) count

  pub get_elem?-none_of_le : (xs : List A) (i : ℕ) → length xs ≤ i → get_elem? xs i ≡ none
  get_elem?-none_of_le [] i h = refl
  get_elem?-none_of_le (x ∷ xs) zero h = absurd (omega arith)
  get_elem?-none_of_le (x ∷ xs) (suc i) h = get_elem?-none_of_le xs i (omega arith)

  pub get_elem?-some_of_lt :
      (xs : List A) (i : ℕ) → i < length xs → (x : A) × (get_elem? xs i ≡ some x)
  get_elem?-some_of_lt [] i h = absurd (omega arith)
  get_elem?-some_of_lt (x ∷ xs) zero h = (x, refl)
  get_elem?-some_of_lt (x ∷ xs) (suc i) h = get_elem?-some_of_lt xs i (omega arith)

  -- Reading an index past a prefix of the list.
  pub take-suc :
      (xs : List A) (i : ℕ) {x : A}
      → get_elem? xs i ≡ some x
      → take (suc i) xs ≡ take i xs ++ x ∷ []
  take-suc [] i h = ground arith
  take-suc (y ∷ xs) zero h = ground arith
  take-suc (y ∷ xs) (suc i) h = ap (◌∷◌ y) (take-suc xs i h)

  pub drop_lem :
      (xs : List A) (i : ℕ) {x : A} → get_elem? xs i ≡ some x → drop i xs ≡ x ∷ drop (suc i) xs
  drop_lem [] i h = ground arith
  drop_lem (y ∷ xs) zero h = ground arith
  drop_lem (y ∷ xs) (suc i) h = drop_lem xs i h

  pub get_elem?-Memᴰ : (xs : List A) (i : ℕ) {x : A} → get_elem? xs i ≡ some x → Memᴰ x xs
  get_elem?-Memᴰ [] i h = absurd (ground arith)
  get_elem?-Memᴰ (y ∷ xs) zero h = Memᴰ.head (ground arith)
  get_elem?-Memᴰ (y ∷ xs) (suc i) h = Memᴰ.tail (get_elem?-Memᴰ xs i h)

  pub Memᴰ-index :
      {x : A} {xs : List A} → Memᴰ x xs → (i : ℕ) × (i < length xs) × (get_elem? xs i ≡ some x)
  Memᴰ-index (Memᴰ.head e) = (0, omega arith, ap some (sym e))
  Memᴰ-index (Memᴰ.tail m) = let (i, p, e) = Memᴰ-index m in (suc i, omega arith, e)

module _ {ℓ κ} {A : Type ℓ} {B : Type κ} (f : A → B) where
  pub map-reverse : (xs : List A) → map f (reverse xs) ≡ reverse (map f xs)
  map-reverse [] = refl
  map-reverse (x ∷ xs) = simp (reverse-cons, map-append, map-reverse xs)

  pub length-map : (xs : List A) → length (map f xs) ≡ length xs
  length-map [] = refl
  length-map (x ∷ xs) = ap suc (length-map xs)

module _ {ℓ} {A : Type ℓ} where
  pub reverse_inj : (xs ys : List A) → reverse xs ≡ reverse ys → xs ≡ ys
  reverse_inj xs ys e = sym (reverse-reverse xs) ∙ ap reverse e ∙ reverse-reverse ys
