-- ===== src/Prelude/Tests.antt =====
-- Boolean tests, the conditional, and decidable equality as an interface.
use Prim.Native.Nat.{ℕ, ◌<◌, ◌%◌, ◌^◌, compare, Ordering}
use mathlib.Core.Path.{◌≡◌, refl, subst}
use mathlib.Core.Logic.{◌≢◌, ◌↔◌, ◌⊎◌, inl, inr}
use mathlib.Core.Bool.{Bool, true, false, ◌&&◌}
use mathlib.Core.Option.{Option, none, some}
use mathlib.Core.List.{List, [], ◌∷◌}
use native.Mathlib.Omega.{arith}

abbrev pub ltb : ℕ → ℕ → Bool
ltb a b = elim (compare a b) [ Ordering.lt ↦ true | _ ↦ false ]

abbrev pub leb : ℕ → ℕ → Bool
leb a b = elim (compare a b) [ Ordering.gt ↦ false | _ ↦ true ]

abbrev pub nat_beq : ℕ → ℕ → Bool
nat_beq a b = elim (compare a b) [ Ordering.eq ↦ true | _ ↦ false ]

infix 1 if◌then◌else◌
abbrev pub if◌then◌else◌ {ℓ} : {A : Type ℓ} → Bool → A → A → A
if true then x else y = x
if false then x else y = y

pub ltb→lt : (a b : ℕ) → ltb a b ≡ true → a < b
ltb→lt a b h = ground arith

pub lt→ltb : (a b : ℕ) → a < b → ltb a b ≡ true
lt→ltb a b h = ground arith

pub nat_beq_iff : (a b : ℕ) → (nat_beq a b ≡ true) ↔ (a ≡ b)
nat_beq_iff a b = ground arith

-- To split on a computed value and keep the equation.
pub Bool-cases : (b : Bool) → (b ≡ true) ⊎ (b ≡ false)
Bool-cases true = inl refl
Bool-cases false = inr refl

pub Option-cases {ℓ} : {A : Type ℓ} (o : Option A) → (o ≡ none) ⊎ ((a : A) × (o ≡ some a))
Option-cases none = inl refl
Option-cases (some a) = inr (a, refl)

-- A type that Go's `==` compares.
pub record Comparable {ℓ} (T : Type ℓ) : Type ℓ where
  pub agree : T → T → Bool
  pub agree_iff : (x y : T) → (agree x y ≡ true) ↔ (x ≡ y)

-- Texts are compared byte by byte.
unfoldable pub text_beq : List ℕ → List ℕ → Bool
text_beq [] [] = true
text_beq [] (_ ∷ _) = false
text_beq (_ ∷ _) [] = false
text_beq (a ∷ s) (b ∷ t) = nat_beq a b && text_beq s t

text_beq→eq : (s t : List ℕ) → text_beq s t ≡ true → s ≡ t
unfolding text_beq
text_beq→eq [] [] h = refl
text_beq→eq [] (b ∷ t) h = ground arith
text_beq→eq (a ∷ s) [] h = ground arith
text_beq→eq (a ∷ s) (b ∷ t) h = ground (arith, text_beq→eq s t)

text_beq_refl : (s : List ℕ) → text_beq s s ≡ true
unfolding text_beq
text_beq_refl [] = refl
text_beq_refl (a ∷ s) = ground (arith, text_beq_refl s)

eq→text_beq : (s t : List ℕ) → s ≡ t → text_beq s t ≡ true
eq→text_beq s t e = subst (λ u. text_beq s u ≡ true) e (text_beq_refl s)

pub text_beq_iff : (s t : List ℕ) → (text_beq s t ≡ true) ↔ (s ≡ t)
text_beq_iff s t = (text_beq→eq s t, eq→text_beq s t)

instance abbrev pub text_eq : Comparable (List ℕ)
text_eq = record { agree = text_beq; agree_iff = text_beq_iff }

-- Numbers are compared by value.
instance abbrev pub nat_eq : Comparable ℕ
nat_eq = record { agree = nat_beq; agree_iff = nat_beq_iff }

module _ {ℓ} {T : Type ℓ} ⦃c : Comparable T⦄ where
  infix 50 ◌==◌
  abbrev pub ◌==◌ : T → T → Bool
  x == y = c.agree x y

  pub ==_refl : (x : T) → (x == x) ≡ true
  ==_refl x = (c.agree_iff x x).1 refl

-- uint64 arithmetic wraps.
abbrev pub u64 : ℕ → ℕ
u64 n = n % 2 ^ 64

pub text_beq-false : (a b : List ℕ) → a ≢ b → text_beq a b ≡ false
text_beq-false a b h = elim (Bool-cases (text_beq a b)) [
  | inl e ↦ absurd (h ((text_beq_iff a b).0 e))
  | inr e ↦ e
]

pub text_beq-different : (a b : List ℕ) → text_beq a b ≡ false → a ≢ b
text_beq-different a b h e = ground (arith, h, (text_beq_iff a b).1 e)
