-- ===== src/Tests/Fixtures.antt =====
-- Concrete stand-ins for what the program calls of the standard library, and test data.
use sentinellog.Prelude.{
  ℤ, pos, negsuc, ℕ, zero, suc, ◌+◌, ◌-◌, ◌*◌, ◌/◌, refl, ap, ◌≡◌, Bool, true, false, ◌&&◌, Text,
  codes, List, [], ◌∷◌, ◌++◌, map, replicate, take, length, length-take, length-append, append-nil,
  ltb, leb, if◌then◌else◌, inl, inr, Bool-cases, All, All-imp, ◌==◌, nat_eq, arith,
}
use mathlib.Core.List.{Permᴰ}
use mathlib.Core.List.Permᴰ
use mathlib.Core.List.Permᴰ.{nil, cons, swap, trans}
use sentinellog.Prelude.Sorting.{Sorting, IsWeakOrder, Ordered}
use sentinellog.Prelude.Strings.{Runtime}
use sentinellog.Prelude.Float.{Float}
use sentinellog.Model.{LogEntry}
use sentinellog.Redaction.Pattern.{Regexp, plain}

abbrev lower_code : ℕ → ℕ
lower_code c = if leb b'A' c && leb c b'Z' then c + 32 else c

-- A digest of 32 bytes that keeps the first ones.
abbrev pub keep_32 : Text → Text
keep_32 s = take 32 (s ++ replicate 32 0)

length-replicate : (n : ℕ) → length {A = ℕ} (replicate n 0) ≡ n
length-replicate zero = refl
length-replicate (suc n) = ap suc (length-replicate n)

pub length-keep_32 : (s : Text) → length (keep_32 s) ≡ 32
length-keep_32 s = omega (
  arith,
  length-take 32 (s ++ replicate 32 0),
  length-append s (replicate 32 0),
  length-replicate 32,
)

instance abbrev pub plain_runtime : Runtime
plain_runtime = record {
  sha256 = keep_32;
  to_lower = map lower_code;
  trim_space = λ s. s;
  makes = λ n. leb n 1000000;
}

abbrev whole_part : ℤ → ℕ
whole_part (pos n) = n
whole_part (negsuc n) = 0

-- Natural numbers for the floats.
instance abbrev pub whole : Float
whole = record {
  F = ℕ;
  of_nat = λ n. n;
  of_int = whole_part;
  ratio = λ a b. a / b;
  add = λ a b. a + b;
  sub = λ a b. a - b;
  mul = λ a b. a * b;
  div = λ a b. a / b;
  neg = λ a. a;
  abs = λ a. a;
  sqrt = λ a. a;
  log2 = λ a. a;
  lt = ltb;
  le = leb;
  eq = λ a b. a == b;
}

-- Insertion sort.
module _ {A : Type 0} (less : A → A → Bool) where
  abbrev pub insert_sorted : A → List A → List A
  insert_sorted x [] = x ∷ []
  insert_sorted x (y ∷ ys) =
      let rest = insert_sorted x ys in if less y x then y ∷ rest else x ∷ y ∷ ys

  abbrev pub insertion_sort : List A → List A
  insertion_sort [] = []
  insertion_sort (x ∷ xs) = insert_sorted x (insertion_sort xs)

  insert_sorted-Perm : (x : A) (ys : List A) → Permᴰ (insert_sorted x ys) (x ∷ ys)
  insert_sorted-Perm x [] = cons refl nil
  insert_sorted-Perm x (y ∷ ys) = elim (Bool-cases (less y x)) [
    | inl e ↦ simp e (trans (cons refl (insert_sorted-Perm x ys)) (swap refl refl))
    | inr e ↦ simp e (Permᴰ.refl (x ∷ y ∷ ys))
  ]

  pub insertion_sort-Perm : (xs : List A) → Permᴰ (insertion_sort xs) xs
  insertion_sort-Perm [] = nil
  insertion_sort-Perm (x ∷ xs) =
      trans (insert_sorted-Perm x (insertion_sort xs)) (cons refl (insertion_sort-Perm xs))

  insert_sorted-All :
      (P : A → Type 0) (x : A) (ys : List A) → P x → All P ys → All P (insert_sorted x ys)
  insert_sorted-All P x [] p h = (p, tt)
  insert_sorted-All P x (y ∷ ys) p h = elim (Bool-cases (less y x)) [
    | inl e ↦ simp e (h.0, insert_sorted-All P x ys p h.1)
    | inr e ↦ simp e (p, h)
  ]

  insert_sorted-Ordered :
      IsWeakOrder less → (x : A) (ys : List A) → Ordered less ys → Ordered less (insert_sorted x ys)
  insert_sorted-Ordered weak x [] h = (tt, tt)
  insert_sorted-Ordered weak x (y ∷ ys) h = elim (Bool-cases (less y x)) [
    | inl e ↦ simp e (
      insert_sorted-All (λ z. less z y ≡ false) x ys (weak.asym y x e) h.0,
      insert_sorted-Ordered weak x ys h.1,
    )
    | inr e ↦ simp e ((refl, All-imp (λ z le. weak.connects x y z e le) ys h.0), h)
  ]

  pub insertion_sort-Ordered : IsWeakOrder less → (xs : List A) → Ordered less (insertion_sort xs)
  insertion_sort-Ordered weak [] = tt
  insertion_sort-Ordered weak (x ∷ xs) =
      insert_sorted-Ordered weak x (insertion_sort xs) (insertion_sort-Ordered weak xs)

abbrev pub sorting : {A : Type 0} → Sorting A
sorting = record {
  sort_slice = insertion_sort;
  perm = insertion_sort-Perm;
  ordered = λ less l weak. insertion_sort-Ordered less weak l;
}

-- An expression that matches nothing.
abbrev pub no_match : Regexp
no_match = record { compile = λ source s. plain s ∷ []; covers = λ source s. append-nil s }

abbrev pub entry_of : Text → Text → Text → LogEntry
entry_of tenant service message = record {
  tenant_id = tenant;
  timestamp = 1;
  service = service;
  level = codes "error";
  trace_id = [];
  message = message;
  attrs = [];
  redacted = true;
}

abbrev pub tenant_a : Text
tenant_a = codes "a"

abbrev pub tenant_b : Text
tenant_b = codes "b"

abbrev pub failed : LogEntry
failed = entry_of tenant_a (codes "pay") (codes "card declined")

abbrev pub foreign : LogEntry
foreign = entry_of tenant_b (codes "pay") (codes "other secret")

abbrev pub raw : LogEntry
raw = record failed { redacted = false }
