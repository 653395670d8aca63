-- ===== src/Store/Since.antt =====
-- `Since`: the entries past a checkpoint, found by binary search.
use sentinellog.Prelude.{
  ℕ, zero, suc, ◌+◌, ◌-◌, ◌≤◌, ◌<◌, ◌≡◌, sym, ap, ◌∙◌, inl, inr, ℤ, Bool, List, [], ◌∷◌, ◌++◌, some,
  arith, ltb, ltb→lt, length, drop-nil, drop-min, drop_of_length-le, take_of_length-le,
  take-length_append, take, drop, get_elem?, filter, Bool-cases, list_laws, append_assoc,
  length-append, get_elem?-some_of_lt, drop_lem,
}
use Prim.Native.Nat.{min}
use sentinellog.Model.{StoredEntry}
use sentinellog.Store.{MemStore, limit_or, id_after, since, since_loop}
use sentinellog.Store.BinarySearch.{sort_search, IsFirst, sort_search-IsFirst}
use sentinellog.Store.Writes.{Numbered, IsValid}

pub Numbered-at :
    (next : ℕ) (es : List StoredEntry) (i : ℕ) {e : StoredEntry}
    → Numbered next es
    → get_elem? es i ≡ some e
    → e.id ≡ next + i
Numbered-at next [] i n h = ground arith
Numbered-at next (d ∷ es) zero n h = ground (arith, n.0)
Numbered-at next (d ∷ es) (suc i) n h = omega (arith, Numbered-at (suc next) es i n.1 h)

abbrev pub newer : ℕ → StoredEntry → Bool
newer after_id e = ltb after_id e.id

filter-newer :
    (after_id next : ℕ) (es : List StoredEntry)
    → Numbered next es
    → filter (newer after_id) es ≡ drop (suc after_id - next) es
filter-newer after_id next [] n = sym (drop-nil (suc after_id - next))
filter-newer after_id next (e ∷ es) n = elim (Bool-cases (ltb after_id e.id)) [
  | inl after ↦
      let here : suc after_id - next ≡ 0 = ground (arith, n.0) in
      let later : suc after_id - suc next ≡ 0 = omega arith in
      let rest = filter-newer after_id (suc next) es n.1 in simp (after, rest, here, later)
  | inr old ↦
      let here : suc after_id - next ≡ suc (suc after_id - suc next) = ground (arith, n.0) in
      simp (old, here) (filter-newer after_id (suc next) es n.1)
]

id_after-eq :
    (es : List StoredEntry) (after_id i : ℕ)
    → Numbered 1 es
    → i < length es
    → id_after es after_id i ≡ ltb after_id (suc i)
unfolding id_after
id_after-eq es after_id i n h =
    let (e, here) = get_elem?-some_of_lt es i h in
    let named : e.id ≡ 1 + i = Numbered-at 1 es i n here in rw (here, id_after) (ground arith)

since_loop-eq :
    (es : List StoredEntry) (limit i rounds : ℕ) (out : List StoredEntry)
    → length es ≤ i + rounds
    → length out ≤ limit
    → since_loop es limit i rounds out ≡ take limit (out ++ drop i es)
unfolding since_loop
since_loop-eq es limit i zero out p r =
    simp (drop_of_length-le i es (omega arith), list_laws) (sym (take_of_length-le limit out r))
since_loop-eq es limit i (suc rounds) out p r = elim (Bool-cases (ltb i (length es))) [
  | inr past ↦
      let none_left : drop i es ≡ [] = drop_of_length-le i es (ground arith) in
      simp (past, none_left, list_laws) (sym (take_of_length-le limit out r))
  | inl inside ↦ elim (Bool-cases (ltb (length out) limit)) [
    | inr full ↦
        let exact : limit ≡ length out = ground arith in
        simp (inside, full) (rw exact (sym (take-length_append out (drop i es))))
    | inl room ↦
        let (x, here) = get_elem?-some_of_lt es i (ltb→lt i (length es) inside) in
        simp (inside, room, here, drop_lem es i here)
          (since_loop-eq es limit (suc i) rounds (out ++ x ∷ []) (omega arith)
              (ground (arith, length-append out (x ∷ [])))
            ∙ ap (take limit) (append_assoc out (x ∷ []) (drop (suc i) es)))
  ]
]

start-IsFirst :
    (es : List StoredEntry) (after_id : ℕ)
    → Numbered 1 es
    → IsFirst (length es) (id_after es after_id) (sort_search (length es) (id_after es after_id))
start-IsFirst es after_id n = sort_search-IsFirst (length es) (id_after es after_id) (λ k m a b h.
    ground (arith, id_after-eq es after_id k n (omega arith), id_after-eq es after_id m n b))

IsFirst-min :
    {f : ℕ → Bool} {r : ℕ} (n a : ℕ)
    → ((i : ℕ) → i < n → f i ≡ ltb a (suc i))
    → IsFirst n f r
    → r ≡ min a n
IsFirst-min {f} {r} n a test first = elim (Bool-cases (ltb r (min a n))) [
  | inl low ↦
      absurd (ground (arith, test r (ground arith), first.from r (omega arith) (ground arith)))
  | inr notlow ↦ elim (Bool-cases (ltb (min a n) r)) [
    | inl high ↦
        let past : a < r = ground (arith, first.in_range) in
        absurd (ground (arith, test a (omega (arith, first.in_range)), first.before a past))
    | inr nothigh ↦ ground arith
  ]
]

-- The first index past the checkpoint is the checkpoint itself, or the end.
start-eq :
    (es : List StoredEntry) (after_id : ℕ)
    → Numbered 1 es
    → sort_search (length es) (id_after es after_id) ≡ min after_id (length es)
start-eq es after_id n =
    IsFirst-min (length es) after_id (λ i h. id_after-eq es after_id i n h)
      (start-IsFirst es after_id n)

pub since-drop :
    (s : MemStore) (after_id : ℕ) (limit : ℤ)
    → IsValid s
    → since s after_id limit ≡ take (limit_or 500 limit) (drop after_id s.entries)
unfolding since
since-drop s after_id limit v =
    let es : List StoredEntry = s.entries in
    let start : ℕ = sort_search (length es) (id_after es after_id) in
    since_loop-eq es (limit_or 500 limit) start (length es) [] (omega arith) (omega arith)
    ∙ ap (take (limit_or 500 limit))
        (ap (λ k. drop k es) (start-eq es after_id v.dense) ∙ drop-min after_id es)

-- On a valid store `Since` returns exactly the entries whose ID is past the checkpoint, in order,
-- at most as many as the limit.
pub since-eq :
    (s : MemStore) (after_id : ℕ) (limit : ℤ)
    → IsValid s
    → since s after_id limit ≡ take (limit_or 500 limit) (filter (newer after_id) s.entries)
since-eq s after_id limit v =
    since-drop s after_id limit v
    ∙ ap (take (limit_or 500 limit))
        (sym (filter-newer after_id 1 s.entries v.dense ∙ ap (λ k. drop k s.entries) (omega arith)))
