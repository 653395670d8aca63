-- ===== src/Anomaly/Feed/Recent.antt =====
-- What the feed still has.
use mathlib.Core.List.{reverse-cons, reverse-append}
use sentinellog.Prelude.{
  ℕ, zero, suc, ◌-◌, ◌≤◌, ◌≡◌, refl, sym, ap, ◌∙◌, inl, inr, ℤ, pos, negsuc, Bool, Bool-cases, Text,
  List, [], ◌∷◌, ◌++◌, foldl, reverse, filter, ◌==◌, text_eq, ltb, length, take, drop, take-suc,
  get_elem?-some_of_lt, take_of_length-le, take-length_append, take-append-drop, length-append,
  length-drop, length-take, append-nil, append_assoc, arith,
}
use sentinellog.Prelude.Float.{Float}
use sentinellog.Anomaly.{Event}
use sentinellog.Anomaly.Feed.{Feed, new_feed, trim, push, n_or_50, recent_loop, recent}

module _ {A : Type 0} where
  take-append_take :
      (n m : ℕ) (xs ys : List A) → n ≤ m → take n (xs ++ take m ys) ≡ take n (xs ++ ys)
  take-append_take zero m xs ys h = refl
  take-append_take (suc n) zero xs ys h = absurd (omega (arith, h))
  take-append_take (suc n) (suc m) [] [] h = refl
  take-append_take (suc n) (suc m) [] (y ∷ ys) h =
      ap (◌∷◌ y) (take-append_take n m [] ys (omega (arith, h)))
  take-append_take (suc n) (suc m) (x ∷ xs) ys h =
      ap (◌∷◌ x) (take-append_take n (suc m) xs ys (omega (arith, h)))

  pub length-reverse : (xs : List A) → length (reverse xs) ≡ length xs
  length-reverse [] = refl
  length-reverse (x ∷ xs) =
      ap length (reverse-cons x xs)
      ∙ omega (arith, length-append (reverse xs) (x ∷ []), length-reverse xs)

  reverse-drop : (k : ℕ) (xs : List A) → reverse (drop k xs) ≡ take (length xs - k) (reverse xs)
  reverse-drop k xs =
      sym (take-length_append (reverse (drop k xs)) (reverse (take k xs)))
      ∙ ap (λ n. take n (reverse (drop k xs) ++ reverse (take k xs)))
          (length-reverse (drop k xs) ∙ length-drop k xs)
      ∙ ap (take (length xs - k))
          (sym (reverse-append (take k xs) (drop k xs)) ∙ ap reverse (take-append-drop k xs))

module _ ⦃fl : Float⦄ where
  abbrev pub of_tenant : Text → Event → Bool
  of_tenant tenant e = e.tenant_id == tenant

  reverse-trim : (cap : ℕ) (xs : List Event) → reverse (trim cap xs) ≡ take cap (reverse xs)
  unfolding trim
  reverse-trim cap xs = elim (Bool-cases (ltb cap (length xs))) [
    | inl over ↦
        simp over (reverse-drop (length xs - cap) xs ∙ ap (λ n. take n (reverse xs)) (ground arith))
    | inr fits ↦
        simp fits (sym (take_of_length-le cap (reverse xs) (ground (arith, length-reverse xs))))
  ]

  recent_loop-eq :
      (events : List Event) (tenant : Text) (n i : ℕ) (out : List Event)
      → i ≤ length events
      → length out ≤ n
      → recent_loop events tenant n i out
        ≡ take n (out ++ filter (of_tenant tenant) (reverse (take i events)))
  unfolding recent_loop
  recent_loop-eq events tenant n zero out p r = sym (rw append-nil (take_of_length-le n out r))
  recent_loop-eq events tenant n (suc i) out p r = elim (Bool-cases (ltb (length out) n)) [
    | inr full ↦
        let exact : n ≡ length out = ground arith in
        simp full (rw exact (sym (take-length_append out _)))
    | inl room ↦
        let (x, here) = get_elem?-some_of_lt events i (omega arith) in
        let back = ap reverse (take-suc events i here) ∙ reverse-append (take i events) (x ∷ []) in
        simp (room, here, back)
          (elim (Bool-cases (x.tenant_id == tenant)) [
            | inr miss ↦ simp miss (recent_loop-eq events tenant n i out (omega arith) r)
            | inl hit ↦ simp hit (
                recent_loop-eq events tenant n i (out ++ x ∷ []) (omega arith)
                  (ground (arith, length-append out (x ∷ [])))
                ∙ ap (take n) (append_assoc out (x ∷ []) _))
          ])
  ]

  pub push_all : Feed → List Event → Feed
  push_all f es = foldl push f es

  length-trim : (cap : ℕ) (xs : List Event) → length (trim cap xs) ≤ cap
  unfolding trim
  length-trim cap xs = ground (arith, length-drop (length xs - cap) xs)

  reverse-push :
      (f : Feed) (e : Event) → reverse (push f e).events ≡ take f.cap (e ∷ reverse f.events)
  unfolding push
  reverse-push f e =
      reverse-trim f.cap (f.events ++ e ∷ []) ∙ ap (take f.cap) (reverse-append f.events (e ∷ []))

  push_all-eq :
      (es : List Event) (f : Feed)
      → length f.events ≤ f.cap
      → (reverse (push_all f es).events ≡ take f.cap (reverse es ++ reverse f.events))
        × ((push_all f es).cap ≡ f.cap)
  unfolding push_all push
  push_all-eq [] f h = (
    sym (take_of_length-le f.cap (reverse f.events) (omega (arith, h, length-reverse f.events))),
    refl,
  )
  push_all-eq (e ∷ es) f h =
      let (all, cap) = push_all-eq es (push f e) (length-trim f.cap (f.events ++ e ∷ [])) in
      (
        all
            ∙ ap (λ l. take f.cap (reverse es ++ l)) (reverse-push f e)
            ∙ take-append_take f.cap f.cap (reverse es) (e ∷ reverse f.events) (omega arith)
            ∙ ap (take f.cap) (
                sym (append_assoc (reverse es) (e ∷ []) (reverse f.events))
                ∙ ap (λ l. l ++ reverse f.events) (sym (reverse-cons e es))),
        cap,
      )

  recent-eq :
      (f : Feed) (tenant : Text) (n : ℤ)
      → recent f tenant n ≡ take (n_or_50 n) (filter (of_tenant tenant) (reverse f.events))
  unfolding recent
  recent-eq f tenant n =
      recent_loop-eq f.events tenant (n_or_50 n) (length f.events) [] (omega arith) (omega arith)
      ∙ ap (λ l. take (n_or_50 n) (filter (of_tenant tenant) (reverse l)))
          (take_of_length-le (length f.events) f.events (omega arith))

  new_feed-empty : (capacity : ℤ) → (new_feed capacity).events ≡ []
  unfolding new_feed
  new_feed-empty (pos zero) = refl
  new_feed-empty (pos (suc n)) = refl
  new_feed-empty (negsuc n) = refl

  -- After any pushes into a new feed, a tenant reads the newest of its events among the last `cap`
  -- that were pushed, newest first, at most as many as it asks for, and no other tenant's; and the
  -- feed never holds more than its cap.
  pub recent-push_all :
      (capacity : ℤ) (es : List Event) (tenant : Text) (n : ℤ)
      → (recent (push_all (new_feed capacity) es) tenant n
          ≡ take
              (n_or_50 n)
              (filter (of_tenant tenant) (take (new_feed capacity).cap (reverse es))))
        × (length (push_all (new_feed capacity) es).events ≤ (new_feed capacity).cap)
  recent-push_all capacity es tenant n =
      let f : Feed = new_feed capacity in
      let empty = new_feed-empty capacity in
      let small : length f.events ≤ f.cap = omega (arith, ap length empty) in
      let all : reverse (push_all f es).events ≡ take f.cap (reverse es) =
        (push_all-eq es f small).0
        ∙ ap (λ l. take f.cap (reverse es ++ reverse l)) empty
        ∙ ap (take f.cap) (append-nil (reverse es)) in
      (
        recent-eq (push_all f es) tenant n
            ∙ ap (λ l. take (n_or_50 n) (filter (of_tenant tenant) l)) all,
        omega (
          arith,
          length-reverse (push_all f es).events,
          ap length all,
          length-take f.cap (reverse es),
        ),
      )
