-- ===== src/Worker/Embed/Reads.antt =====
-- The entries that a tick reads.
use sentinellog.Prelude.{
  ℕ, zero, suc, ◌+◌, ◌≡◌, refl, sym, ap, subst, ◌∙◌, List, [], ◌∷◌, ◌++◌, text_eq, length, take,
  drop, get_last?, arith,
}
use sentinellog.Model.{StoredEntry}
use sentinellog.Store.Writes.{Numbered}
use sentinellog.Worker.Embed.{last_or}

pub Numbered-take :
    (n next : ℕ) (es : List StoredEntry) → Numbered next es → Numbered next (take n es)
Numbered-take zero next es h = tt
Numbered-take (suc n) next [] h = tt
Numbered-take (suc n) next (e ∷ es) h = (h.0, Numbered-take n (suc next) es h.1)

pub Numbered-drop :
    (n next after : ℕ) (es : List StoredEntry)
    → after ≡ next + n
    → Numbered next es
    → Numbered after (drop n es)
Numbered-drop zero next after es e h = subst (λ k. Numbered k es) (omega (arith, e)) h
Numbered-drop (suc n) next after [] e h = tt
Numbered-drop (suc n) next after (x ∷ es) e h =
    Numbered-drop n (suc next) after es (omega (arith, e)) h.1

pub last_or-Numbered :
    (d n : ℕ) (e : StoredEntry) (es : List StoredEntry)
    → Numbered (suc n) (e ∷ es)
    → last_or d (get_last? (e ∷ es)) ≡ n + length (e ∷ es)
unfolding last_or
last_or-Numbered d n e [] h = omega (arith, h.0)
last_or-Numbered d n e (x ∷ es) h = last_or-Numbered d (suc n) x es h.1 ∙ omega arith

take-nil : (n : ℕ) → take {A = StoredEntry} n [] ≡ []
take-nil zero = refl
take-nil (suc n) = refl

pub take-add : (n m : ℕ) (es : List StoredEntry) → take (n + m) es ≡ take n es ++ take m (drop n es)
take-add zero m es = ap (λ k. take k es) (omega arith)
take-add (suc n) m [] = let e : suc n + m ≡ suc (n + m) = omega arith in rw e (sym (take-nil m))
take-add (suc n) m (e ∷ es) =
    let p : suc n + m ≡ suc (n + m) = omega arith in rw p (ap (◌∷◌ e) (take-add n m es))

pub take-length-take : (n : ℕ) (es : List StoredEntry) → take (length (take n es)) es ≡ take n es
take-length-take zero es = refl
take-length-take (suc n) [] = refl
take-length-take (suc n) (e ∷ es) = ap (◌∷◌ e) (take-length-take n es)
