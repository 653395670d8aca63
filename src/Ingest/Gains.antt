-- ===== src/Ingest/Gains.antt =====
-- What a request adds to the buffer.
use sentinellog.Prelude.{
  ℕ, suc, ◌+◌, ◌≡◌, inl, inr, refl, sym, ap, subst, ◌∙◌, true, Option-cases, Text, List, [], ◌∷◌,
  ◌++◌, none, some, All, length, arith, append-nil, append_assoc, u64, text_eq,
}
use sentinellog.Prelude.Float.{Float}
use sentinellog.Model.{LogEntry, Time, Error, validate, error_text}
use sentinellog.Buffer.{Buffer, sent, full, panicked, publish, publish-cases}
use sentinellog.Redaction.{Redactor, redact}
use sentinellog.Ingest.{Response, aborted, reply, bad_request, prepare, publish_loop}

module _ ⦃fl : Float⦄ (r : Redactor) (tenant : Text) where
  -- The prepared ones of valid entries, in their order; some may be left out.
  pub data Published : List LogEntry → List LogEntry → Type 0 where
    nothing : {es : List LogEntry} → Published es []
    took :
        {es gs : List LogEntry} (e : LogEntry) (t : Time)
        → validate e ≡ none
        → Published es gs
        → Published (e ∷ es) (prepare r tenant t e ∷ gs)
    passed : {es gs : List LogEntry} (e : LogEntry) → Published es gs → Published (e ∷ es) gs

  -- An entry of the tenant, redacted.
  abbrev pub IsClean : LogEntry → Type 0
  IsClean e = (e.tenant_id ≡ tenant) × (e.redacted ≡ true)

  prepare-IsClean : (t : Time) (e : LogEntry) → IsClean (prepare r tenant t e)
  unfolding prepare redact
  prepare-IsClean t e = (refl, refl)

  pub Published-IsClean : {es gs : List LogEntry} → Published es gs → All IsClean gs
  Published-IsClean nothing = tt
  Published-IsClean (took e t v p) = (prepare-IsClean t e, Published-IsClean p)
  Published-IsClean (passed e p) = Published-IsClean p

  -- How the answer goes with the number of entries gained, `g` of `n`.
  pub data Answers (response : Response) (accepted shed n g : ℕ) : Type 0 where
    counted :
        (m : ℕ)
        → g + m ≡ n
        → response ≡ reply (accepted + g) (shed + m)
        → Answers response accepted shed n g
    refused : (text : Text) → response ≡ bad_request text → Answers response accepted shed n g
    cut : response ≡ aborted → Answers response accepted shed n g

  abbrev pub IsRun : List LogEntry → ℕ → ℕ → Buffer → Buffer × Response → Type 0
  IsRun es accepted shed b out =
      (gained : List LogEntry) × (out.0.queue ≡ b.queue ++ gained)
      × Published es gained
      × Answers out.1 accepted shed (length es) (length gained)

  Answers-sent :
      {response : Response} {accepted shed n g : ℕ}
      → Answers response (suc accepted) shed n g
      → Answers response accepted shed (suc n) (suc g)
  Answers-sent {response} {accepted} {shed} {n} {g} (counted m total h) =
      let e : suc accepted + g ≡ accepted + suc g = omega arith in
      counted m (omega (arith, total)) (h ∙ ap (λ a. reply a (shed + m)) e)
  Answers-sent (refused text h) = refused text h
  Answers-sent (cut h) = cut h

  Answers-full :
      {response : Response} {accepted shed n g : ℕ}
      → Answers response accepted (suc shed) n g
      → Answers response accepted shed (suc n) g
  Answers-full {response} {accepted} {shed} {n} {g} (counted m total h) =
      let e : suc shed + m ≡ shed + suc m = omega arith in
      counted (suc m) (omega (arith, total)) (h ∙ ap (λ s. reply (accepted + g) s) e)
  Answers-full (refused text h) = refused text h
  Answers-full (cut h) = cut h

  module _ (clock : ℕ → Time) where
    module _ (i accepted shed : ℕ) (es : List LogEntry) (b b' : Buffer) (e : LogEntry) where
      pub publish_loop-sent :
          validate e ≡ none
          → publish b (prepare r tenant (clock i) e) ≡ (b', sent)
          → publish_loop r tenant clock i (e ∷ es) accepted shed b
            ≡ publish_loop r tenant clock (suc i) es (suc accepted) shed b'
      unfolding publish_loop
      publish_loop-sent v p = simp (publish_loop, v, p)

      pub publish_loop-full :
          validate e ≡ none
          → publish b (prepare r tenant (clock i) e) ≡ (b', full)
          → publish_loop r tenant clock i (e ∷ es) accepted shed b
            ≡ publish_loop r tenant clock (suc i) es accepted (suc shed) b'
      unfolding publish_loop
      publish_loop-full v p = simp (publish_loop, v, p)

      pub publish_loop-panicked :
          validate e ≡ none
          → publish b (prepare r tenant (clock i) e) ≡ (b', panicked)
          → publish_loop r tenant clock i (e ∷ es) accepted shed b ≡ (b', aborted)
      unfolding publish_loop
      publish_loop-panicked v p = simp (publish_loop, v, p)

      pub publish_loop-invalid :
          (err : Error)
          → validate e ≡ some err
          → publish_loop r tenant clock i (e ∷ es) accepted shed b
            ≡ (b, bad_request (error_text err))
      unfolding publish_loop
      publish_loop-invalid err v = simp (publish_loop, v)

    pub publish_loop-IsRun :
        (i : ℕ) (es : List LogEntry) (accepted shed : ℕ) (b : Buffer)
        → IsRun es accepted shed b (publish_loop r tenant clock i es accepted shed b)
    unfolding publish_loop
    publish_loop-IsRun i [] accepted shed b =
        ([], sym (append-nil b.queue), nothing, counted 0 refl (grind arith))
    publish_loop-IsRun i (e ∷ es) accepted shed b = elim (Option-cases (validate e)) [
      | inl v ↦
          let x : LogEntry = prepare r tenant (clock i) e in
          elim (publish-cases b x) [
            | inl (o, p) ↦
                let b' : Buffer = record b {
                  queue = b.queue ++ x ∷ [];
                  accepted = u64 (b.accepted + 1);
                } in
                let (gained, q, sel, a) = publish_loop-IsRun (suc i) es (suc accepted) shed b' in
                subst (IsRun (e ∷ es) accepted shed b)
                  (sym (publish_loop-sent i accepted shed es b b' e v p))
                  (
                    x ∷ gained,
                    q ∙ append_assoc b.queue (x ∷ []) gained,
                    took e (clock i) v sel,
                    Answers-sent a,
                  )
            | inr (inl p) ↦
                let b' : Buffer = record b { shed = u64 (b.shed + 1) } in
                let (gained, q, sel, a) = publish_loop-IsRun (suc i) es accepted (suc shed) b' in
                subst (IsRun (e ∷ es) accepted shed b)
                  (sym (publish_loop-full i accepted shed es b b' e v p))
                  (gained, q, passed e sel, Answers-full a)
            | inr (inr p) ↦
                subst (IsRun (e ∷ es) accepted shed b)
                  (sym (publish_loop-panicked i accepted shed es b b e v p))
                  ([], sym (append-nil b.queue), nothing, cut refl)
          ]
      | inr (err, v) ↦
          subst (IsRun (e ∷ es) accepted shed b)
            (sym (publish_loop-invalid i accepted shed es b b e err v))
            ([], sym (append-nil b.queue), nothing, refused (error_text err) refl)
    ]
