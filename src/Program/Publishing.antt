-- ===== src/Program/Publishing.antt =====
-- The loop of the ingest handler as publishes, between which the other goroutines may move.
use sentinellog.Prelude.{
  ℕ, suc, ◌+◌, ◌≡◌, refl, sym, ap, subst, ◌∙◌, inl, inr, Option-cases, Text, List, [], ◌∷◌, ◌++◌,
  none, some, length, drop, append-nil, append_assoc, text_eq, u64,
}
use sentinellog.Prelude.Strings.{Runtime}
use sentinellog.Prelude.Float.{Float}
use sentinellog.Model.{Time, LogEntry, validate}
use sentinellog.Buffer.{Buffer, Outcome, publish, publish-cases}
use sentinellog.Writer.Machine.{System, offer-eq, note_accepted}
use sentinellog.Ingest.{prepare, publish_loop}
use sentinellog.Ingest.Auth.{authenticate}
use sentinellog.Ingest.Gains.{
  publish_loop-sent, publish_loop-full, publish_loop-panicked, publish_loop-invalid,
}
use sentinellog.Program.{Parts, State}
use sentinellog.Program.Steps.{Move, Run}

pub drop-append : {A : Type 0} (xs ys : List A) → drop (length xs) (xs ++ ys) ≡ ys
drop-append [] ys = refl
drop-append (x ∷ xs) ys = drop-append xs ys

module _ ⦃rt : Runtime⦄ ⦃fl : Float⦄ (parts : Parts) where
  pub Run-trans : {s t u : State} → Run parts s t → Run parts t u → Run parts s u
  Run-trans r Run.here = r
  Run-trans r (Run.next q move) = Run.next (Run-trans r q) move

  -- The state with another buffer and more accepted entries.
  abbrev pub with_buffer : State → Buffer → List LogEntry → State
  with_buffer s b gained = record s {
    system = record s.system { buffer = b; accepted = s.system.accepted ++ gained };
  }

  -- The program gets from `s` to the buffer `b`, and what its queue gains was accepted.
  pub IsGained : State → Buffer → Type 0
  IsGained s b =
      (gained : List LogEntry) × Run parts s (with_buffer s b gained)
      × (b.queue ≡ s.system.buffer.queue ++ gained)

  same-with_buffer : (s : State) → with_buffer s s.system.buffer [] ≡ s
  same-with_buffer s =
      ap (λ a. record s { system = record s.system { accepted = a } })
        (append-nil s.system.accepted)

  pub stay : (s : State) → IsGained s s.system.buffer
  unfolding IsGained
  stay s = (
    [],
    subst (Run parts s) (sym (same-with_buffer s)) Run.here,
    sym (append-nil s.system.buffer.queue),
  )

  -- A move to the buffer `b`, and then to `b'`.
  IsGained-after :
      (s : State) (b b' : Buffer) (first : List LogEntry)
      → Move parts s (with_buffer s b first)
      → b.queue ≡ s.system.buffer.queue ++ first
      → IsGained (with_buffer s b first) b'
      → IsGained s b'
  unfolding IsGained
  IsGained-after s b b' first move q (gained, run, q') = (
    first ++ gained,
    subst
        (λ (a : List LogEntry).
          Run parts s (record s { system = record s.system { buffer = b'; accepted = a } }))
        (append_assoc s.system.accepted first gained) (Run-trans (Run.next Run.here move) run),
    q' ∙ ap (λ xs. xs ++ gained) q ∙ append_assoc s.system.buffer.queue first gained,
  )

  module _ (token tenant : Text) (clock : ℕ → Time) where
    published-Move :
        (s : State) (i : ℕ) (e : LogEntry) {b : Buffer} {outcome : Outcome}
        → authenticate s.auth token ≡ some tenant
        → validate e ≡ none
        → publish s.system.buffer (prepare s.redactor tenant (clock i) e) ≡ (b, outcome)
        → Move parts s (record s {
          system = record s.system {
            buffer = b;
            accepted =
                note_accepted s.system.accepted (prepare s.redactor tenant (clock i) e) outcome;
          };
        })
    published-Move s i e known v p = Move.publishes token tenant (clock i) e known v (
        ap (λ (t : System). record s { system = t })
          (sym (offer-eq s.system (prepare s.redactor tenant (clock i) e) p)))

    pub loop-IsGained :
        (i : ℕ) (es : List LogEntry) (accepted shed : ℕ) (s : State)
        → authenticate s.auth token ≡ some tenant
        → IsGained s (publish_loop s.redactor tenant clock i es accepted shed s.system.buffer).0
    unfolding note_accepted publish_loop
    loop-IsGained i [] accepted shed s known = stay s
    loop-IsGained i (e ∷ es) accepted shed s known = elim (Option-cases (validate e)) [
      | inr (err, v) ↦
          subst (λ (p : Buffer). IsGained s p)
            (sym (
              ap (λ p. p.0)
                (publish_loop-invalid s.redactor tenant clock i accepted shed es s.system.buffer
                  s.system.buffer e err v)))
            (stay s)
      | inl v ↦
          let b : Buffer = s.system.buffer in
          let x : LogEntry = prepare s.redactor tenant (clock i) e in
          elim (publish-cases b x) [
            | inl (o, p) ↦
                let b' : Buffer = record b {
                  queue = b.queue ++ x ∷ [];
                  accepted = u64 (b.accepted + 1);
                } in
                subst (λ (p : Buffer). IsGained s p)
                  (sym (
                    ap (λ p. p.0)
                      (publish_loop-sent s.redactor tenant clock i accepted shed es b b' e v p)))
                  (IsGained-after s b' _ (x ∷ []) (published-Move s i e known v p) refl (
                    loop-IsGained (suc i) es (suc accepted) shed (with_buffer s b' (x ∷ [])) known))
            | inr (inl p) ↦
                let b' : Buffer = record b { shed = u64 (b.shed + 1) } in
                subst (λ (p : Buffer). IsGained s p)
                  (sym (
                    ap (λ p. p.0)
                      (publish_loop-full s.redactor tenant clock i accepted shed es b b' e v p)))
                  (IsGained-after s b' _ []
                    (subst
                      (λ (a : List LogEntry).
                        Move parts s
                          (record s { system = record s.system { buffer = b'; accepted = a } }))
                      (sym (append-nil s.system.accepted)) (published-Move s i e known v p))
                    (sym (append-nil b.queue))
                    (loop-IsGained (suc i) es accepted (suc shed) (with_buffer s b' []) known))
            | inr (inr p) ↦
                subst (λ (p : Buffer). IsGained s p)
                  (sym (
                    ap (λ p. p.0)
                      (publish_loop-panicked s.redactor tenant clock i accepted shed es b b e v p)))
                  (stay s)
          ]
    ]

  pub gained-Run :
      (s : State) (b : Buffer)
      → IsGained s b
      → Run parts s (record s {
        system = record s.system {
          buffer = b;
          accepted = s.system.accepted ++ drop (length s.system.buffer.queue) b.queue;
        };
      })
  unfolding IsGained
  gained-Run s b (gained, run, q) =
      subst (λ (xs : List LogEntry). Run parts s (with_buffer s b xs))
        (sym (
          ap (λ xs. drop (length s.system.buffer.queue) xs) q
          ∙ drop-append s.system.buffer.queue gained))
        run
