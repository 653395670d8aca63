-- ===== src/Program/Invariant.antt =====
-- What holds in every state that the program reaches.
use sentinellog.Prelude.{
  ℕ, ◌≡◌, refl, sym, subst, inl, inr, true, Text, List, [], ◌∷◌, ◌++◌, foldl, some, none, All,
  All-append,
}
use sentinellog.Prelude.Strings.{Runtime}
use sentinellog.Prelude.Float.{Float}
use sentinellog.Model.{Time, LogEntry, validate}
use sentinellog.Store.{new_mem, write_batch}
use sentinellog.Writer.{Writer}
use sentinellog.Program.Stored.{Clean, Covers-Extends, store_of-Extends, store_of-IsValid}
use sentinellog.Writer.Machine.{System, offer, offered}
use sentinellog.Writer.Machine.Growth.{Grown, Step-Grown, Offered, offer-Offered}
use sentinellog.Buffer.{IsBounded}
use sentinellog.RateLimit.{Limiter}
use sentinellog.Worker.Anomaly.{Sampler}
use sentinellog.Writer.Machine.Capacity.{Step-IsBounded}
use sentinellog.Writer.Machine.Invariant.{Inv, Step-Inv}
use sentinellog.Redaction.{Redactor, redact}
use sentinellog.Ingest.{prepare}
use sentinellog.Ingest.Auth.{Authenticator, authenticate}
use sentinellog.Audit.Append.{IsIntact}
use sentinellog.Vector.Isolation.{IsPartitioned}
use sentinellog.Query.Handler.Trace.{handle-IsIntact}
use sentinellog.Worker.Embed.Checkpoint.{Covers, tick-Advanced}
use sentinellog.Worker.Embed.Index.{IsIndexed, IsIndexed-Extends, tick-IsIndexed}
use sentinellog.Worker.Embed.Vectors.{tick-IsPartitioned}
use sentinellog.Program.{Parts, State, store_of, query_handler}
use sentinellog.Program.Steps.{Move, Run}

All-suffix : {A : Type 0} (P : A → Type 0) (xs ys : List A) → All P (xs ++ ys) → All P ys
All-suffix P [] ys h = h
All-suffix P (x ∷ xs) ys h = All-suffix P xs ys h.1

module _ ⦃rt : Runtime⦄ ⦃fl : Float⦄ where
  -- An entry that was valid in a request with a known token, prepared for the token's tenant.
  pub record IsAdmitted (auth : Authenticator) (redactor : Redactor) (e : LogEntry) : Type 0 where
    pub token : Text
    pub raw : LogEntry
    pub now : Time
    pub known : authenticate auth token ≡ some e.tenant_id
    pub valid : validate raw ≡ none
    pub made : e ≡ prepare redactor e.tenant_id now raw
    pub clean : e.redacted ≡ true

  pub record Holds (n : ℕ) (auth : Authenticator) (redactor : Redactor) (s : State) : Type 0 where
    pub same_auth : s.auth ≡ auth
    pub same_redactor : s.redactor ≡ redactor
    pub machine : Inv n s.system
    pub admitted : All (IsAdmitted auth redactor) s.system.accepted
    pub queued : All Clean s.system.buffer.queue
    pub covers : Covers (store_of s.system) s.embed_worker
    pub bounded : IsBounded s.system.buffer
    pub intact : IsIntact s.audit
    pub partitioned : IsPartitioned s.vec
    pub indexed : IsIndexed (store_of s.system) s.embed_worker s.vec

  prepare-IsAdmitted :
      (auth : Authenticator) (redactor : Redactor) (token tenant : Text) (now : Time) (e : LogEntry)
      → authenticate auth token ≡ some tenant
      → validate e ≡ none
      → IsAdmitted auth redactor (prepare redactor tenant now e)
  unfolding prepare redact
  prepare-IsAdmitted auth redactor token tenant now e known valid = record {
    token = token;
    raw = e;
    now = now;
    known = known;
    valid = valid;
    made = refl;
    clean = refl;
  }

  module _ {n : ℕ} {auth : Authenticator} {redactor : Redactor} where
    Offered-Holds :
        (s : State) (x : LogEntry) (t : System)
        → Offered s.system x t
        → Inv n t
        → IsBounded t.buffer
        → IsAdmitted auth redactor x
        → Holds n auth redactor s
        → Holds n auth redactor (record s { system = t })
    unfolding store_of
    Offered-Holds s x t (same, noted) machine fits fresh v = record {
      same_auth = v.same_auth;
      same_redactor = v.same_redactor;
      machine = machine;
      admitted = elim noted [
        | inl (a, q) ↦
            subst (All (IsAdmitted auth redactor)) (sym a)
              (All-append _ s.system.accepted (x ∷ []) v.admitted (fresh, tt))
        | inr (a, q) ↦ subst (All (IsAdmitted auth redactor)) (sym a) v.admitted
      ];
      queued = elim noted [
        | inl (a, q) ↦
            subst (All Clean) (sym q)
              (All-append Clean s.system.buffer.queue (x ∷ []) v.queued (fresh.clean, tt))
        | inr (a, q) ↦ subst (All Clean) (sym q) v.queued
      ];
      covers =
          subst (λ (w : Writer). Covers (foldl write_batch new_mem w.flushed) s.embed_worker)
            (sym same) v.covers;
      bounded = fits;
      intact = v.intact;
      partitioned = v.partitioned;
      indexed =
          subst
            (λ (w : Writer). IsIndexed (foldl write_batch new_mem w.flushed) s.embed_worker s.vec)
            (sym same) v.indexed;
    }

    Grown-Holds :
        (s : State) (t : System)
        → Grown s.system t
        → Inv n t
        → IsBounded t.buffer
        → Holds n auth redactor s
        → Holds n auth redactor (record s { system = t })
    Grown-Holds s t g machine fits v = record {
      same_auth = v.same_auth;
      same_redactor = v.same_redactor;
      machine = machine;
      admitted = subst (All (IsAdmitted auth redactor)) (sym g.same_accepted) v.admitted;
      queued = All-suffix Clean g.taken _ (subst (All Clean) g.shortened v.queued);
      covers =
          Covers-Extends (store_of s.system) (store_of t) s.embed_worker
            (store_of-Extends s.system t g) v.covers;
      bounded = fits;
      intact = v.intact;
      partitioned = v.partitioned;
      indexed =
          IsIndexed-Extends (store_of s.system) (store_of t) s.embed_worker s.vec
            (store_of-Extends s.system t g) v.indexed;
    }

    -- The limiter and the sampler are no part of it.
    kept-Holds :
        (s : State) (limiter : Limiter) (sampler : Sampler)
        → Holds n auth redactor s
        → Holds n auth redactor (record s { limiter = limiter; sampler = sampler })
    kept-Holds s limiter sampler v = record {
      same_auth = v.same_auth;
      same_redactor = v.same_redactor;
      machine = v.machine;
      admitted = v.admitted;
      queued = v.queued;
      covers = v.covers;
      bounded = v.bounded;
      intact = v.intact;
      partitioned = v.partitioned;
      indexed = v.indexed;
    }

    module _ (parts : Parts) where
      -- Whatever a goroutine does next, the invariant is kept.
      Move-Holds :
          {s u : State} → Move parts s u → Holds n auth redactor s → Holds n auth redactor u
      unfolding query_handler
      Move-Holds {s} (Move.limited key now eq) v =
          subst (Holds n auth redactor) (sym eq) (kept-Holds s _ s.sampler v)
      Move-Holds {s} (Move.publishes token tenant now e known valid eq) v =
          let x : LogEntry = prepare s.redactor tenant now e in
          let fresh : IsAdmitted auth redactor x =
            subst (λ (r : Redactor). IsAdmitted auth r x) v.same_redactor
              (subst (λ (a : Authenticator). IsAdmitted a s.redactor x) v.same_auth
                (prepare-IsAdmitted s.auth s.redactor token tenant now e known valid)) in
          subst (Holds n auth redactor) (sym eq) (
            Offered-Holds s x (offer s.system x) (offer-Offered s.system x)
              (Step-Inv (offered x refl) v.machine) (Step-IsBounded (offered x refl) v.bounded)
              fresh v)
      Move-Holds {s} (Move.writes t step internal eq) v = subst (Holds n auth redactor) (sym eq) (
          Grown-Holds s t (Step-Grown step internal) (Step-Inv step v.machine)
            (Step-IsBounded step v.bounded) v)
      Move-Holds {s} (Move.swept now eq) v =
          subst (Holds n auth redactor) (sym eq) (kept-Holds s _ s.sampler v)
      Move-Holds {s} (Move.embeds now room eq) v = subst (Holds n auth redactor) (sym eq) (record {
        same_auth = v.same_auth;
        same_redactor = v.same_redactor;
        machine = v.machine;
        admitted = v.admitted;
        queued = v.queued;
        covers =
            (tick-Advanced parts.emb now (store_of s.system) s.embed_worker s.vec
              (store_of-IsValid s.system v.machine room) v.covers).covers;
        bounded = v.bounded;
        intact = v.intact;
        partitioned =
            tick-IsPartitioned parts.emb now (store_of s.system) s.embed_worker s.vec v.partitioned;
        indexed =
            tick-IsIndexed parts.emb now (store_of s.system) s.embed_worker s.vec
              (store_of-IsValid s.system v.machine room) v.indexed;
      })
      Move-Holds {s} (Move.samples order clock eq) v =
          subst (Holds n auth redactor) (sym eq) (kept-Holds s s.limiter _ v)
      Move-Holds {s} (Move.queries decoders now later e r room eq) v =
          subst (Holds n auth redactor) (sym eq) (record {
            same_auth = v.same_auth;
            same_redactor = v.same_redactor;
            machine = v.machine;
            admitted = v.admitted;
            queued = v.queued;
            covers = v.covers;
            bounded = v.bounded;
            intact = handle-IsIntact decoders now later (query_handler parts s) r e v.intact room;
            partitioned = v.partitioned;
            indexed = v.indexed;
          })

      pub Run-Holds :
          {s u : State} → Run parts s u → Holds n auth redactor s → Holds n auth redactor u
      Run-Holds Run.here v = v
      Run-Holds (Run.next before move) v = Move-Holds move (Run-Holds before v)
