-- ===== src/Program/Delivery.antt =====
-- From a request to the store and to the answers of the query endpoints.
use mathlib.Core.List.{flatten}
use sentinellog.Worker.Embed.{new_embed}
use sentinellog.Worker.Embed.Index.{new-IsIndexed}
use sentinellog.Prelude.{
  ℕ, zero, suc, ◌≡◌, refl, sym, ap, subst, ◌∙◌, ℤ, pos, negsuc, List, [], ◌∷◌, ◌++◌, map, some,
  filter_of_All, All, All-zip, All-imp, append_assoc, arith,
}
use sentinellog.Prelude.Strings.{Runtime}
use sentinellog.Prelude.Float.{Float}
use sentinellog.Model.{LogEntry, StoredEntry}
use sentinellog.Store.{Query, new_mem}
use sentinellog.Store.Search.{search-All, search-Satisfies, Satisfies}
use sentinellog.Store.Writes.{stored_entry}
use sentinellog.Writer.Batches.{is_redacted}
use sentinellog.Redaction.{Redactor}
use sentinellog.Redaction.Pattern.{Regexp}
use sentinellog.Ingest.Auth.{Authenticator}
use sentinellog.Audit.Append.{new-IsIntact}
use sentinellog.Vector.{MemVectorStore}
use sentinellog.Vector.Isolation.{new_mem-IsPartitioned, IsPartitioned}
use sentinellog.Kb.{KbStore}
use sentinellog.Kb.Documents.{add-IsPartitioned}
use sentinellog.Embed.{Embedder}
use sentinellog.Config.{Config}
use sentinellog.Program.{Parts, State, store_of, start, sized, fresh, seed_kb}
use sentinellog.Program.Stored.{store_of-contents, Clean}
use sentinellog.Program.Steps.{Run}
use sentinellog.Program.Invariant.{IsAdmitted, Holds, Run-Holds}

module _ ⦃rt : Runtime⦄ ⦃fl : Float⦄ where
  seed_kb-IsPartitioned :
      (emb : Embedder) (kb : KbStore) (vec : MemVectorStore)
      → IsPartitioned vec
      → IsPartitioned (seed_kb emb kb vec).1
  unfolding seed_kb
  seed_kb-IsPartitioned emb kb vec v =
      add-IsPartitioned emb _ _ _ _ _ _ _ (add-IsPartitioned emb kb vec _ _ _ _ _ v)

  module _ (parts : Parts) (re : Regexp) (cfg : Config) where
    fresh-Holds :
        (buffer_size n : ℕ)
        → let s = fresh parts re cfg buffer_size (suc n) in Holds n s.auth s.redactor s
    unfolding fresh store_of new_mem new_embed sentinellog.Buffer.new flatten
    fresh-Holds buffer_size n = record {
      same_auth = refl;
      same_redactor = refl;
      machine = record {
        writer = record { sized = refl; pending = omega arith; pending_clean = tt; batches = tt };
        conserved = refl;
        stopped_idle = λ h. refl;
        stopped_why = λ h. absurd (ground (arith, h));
        draining_why = λ h. absurd (ground (arith, h));
      };
      admitted = tt;
      queued = tt;
      covers = record { inside = omega arith; done = tt };
      bounded = omega arith;
      intact = new-IsIntact;
      partitioned =
          seed_kb-IsPartitioned parts.emb sentinellog.Kb.new sentinellog.Vector.new_mem
            new_mem-IsPartitioned;
      indexed = new-IsIndexed _ (pos 200) _;
    }

    sized-fresh :
        (b z i : ℤ) {s : State} {n : ℕ}
        → sized parts re cfg b z i ≡ some s
        → z ≡ pos (suc n)
        → (size : ℕ) × (fresh parts re cfg size (suc n) ≡ s)
    unfolding sized
    sized-fresh (pos (suc b)) (pos z) (pos (suc k)) e size = (suc b, ground (arith, e, size))
    sized-fresh (pos (suc b)) (pos z) (pos zero) e size = absurd (ground (arith, e))
    sized-fresh (pos (suc b)) (pos z) (negsuc k) e size = absurd (ground (arith, e))
    sized-fresh (pos (suc b)) (negsuc z) i e size = absurd (ground (arith, e))
    sized-fresh (pos zero) z i e size = absurd (ground (arith, e))
    sized-fresh (negsuc b) z i e size = absurd (ground (arith, e))

    -- The state that `main` sets up meets the invariant.
    pub start-Holds :
        {s : State} {n : ℕ}
        → start parts re cfg ≡ some s
        → cfg.batch_size ≡ pos (suc n)
        → Holds n s.auth s.redactor s
    unfolding start
    start-Holds {n} started size =
        let (b, e) = sized-fresh cfg.buffer_size cfg.batch_size cfg.batch_interval started size in
        subst (λ (s : State). Holds n s.auth s.redactor s) e (fresh-Holds b n)

    -- The invariant of the program: after any moves of its goroutines, in any order, from the state
    -- that `main` sets up with positive buffer and batch sizes, the tokens and the redactor are the first ones;
    -- the writer has lost and repeated nothing; the queue is within its capacity; every accepted
    -- entry is admitted and every queued one redacted; what the embedding worker has passed is done;
    -- the audit log verifies; every vector stands with its own tenant; and for each content
    -- that the embedding worker has marked the vector store has the reference of an entry of the log
    -- store with that content, unless the entry names no tenant.
    pub start-Run-Holds :
        {s u : State} {n : ℕ}
        → start parts re cfg ≡ some s
        → cfg.batch_size ≡ pos (suc n)
        → Run parts s u
        → Holds n s.auth s.redactor u
    start-Run-Holds started size run = Run-Holds parts run (start-Holds started size)

  stored-IsAdmitted :
      (auth : Authenticator) (redactor : Redactor) (es : List StoredEntry)
      (rest accepted : List LogEntry)
      → accepted ≡ map stored_entry es ++ rest
      → All (IsAdmitted auth redactor) accepted
      → All (λ (e : StoredEntry). IsAdmitted auth redactor e.entry) es
  stored-IsAdmitted auth redactor [] rest accepted e h = tt
  stored-IsAdmitted auth redactor (x ∷ es) rest accepted e h =
      let h' = subst (All (IsAdmitted auth redactor)) e h in
      (h'.0, stored-IsAdmitted auth redactor es rest (map stored_entry es ++ rest) refl h'.1)

  IsAdmitted-Clean :
      (auth : Authenticator) (redactor : Redactor) (es : List LogEntry)
      → All (IsAdmitted auth redactor) es
      → All Clean es
  IsAdmitted-Clean auth redactor [] h = tt
  IsAdmitted-Clean auth redactor (x ∷ es) h = (h.0.clean, IsAdmitted-Clean auth redactor es h.1)

  module _ (parts : Parts) where
    -- Exact delivery: in every state that the program reaches from one that meets the invariant, the
    -- entries whose publish succeeded are, in their order and each once, the entries of the store,
    -- then the writer's pending batch, then the queue of the buffer; and each of them is a valid entry
    -- of a request with a known token, redacted and marked with that token's tenant.
    pub accepted_delivered :
        {n : ℕ} {auth : Authenticator} {redactor : Redactor} {s u : State}
        → Holds n auth redactor s
        → Run parts s u
        → (u.system.accepted
            ≡ map stored_entry (store_of u.system).entries
              ++ (u.system.writer.batch ++ u.system.buffer.queue))
          × All (IsAdmitted auth redactor) u.system.accepted
    accepted_delivered {auth} {redactor} {u} v run =
        let w = Run-Holds parts run v in
        (
          sym (
                filter_of_All is_redacted u.system.accepted
                  (IsAdmitted-Clean auth redactor u.system.accepted w.admitted))
              ∙ w.machine.conserved
              ∙ ap (λ q. (flatten u.system.writer.flushed ++ u.system.writer.batch) ++ q)
                  (filter_of_All is_redacted u.system.buffer.queue w.queued)
              ∙ append_assoc (flatten u.system.writer.flushed) u.system.writer.batch
                  u.system.buffer.queue
              ∙ ap (λ es. es ++ (u.system.writer.batch ++ u.system.buffer.queue))
                  (sym (store_of-contents u.system w.machine)),
          w.admitted,
        )

    -- What a structured search can return, in every state that the program reaches from one that meets
    -- the invariant: entries of the asking tenant alone, each of which came with a token of that
    -- tenant and was redacted before it was buffered.
    pub search-IsAdmitted :
        {n : ℕ} {auth : Authenticator} {redactor : Redactor} {s u : State}
        → Holds n auth redactor s
        → Run parts s u
        → (q : Query)
        → All
            (λ (e : StoredEntry). IsAdmitted auth redactor e.entry × (e.tenant_id ≡ q.tenant_id))
            (sentinellog.Store.search (store_of u.system) q)
    search-IsAdmitted {auth} {redactor} {u} v run q =
        let (delivered, admitted) = accepted_delivered v run in
        let found = sentinellog.Store.search (store_of u.system) q in
        let known : All (λ (e : StoredEntry). IsAdmitted auth redactor e.entry) found =
          search-All _ (store_of u.system) q
            (stored-IsAdmitted auth redactor (store_of u.system).entries _ _ delivered admitted) in
        All-imp (λ e h. (h.0, h.1.same_tenant)) found
          (All-zip _ (λ e. Satisfies e q) found known (search-Satisfies (store_of u.system) q))
