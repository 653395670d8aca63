-- ===== src/Program/Acknowledged.antt =====
-- What an answer 202 of the ingest endpoint promises about every later state.
use sentinellog.Prelude.{
  ℕ, ◌+◌, ◌≡◌, refl, sym, ap, subst, ◌∙◌, inl, inr, Text, List, [], ◌∷◌, ◌++◌, map, length, some,
  none, append-nil, append_assoc, list_laws, arith,
}
use sentinellog.Prelude.Strings.{Runtime}
use sentinellog.Prelude.Float.{Float}
use sentinellog.Model.{LogEntry, Time, validate}
use sentinellog.Redaction.{Redactor}
use sentinellog.Buffer.{Buffer, Outcome, publish}
use sentinellog.Store.Writes.{stored_entry}
use sentinellog.Writer.Machine.{System, offer, offer-eq, note_accepted}
use sentinellog.Writer.Machine.Growth.{Step-Grown, Offered, offer-Offered}
use sentinellog.RateLimit.{allow}
use sentinellog.Ingest.{Json, Request, counts, bad_request, prepare, decode_entries, bearer_token}
use sentinellog.Ingest.Auth.{Authenticator, authenticate}
use sentinellog.Ingest.Gains.{Published, nothing, took, passed}
use sentinellog.Ingest.Serve.{reply-counts}
use sentinellog.Program.{Parts, State, store_of}
use sentinellog.Program.Steps.{Move, Run, published}
use sentinellog.Program.Invariant.{Holds, Run-Holds}
use sentinellog.Program.Delivery.{accepted_delivered}
use sentinellog.Program.Publishing.{Run-trans}
use sentinellog.Program.Interleaved.{
  Loop, waits, ends, refuses, sends, sheds, panics, Serves, not_post, unknown, limited, malformed,
  loops,
}

-- The list `xs` is what is left of `ys` when some of its elements are dropped.
pub data Sublist {A : Type 0} : List A → List A → Type 0 where
  done : {ys : List A} → Sublist [] ys
  keep : {x : A} {xs ys : List A} → Sublist xs ys → Sublist (x ∷ xs) (x ∷ ys)
  skip : {y : A} {xs ys : List A} → Sublist xs ys → Sublist xs (y ∷ ys)

Sublist-append_right :
    {A : Type 0} (zs : List A) {xs ys : List A} → Sublist xs ys → Sublist xs (zs ++ ys)
Sublist-append_right [] s = s
Sublist-append_right (z ∷ zs) s = Sublist.skip (Sublist-append_right zs s)

Sublist-append_left :
    {A : Type 0} (zs : List A) {xs ys : List A} → Sublist xs ys → Sublist xs (ys ++ zs)
Sublist-append_left zs Sublist.done = Sublist.done
Sublist-append_left zs (Sublist.keep s) = Sublist.keep (Sublist-append_left zs s)
Sublist-append_left zs (Sublist.skip s) = Sublist.skip (Sublist-append_left zs s)

module _ ⦃fl : Float⦄ where
  -- The entries that are in the store, in the writer's pending batch or in the queue.
  abbrev pub held : State → List LogEntry
  held u =
      map stored_entry (store_of u.system).entries
      ++ (u.system.writer.batch ++ u.system.buffer.queue)

module _ ⦃rt : Runtime⦄ ⦃fl : Float⦄ (parts : Parts) where
  -- The list `ys` starts with `xs`.
  abbrev Later : List LogEntry → List LogEntry → Type 0
  Later xs ys = (more : List LogEntry) × (ys ≡ xs ++ more)

  same-Later : (xs : List LogEntry) → Later xs xs
  same-Later xs = ([], sym (append-nil xs))

  Later-trans : (xs ys zs : List LogEntry) → Later xs ys → Later ys zs → Later xs zs
  Later-trans xs ys zs (a, p) (b, q) = (a ++ b, simp (q, p, list_laws))

  Offered-Later : (a b : System) (x : LogEntry) → Offered a x b → Later a.accepted b.accepted
  Offered-Later a b x (w, inl (p, q)) = (x ∷ [], p)
  Offered-Later a b x (w, inr (p, q)) = subst (Later a.accepted) (sym p) (same-Later a.accepted)

  abbrev accepted_of : State → List LogEntry
  accepted_of s = s.system.accepted

  moved-Later :
      (s : State) {u : State} (t : State)
      → u ≡ t
      → Later (accepted_of s) (accepted_of t)
      → Later (accepted_of s) (accepted_of u)
  moved-Later s t eq h = subst (λ (u : State). Later (accepted_of s) (accepted_of u)) (sym eq) h

  Move-Later : {s u : State} → Move parts s u → Later (accepted_of s) (accepted_of u)
  Move-Later {s} (Move.limited key now eq) = moved-Later s _ eq (same-Later (accepted_of s))
  Move-Later {s} (Move.publishes token tenant now e known valid eq) = moved-Later s _ eq (
      Offered-Later s.system (offer s.system (prepare s.redactor tenant now e))
        (prepare s.redactor tenant now e)
        (offer-Offered s.system (prepare s.redactor tenant now e)))
  Move-Later {s} (Move.writes t step internal eq) = moved-Later s _ eq (
      subst (Later (accepted_of s)) (sym (Step-Grown step internal).same_accepted)
        (same-Later (accepted_of s)))
  Move-Later {s} (Move.swept now eq) = moved-Later s _ eq (same-Later (accepted_of s))
  Move-Later {s} (Move.embeds now room eq) = moved-Later s _ eq (same-Later (accepted_of s))
  Move-Later {s} (Move.samples order clock eq) = moved-Later s _ eq (same-Later (accepted_of s))
  Move-Later {s} (Move.queries decoders now later e r room eq) =
      moved-Later s _ eq (same-Later (accepted_of s))

  Run-Later : {s u : State} → Run parts s u → Later (accepted_of s) (accepted_of u)
  Run-Later {s} Run.here = same-Later (accepted_of s)
  Run-Later {s} {u} (Run.next {t} before move) =
      Later-trans (accepted_of s) (accepted_of t) (accepted_of u) (Run-Later before)
        (Move-Later move)

  published-accepted :
      (s : State) (tenant : Text) (now : Time) (e : LogEntry) {b : Buffer} {outcome : Outcome}
      → publish s.system.buffer (prepare s.redactor tenant now e) ≡ (b, outcome)
      → accepted_of (published parts s tenant now e)
        ≡ note_accepted s.system.accepted (prepare s.redactor tenant now e) outcome
  published-accepted s tenant now e p =
      ap (λ (t : System). t.accepted) (offer-eq s.system (prepare s.redactor tenant now e) p)

  -- The invariant for the tokens and the redactor that the state has.
  own-Holds :
      {n : ℕ} {auth : Authenticator} {redactor : Redactor} (s : State)
      → Holds n auth redactor s
      → Holds n s.auth s.redactor s
  own-Holds {n} {auth} s v =
      subst (λ a. Holds n a s.redactor s) (sym v.same_auth)
        (subst (λ r. Holds n auth r s) (sym v.same_redactor) v)

  module _ (n : ℕ) (auth : Authenticator) (redactor : Redactor) (token tenant : Text)
      (known : authenticate auth token ≡ some tenant) (clock : ℕ → Time) (u : State)
      (total rest : ℕ) where
    -- What a loop that answers 202 with the counts `total` and `rest` does from the state `s` on, where
    -- the counts are `accepted` and `shed`: the state `u` is reached, with `more` accepted entries, and
    -- those that the loop has published are among them.
    record Done (es : List LogEntry) (accepted shed : ℕ) (s : State) : Type 0 where
      gained : List LogEntry
      more : List LogEntry
      run : Run parts s u
      later : accepted_of u ≡ accepted_of s ++ more
      inside : Sublist gained more
      selected : Published redactor tenant es gained
      counted : accepted + length gained ≡ total
      all : total + rest ≡ (accepted + shed) + length es

    published-Move :
        (s : State) (now : Time) (e : LogEntry)
        → Holds n auth redactor s
        → validate e ≡ none
        → Move parts s (published parts s tenant now e)
    published-Move s now e v valid =
        Move.publishes token tenant now e (ap (λ a. authenticate a token) v.same_auth ∙ known) valid
          refl

    took_one :
        (s : State) (now : Time) (e : LogEntry) {es gs : List LogEntry}
        → s.redactor ≡ redactor
        → validate e ≡ none
        → Published redactor tenant es gs
        → Published redactor tenant (e ∷ es) (prepare s.redactor tenant now e ∷ gs)
    took_one s now e {es} {gs} same valid sel =
        subst (λ x. Published redactor tenant (e ∷ es) (x ∷ gs))
          (ap (λ r. prepare r tenant now e) (sym same)) (took e now valid sel)

    Loop-Done :
        {i accepted shed : ℕ} {es : List LogEntry} {s : State}
        → Loop parts tenant clock u (counts total rest) i es accepted shed s
        → Holds n auth redactor s
        → Done es accepted shed s
    unfolding note_accepted bad_request
    Loop-Done {s = s} (waits {t} r l) v =
        let d = Loop-Done l (Run-Holds parts r v) in
        let (xs, e) = Run-Later r in
        record {
          gained = d.gained;
          more = xs ++ d.more;
          run = Run-trans parts r d.run;
          later = simp (d.later, e, list_laws);
          inside = Sublist-append_right xs d.inside;
          selected = d.selected;
          counted = d.counted;
          all = d.all;
        }
    Loop-Done {accepted = accepted} {shed} {s = s} (ends same answer) v =
        let (x, y, _) = reply-counts (sym answer) in
        record {
          gained = [];
          more = [];
          run = subst (Run parts s) (sym same) Run.here;
          later = ap accepted_of same ∙ sym (append-nil (accepted_of s));
          inside = Sublist.done;
          selected = nothing;
          counted = omega (arith, x);
          all = omega (arith, x, y);
        }
    Loop-Done (refuses e err invalid same answer) v = absurd (ground (arith, answer))
    Loop-Done (panics e b valid p same answer) v = absurd (ground (arith, answer))
    Loop-Done {i = i} {accepted} {shed} {s = s} (sends {es} e b valid p l) v =
        let move = published-Move s (clock i) e v valid in
        let d = Loop-Done l (Run-Holds parts (Run.next Run.here move) v) in
        let x : LogEntry = prepare s.redactor tenant (clock i) e in
        record {
          gained = x ∷ d.gained;
          more = x ∷ d.more;
          run = Run-trans parts (Run.next Run.here move) d.run;
          later =
              d.later
              ∙ ap (λ xs. xs ++ d.more) (published-accepted s tenant (clock i) e p)
              ∙ append_assoc (accepted_of s) (x ∷ []) d.more;
          inside = Sublist.keep d.inside;
          selected = took_one s (clock i) e v.same_redactor valid d.selected;
          counted = omega (arith, d.counted);
          all = omega (arith, d.all);
        }
    Loop-Done {i = i} {accepted} {shed} {s = s} (sheds {es} e b valid p l) v =
        let move = published-Move s (clock i) e v valid in
        let d = Loop-Done l (Run-Holds parts (Run.next Run.here move) v) in
        record {
          gained = d.gained;
          more = d.more;
          run = Run-trans parts (Run.next Run.here move) d.run;
          later = d.later ∙ ap (λ xs. xs ++ d.more) (published-accepted s tenant (clock i) e p);
          inside = d.inside;
          selected = passed e d.selected;
          counted = d.counted;
          all = omega (arith, d.all);
        }

  -- An answer 202 is a promise. Let a request be served from a state that meets the invariant, with
  -- any moves of the other goroutines between its publishes, other requests among them. If the answer
  -- is 202, its token is known and its body decodes; as many entries as it counts accepted are valid
  -- ones of the body, in their order and prepared for the token's tenant, and with those counted shed
  -- they are all the entries of the body. In every state that the program reaches afterwards, the
  -- entries of the store, of the pending batch and of the queue are those that were accepted before
  -- the request and then others, among which the request's are found, each once and in their order.
  pub acknowledged :
      {n : ℕ} {auth : Authenticator} {redactor : Redactor} {s t u : State}
      → Holds n auth redactor s
      → (json : Json) (now : ℕ) (clock : ℕ → Time) (r : Request) (accepted shed : ℕ)
      → Serves parts json now clock r s t (counts accepted shed)
      → Run parts t u
      → (tenant : Text) × (entries gained more : List LogEntry) × (authenticate s.auth
            (bearer_token r)
          ≡ some tenant)
        × (decode_entries json s.max_body r.body ≡ inr entries)
        × Published s.redactor tenant entries gained
        × (length gained ≡ accepted)
        × (accepted + shed ≡ length entries)
        × (held u ≡ s.system.accepted ++ more)
        × Sublist gained more
  unfolding bad_request
  acknowledged v json now clock r accepted shed (not_post p same answer) run =
      absurd (ground (arith, answer))
  acknowledged v json now clock r accepted shed (unknown p a same answer) run =
      absurd (ground (arith, answer))
  acknowledged v json now clock r accepted shed (limited tenant p a no_room same answer) run =
      absurd (ground (arith, answer))
  acknowledged v json now clock r accepted shed (malformed tenant text p a room d same answer) run =
      absurd (ground (arith, answer))
  acknowledged {n} {auth} {redactor} {s} {t} {u} v json now clock r accepted shed
        (loops tenant entries p a room d l) run =
      let first : Run parts s (record s { limiter = (allow s.limiter tenant now).0 }) =
        Run.next Run.here (Move.limited tenant now refl) in
      let done_ =
        Loop-Done n s.auth s.redactor (bearer_token r) tenant a clock t accepted shed l
          (Run-Holds parts first (own-Holds s v)) in
      let whole = Run-trans parts (Run-trans parts first done_.run) run in
      let (delivered, admitted) = accepted_delivered parts v whole in
      let (xs, e) = Run-Later run in
      (
        tenant,
        entries,
        done_.gained,
        done_.more ++ xs,
        a,
        d,
        done_.selected,
        omega (arith, done_.counted),
        omega (arith, done_.all),
        sym delivered ∙ simp (e, done_.later, list_laws),
        Sublist-append_left xs done_.inside,
      )
