-- ===== src/Ingest/Serve.antt =====
-- What a request does, from the method to the answer.
use sentinellog.Prelude.{
  ℕ, ◌+◌, ◌≡◌, ◌≢◌, ◌⊎◌, inl, inr, refl, sym, ap, subst, ◌∙◌, Bool, true, false, Bool-cases,
  Option-cases, Text, codes, List, [], ◌∷◌, ◌++◌, some, All, All-imp, length, arith, append-nil,
  text_eq, ◌==◌,
}
use sentinellog.Prelude.Strings.{Runtime}
use sentinellog.Prelude.Float.{Float}
use sentinellog.Model.{LogEntry, Time}
use sentinellog.Buffer.{Buffer}
use sentinellog.RateLimit.{allow}
use sentinellog.Redaction.{Redactor}
use sentinellog.Ingest.Auth.{authenticate}
use sentinellog.Ingest.Gains.{
  Published, Published-IsClean, IsRun, counted, refused, cut, publish_loop-IsRun,
}
use sentinellog.Ingest.{
  Json, Request, Response, failure, counts, aborted, reply, bad_request, bearer_token,
  decode_entries, publish_loop, Handler, take_body, serve_tenant, serve_http,
}

pub reply-counts :
    {a s accepted shed : ℕ}
    → reply a s ≡ counts accepted shed
    → (a ≡ accepted) × (s ≡ shed) × (accepted ≡ 0 → shed ≡ 0)
unfolding reply
reply-counts {a} {s} h = ground (arith)

module _ ⦃rt : Runtime⦄ ⦃fl : Float⦄ (json : Json) (now : ℕ) (clock : ℕ → Time) where
  -- The ways a request ends: turned away before the loop, or the loop ran.
  data Served (h : Handler) (r : Request) (out : Handler × Response) : Type 0 where
    turned_away :
        (status : ℕ) (retry : Bool) (text : Text)
        → out.0.buffer ≡ h.buffer
        → out.1 ≡ failure status retry text
        → Served h r out
    ran :
        (tenant : Text) (entries : List LogEntry)
        → authenticate h.auth (bearer_token r) ≡ some tenant
        → decode_entries json h.max_body r.body ≡ inr entries
        → IsRun h.redactor tenant entries 0 0 h.buffer (out.0.buffer, out.1)
        → Served h r out

  module _ (h : Handler) (r : Request) (tenant : Text) where
    take_body-Served :
        (limited : Handler) (body : Text ⊎ List LogEntry)
        → limited.buffer ≡ h.buffer
        → limited.redactor ≡ h.redactor
        → authenticate h.auth (bearer_token r) ≡ some tenant
        → decode_entries json h.max_body r.body ≡ body
        → Served h r (take_body limited tenant clock body)
    unfolding take_body
    take_body-Served limited (inl text) same _ a d =
        turned_away 400 false (codes "bad request: " ++ text) same refl
    take_body-Served limited (inr entries) same same' a d = ran tenant entries a d (
        subst
          (λ (x : Redactor).
            IsRun x tenant entries 0 0 h.buffer
              (publish_loop limited.redactor tenant clock 0 entries 0 0 limited.buffer))
          same'
          (subst
            (λ (x : Buffer).
              IsRun limited.redactor tenant entries 0 0 x
                (publish_loop limited.redactor tenant clock 0 entries 0 0 limited.buffer))
            same (publish_loop-IsRun limited.redactor tenant clock 0 entries 0 0 limited.buffer)))

    serve_tenant-Served :
        authenticate h.auth (bearer_token r) ≡ some tenant
        → Served h r (serve_tenant json now clock h r tenant)
    unfolding serve_tenant
    serve_tenant-Served a =
        let limited : Handler = record h { limiter = (allow h.limiter tenant now).0 } in
        elim (Bool-cases (allow h.limiter tenant now).1) [
          | inl e ↦ simp (serve_tenant, e) (take_body-Served limited _ refl refl a refl)
          | inr e ↦
              simp (serve_tenant, e) (turned_away 429 true (codes "rate limit exceeded") refl refl)
        ]

  serve-Served : (h : Handler) (r : Request) → Served h r (serve_http json now clock h r)
  unfolding serve_http
  serve-Served h r = elim (Bool-cases (r.method == codes "POST")) [
    | inl post ↦ elim (Option-cases (authenticate h.auth (bearer_token r))) [
      | inl a ↦ simp (serve_http, post, a) (turned_away 401 false (codes "unauthorized") refl refl)
      | inr (tenant, a) ↦ simp (serve_http, post, a) (serve_tenant-Served h r tenant a)
    ]
    | inr other ↦
        simp (serve_http, other) (turned_away 405 false (codes "method not allowed") refl refl)
  ]

  -- Whatever a request does, the buffer only gains entries at its end, and each of them is marked
  -- as redacted and carries the tenant that the request's token authenticates.
  pub serve_clean :
      (h : Handler) (r : Request)
      → (gained : List LogEntry) × ((serve_http json now clock h r).0.buffer.queue
          ≡ h.buffer.queue ++ gained)
        × All
            (λ e. (authenticate h.auth (bearer_token r) ≡ some e.tenant_id) × (e.redacted ≡ true))
            gained
  serve_clean h r = elim (serve-Served h r) [
    | turned_away status retry text same _ ↦
        ([], ap (λ (b : Buffer). b.queue) same ∙ sym (append-nil h.buffer.queue), tt)
    | ran tenant entries a d (gained, q, sel, _) ↦ (
      gained,
      q,
      All-imp (λ e c. (a ∙ ap some (sym c.0), c.1)) gained
          (Published-IsClean h.redactor tenant sel),
    )
  ]

  counts-failure :
      {a s status : ℕ} {retry : Bool} {text : Text} → counts a s ≢ failure status retry text
  counts-failure e = ground arith

  counts-aborted : {a s : ℕ} → counts a s ≢ aborted
  counts-aborted e = ground arith

  failure-aborted : {status : ℕ} {retry : Bool} {text : Text} → failure status retry text ≢ aborted
  failure-aborted e = ground arith

  failure_inj :
      {status status' : ℕ} {retry retry' : Bool} {text text' : Text}
      → failure status retry text ≡ failure status' retry' text'
      → status ≡ status'
  failure_inj e = ground arith

  reply-failure :
      (a s : ℕ) {status : ℕ} {retry : Bool} {text : Text}
      → reply a s ≡ failure status retry text
      → a ≡ 0
  unfolding reply
  reply-failure a s h = ground arith

  length-zero : (l : List LogEntry) → length l ≡ 0 → l ≡ []
  length-zero [] h = refl
  length-zero (x ∷ l) h = absurd (omega (arith, h))

  -- An answer 202 tells the truth: the body decoded, `accepted` entries were added to the buffer,
  -- valid ones of the body in their order and prepared for the tenant, and with the `shed` ones they
  -- are all the entries; it never stands for a request that was shed whole.
  pub serve_counts :
      (h : Handler) (r : Request) (accepted shed : ℕ)
      → (serve_http json now clock h r).1 ≡ counts accepted shed
      → (tenant : Text) × (entries gained : List LogEntry) × (decode_entries json h.max_body r.body
          ≡ inr entries)
        × ((serve_http json now clock h r).0.buffer.queue ≡ h.buffer.queue ++ gained)
        × Published h.redactor tenant entries gained
        × (length gained ≡ accepted)
        × (accepted + shed ≡ length entries)
        × (accepted ≡ 0 → shed ≡ 0)
  unfolding bad_request
  serve_counts h r accepted shed c = elim (serve-Served h r) [
    | turned_away status retry text _ f ↦ absurd (counts-failure (sym c ∙ f))
    | ran tenant entries a d (gained, q, sel, counted m total e) ↦
        let (x, y, z) = reply-counts (sym e ∙ c) in
        (tenant, entries, gained, d, q, sel, omega (arith, x), omega (arith, x, y, total), z)
    | ran tenant entries a d (gained, q, sel, refused text e) ↦ absurd (counts-failure (sym c ∙ e))
    | ran tenant entries a d (gained, q, sel, cut e) ↦ absurd (counts-aborted (sym c ∙ e))
  ]

  -- An answer 503 means that the buffer is as it was, so a retry of the request repeats nothing.
  pub serve_overloaded :
      (h : Handler) (r : Request) (retry : Bool) (text : Text)
      → (serve_http json now clock h r).1 ≡ failure 503 retry text
      → (serve_http json now clock h r).0.buffer.queue ≡ h.buffer.queue
  unfolding bad_request
  serve_overloaded h r retry text c = elim (serve-Served h r) [
    | turned_away status retry' text' same _ ↦ ap (λ (b : Buffer). b.queue) same
    | ran tenant entries a d (gained, q, sel, counted m total e) ↦
        q
        ∙ ap (λ g. h.buffer.queue ++ g)
            (length-zero gained (omega (arith, reply-failure _ _ (sym e ∙ c))))
        ∙ append-nil h.buffer.queue
    | ran tenant entries a d (gained, q, sel, refused text' e) ↦
        absurd (omega (arith, failure_inj (sym c ∙ e)))
    | ran tenant entries a d (gained, q, sel, cut e) ↦ absurd (failure-aborted (sym c ∙ e))
  ]
