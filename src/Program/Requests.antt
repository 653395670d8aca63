-- ===== src/Program/Requests.antt =====
-- A request as a run of the program's steps, between which the other goroutines may move.
use sentinellog.Prelude.{
  ℕ, ◌≡◌, refl, inl, inr, Bool-cases, Option-cases, Text, codes, List, ◌++◌, some, length, drop,
  ◌==◌, text_eq, ◌⊎◌,
}
use sentinellog.Prelude.Strings.{Runtime}
use sentinellog.Prelude.Float.{Float}
use sentinellog.Model.{Time, LogEntry}
use sentinellog.RateLimit.{Limiter, allow}
use sentinellog.Ingest.{
  Json, Request, Handler, take_body, serve_tenant, serve_http, decode_entries, bearer_token,
}
use sentinellog.Ingest.Auth.{authenticate}
use sentinellog.Program.{Parts, State, ingest_handler}
use sentinellog.Program.Server.{Clock, ingest}
use sentinellog.Program.Steps.{Move, Run}
use sentinellog.Program.Publishing.{Run-trans, stay, loop-IsGained, gained-Run}

module _ ⦃rt : Runtime⦄ ⦃fl : Float⦄ (parts : Parts) where
  -- The state with what a request left in the handler.
  taken : State → Handler → State
  taken s h = record s {
    limiter = h.limiter;
    system = record s.system {
      buffer = h.buffer;
      accepted = s.system.accepted ++ drop (length s.system.buffer.queue) h.buffer.queue;
    };
  }

  -- With the limiter's answer for the tenant.
  abbrev with_limiter : State → Limiter → State
  with_limiter s l = record s { limiter = l }

  taken-limited :
      (s : State) (l : Limiter)
      → Run parts s (with_limiter s l)
      → Run parts s (taken s (record (ingest_handler s) { limiter = l }))
  unfolding taken ingest_handler
  taken-limited s l run =
      Run-trans parts run
        (gained-Run parts (with_limiter s l) s.system.buffer (stay parts (with_limiter s l)))

  module _ (json : Json) (now : ℕ) (clock : ℕ → Time) (s : State) where
    take_body-Run :
        (token tenant : Text) (l : Limiter) (body : Text ⊎ List LogEntry)
        → authenticate s.auth token ≡ some tenant
        → Run parts s (with_limiter s l)
        → Run parts s
            (taken s (take_body (record (ingest_handler s) { limiter = l }) tenant clock body).0)
    unfolding take_body ingest_handler taken
    take_body-Run token tenant l (inl text) known run = taken-limited s l run
    take_body-Run token tenant l (inr entries) known run = Run-trans parts run (
        gained-Run parts (with_limiter s l) _
          (loop-IsGained parts token tenant clock 0 entries 0 0 (with_limiter s l) known))

    serve_tenant-Run :
        (r : Request) (tenant : Text)
        → authenticate s.auth (bearer_token r) ≡ some tenant
        → Run parts s (taken s (serve_tenant json now clock (ingest_handler s) r tenant).0)
    unfolding serve_tenant ingest_handler
    serve_tenant-Run r tenant known =
        let l : Limiter = (allow s.limiter tenant now).0 in
        let run : Run parts s (with_limiter s l) =
          Run.next Run.here (Move.limited tenant now refl) in
        elim (Bool-cases (allow s.limiter tenant now).1) [
          | inl e ↦
              rw (e, serve_tenant)
                (take_body-Run (bearer_token r) tenant l (decode_entries json s.max_body r.body)
                  known run)
          | inr e ↦ rw (e, serve_tenant) (taken-limited s l run)
        ]

    serve-Run :
        (r : Request) → Run parts s (taken s (serve_http json now clock (ingest_handler s) r).0)
    unfolding serve_http ingest_handler
    serve-Run r = elim (Bool-cases (r.method == codes "POST")) [
      | inl post ↦ elim (Option-cases (authenticate s.auth (bearer_token r))) [
        | inl a ↦ rw (post, a) (taken-limited s s.limiter Run.here)
        | inr (tenant, a) ↦ rw (post, a) (serve_tenant-Run r tenant a)
      ]
      | inr other ↦ rw (other) (taken-limited s s.limiter Run.here)
    ]

  -- The ingest handler does nothing that the moves of the program do not do: whatever a request is
  -- answered with, a run leads from the state before it to the state that it leaves.
  pub ingest-Run :
      (json : Json) (c : Clock) (s : State) (r : Request) → Run parts s (ingest json c s r).0
  unfolding ingest taken
  ingest-Run json c s r = serve-Run json c.now c.clock s r
