-- ===== src/Lib.antt =====
-- SentinelLog: the log pipeline of this repository, from the HTTP request to the answer of the
-- query service, as functions and step relations, with the theorems that make it correct. The
-- model follows the code function by function; names are the code's in snake case.
--
-- An entry comes in through the ingest handler, which authenticates the token, asks the rate
-- limiter, decodes, redacts and publishes into the bounded buffer. The batch writer takes
-- entries from the buffer and hands redacted batches to the store. The embedding worker follows
-- the store by a checkpoint and fills the vector store; the knowledge base fills it too. The
-- query service answers structured, semantic and "why did it fail" questions from store,
-- vectors and knowledge base, checks the role, and records every question in the hash-chained
-- audit log. The anomaly worker counts failures past its own checkpoint and feeds the anomaly
-- detector, whose events the feed keeps for the anomaly view. The program puts these together:
-- each move of a goroutine is a step of one shared state, and the steps may come in any order.
--
-- - Prelude: shared names, Boolean tests, lists over the native numbers, Go's maps as
--   association lists, strings as bytes, integers, floats, and the standard library's digest,
--   case folding, trimming and sorting as parameters.
-- - Model, Model/Decimal: internal/model/log.go and stored.go; LogEntry, Validate, ContentHash,
--   Ref.
-- - Store: internal/store/store.go; WriteBatch, Search, Since, Get. Store/BinarySearch is
--   sort.Search.
-- - Buffer: internal/buffer/buffer.go; Publish, Close and a receive from the channel.
-- - Writer, Writer/Batches, Writer/Machine: internal/writer/writer.go; Run as a step relation
--   beside producers, ticker and shutdown.
-- - Audit: internal/audit/audit.go; Append, Verify, Head.
-- - Rbac: internal/rbac/rbac.go; Can.
-- - Redaction: internal/redaction/redactor.go; Redaction/Pattern is the pattern layer,
--   Redaction/Entropy the entropy layer, Redaction/Card the Luhn check, Redaction/Replace
--   strings.FieldsFunc and strings.ReplaceAll.
-- - RateLimit: internal/ratelimit/tokenbucket.go; Allow and Sweep.
-- - Ingest, Ingest/Auth: internal/ingest/handler.go and auth.go; ServeHTTP with all its
--   branches.
-- - Embed, Embed/Hash: internal/embed/embed.go; Cosine and HashEmbedder.
-- - Vector: internal/vector/vector.go; Upsert, Search, Len.
-- - Kb: internal/kb/kb.go; Add, GetByRef.
-- - Query: internal/query/service.go and rag.go; StructuredSearch, SemanticSearch, WhyDidFail.
-- - Query/Handler: internal/query/handler.go; the four endpoints.
-- - Metrics: internal/metrics/metrics.go; counters, gauges, histograms, Render.
-- - Config: internal/config/config.go; Load.
-- - Worker/Embed: internal/worker/embedworker.go; tick, process, Lag, and what the hooks are
--   called with.
-- - Worker/Anomaly: internal/worker/anomalyworker.go; tick.
-- - Anomaly, Anomaly/Feed: internal/anomaly/anomaly.go and feed.go; Observe, Push, Recent.
-- - Program: cmd/ingest/main.go; the state that main sets up, Program/Server the mux with its
--   gauges and counters, Program/Steps the moves of the goroutines in any order,
--   Program/Interleaved an ingest request among these moves.
-- - Tests: concrete runs.
--
-- State is passed explicitly: each method of a mutex-guarded object is one function from the
-- state to the new state and the result. Unsigned 64-bit counters keep their wrap-around, and a
-- theorem that needs them not to wrap says so. A time is a number of nanoseconds, and each
-- reading of a clock is an argument. Loops over an index recur on the number of indices that
-- are left, which the length of the slice bounds, so no result depends on spare fuel; the
-- binary search of sort.Search is given the length of its range, which it halves; the digits of
-- a uint64 are at most 20.
--
-- Floating point numbers are an interface with the operations that the code calls. Where a
-- theorem needs laws of them, they stand in its hypotheses. The regular expressions, SHA-256,
-- FNV, JSON, the Unicode tables, sort.Slice and the formatting of scores are parameters as
-- well.
--
-- A move of the program is what one goroutine does while it holds the locks it needs: a
-- publish, a round of the writer's select, a tick of a worker, a sweep, a query. An ingest
-- request is a move of the limiter and one publish for each entry; Program/Interleaved has the
-- handler as a relation in which the other goroutines, other requests among them, move between
-- the publishes of a request. A query request is one move, although its reads of the store and
-- of the vector store could see writes that come between them. The program starts with a buffer
-- of positive size. How large a slice make can allocate is a parameter; a search with a limit
-- past it panics, and net/http then drops the connection without a status. The step of the
-- embedding worker asks that the store has fewer than 2^64 entries, and that of a query that
-- the audit log has fewer than 2^64 records.
--
-- Not modelled: net/http below the handlers, signals, the deadline of the shutdown, the
-- interval of the tickers, the stub of the store that only logs, goroutine scheduling inside a
-- locked section, timing, and channels of capacity 0. HashEmbedder is modelled, but the program
-- takes its embedder as a parameter, since the dimension and the floats play no part in what is
-- proved.
pub mod Prelude
pub mod Model
pub mod Store
pub mod Buffer
pub mod Writer
pub mod Audit
pub mod Rbac
pub mod Redaction
pub mod RateLimit
pub mod Ingest
pub mod Embed
pub mod Vector
pub mod Kb
pub mod Metrics
pub mod Config
pub mod Query
pub mod Worker
pub mod Anomaly
pub mod Program
mod Tests
