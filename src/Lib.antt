-- ===== src/Lib.antt =====
-- A model of the core of BinCrypt, a paste service written in Go, and the properties that make it
-- correct: what is stored for a request, when and how often it can be read back, which requests are
-- refused, and that no task or request is lost or counted twice.
--
-- The parts, and where each is modelled:
--   * Base64 (with Base64/Alphabet, Roundtrip, Identifier): encoding/base64 in the four variants that
--     src/validation.go tries, and src/utils/id.go. The pattern of identifiers is matches_id.
--   * Text: the functions of package strings that the code uses, on lists of bytes. They read texts
--     byte by byte, which is what Go does on ASCII; on other texts Go walks runes.
--   * Storage: the StorageBackend interface of src/services/storage_backend.go as a record over a
--     store, and the records of src/models/paste.go.
--   * Sqlite: src/services/storage_sqlite.go. The tables are lists of rows (Sqlite), with the primary
--     and foreign keys, ON DELETE and ON CONFLICT clauses written out. Sqlite/Transaction has
--     database/sql's transactions: the body works on a copy. Sqlite/Save is SavePaste, Sqlite/Get is
--     GetPaste, Sqlite/Admin the four one-statement methods, Sqlite/Backend the record of all of them.
--     Every call of the database may fail, by a function that is chosen anew for each request.
--     The checks of the bans come before the transaction; a request is one step all the same.
--   * Postgres: src/services/storage_postgres.go over the same tables, with times in microseconds
--     and the widths of the VARCHAR columns (Postgres, Postgres/Save, Get, Admin, Backend), and its
--     relation to Sqlite (Postgres/Scaled, Saved, Refinement).
--   * Gcs: src/services/storage_gcs.go. The bucket is a list of objects; each request to it is one
--     step, which may fail before it has an effect or after (Gcs). Gcs/Get has GetPaste as a machine
--     that waits for one reply at a time, and Gcs/Race lets any number of readers take turns.
--   * Secrets: src/config/secrets.go, the environment file and the lookup of a secret.
--   * Monitor: the Logging middleware of src/middleware.go with the counts of src/logger/monitor.go,
--     and the handler that sends them.
--   * RateLimit: the token bucket of src/services/ratelimit.go.
--   * Redis: the sliding window of src/services/ratelimit_redis.go: the commands on sorted sets and
--     the script (Redis), the members of a set (Redis/Members), and the invariant of a key
--     (Redis/Window). The rounding of integers to doubles is a parameter.
--   * Firestore: the sliding window of src/services/ratelimit_firestore.go, a transaction over one
--     document for each key. What Firestore keeps of an instant is a parameter.
--   * DeletionQueue: src/services/deletion_queue.go; DeletionQueue/Steps has what the handlers, the
--     workers and Shutdown can do as a step relation, and DeletionQueue/Progress counts what is left
--     to the workers of a closed queue.
--   * Validation: src/validation.go and Paste.Validate.
--   * Handlers: CreatePaste (Handlers/Create) and GetPasteAPI (Handlers/Read) of
--     src/handlers_paste.go, over any backend; Handlers/Delivered joins them over SQLite. The state
--     is the store, the counters of src/logger/monitor.go, the deletion queue and the audit events.
--   * ClientIp: src/utils/ip.go and src/config/trusted_proxies.go, the address a request is counted
--     under.
--   * Middleware: src/middleware.go: path and query sanitising (Redact), InputValidation (Input), the two
--     rate limiters over the RateLimiter interface (Limits), CORS (Cors), and CSP with the injection
--     of nonces into pages (Nonce).
--   * Webhook: VerifyWebhook of src/services/btcpay.go, with encoding/hex (Webhook/Hex), and
--     PaymentWebhook of src/handlers_invoice.go.
--   * Invoice: CreateInvoice of src/handlers_invoice.go and its validation, over the invoice service.
--   * Logger: src/logger/logger.go up to the entry that is written (Logger), and the events of
--     src/logger/audit.go with their fields (Logger/Audit).
--   * Server: src/server.go and src/main.go: the table of routes (Server), a request on its way through
--     the middleware to its handler (Server/Serve), start-up with the choice of the storage and of the
--     limiter (Server/Startup), Shutdown (Server/Stop), and HealthCheck and GetClientConfig
--     (Server/Info). The router, package mux, is a parameter.
--   * Migrations: migrations/migrate.go over any schema, with the effect of a file as a parameter.
-- The server passes a request through the middleware, each of which may answer it, to the handler of
-- its route. A handler calls the backend, and puts burned identifiers into the deletion queue, whose workers
-- call the backend's DeletePaste.
--
-- Taken as parameters: SHA-256 and HMAC, encoding/json, mux, the opening of databases, the
-- operations of float64 (RateLimit; RateLimit/Rounding states how they round), the rounding of
-- integers to doubles, package net's address parsing, the file system, the clock and the random
-- source. Instants are counted in nanoseconds; rows keep whole
-- seconds, as RFC 3339 prints them, or microseconds in PostgreSQL. Every loop of the code runs
-- over a list; GetPaste of Gcs is given five steps, and Gcs/Termination shows them to be enough.
--
-- Not modelled: the requests to BTCPay, the clients of Google's Secret Manager and Cloud Logging,
-- signals, the commands, the middleware that recovers from panics, and the limit on the size of a
-- body. They call services, wire the parts together, or wrap what the libraries do. Start-up is
-- that of the build without the tag gcp. Ints are unbounded, since the checks keep those that
-- matter below 2 ^ 31.
pub mod Prelude
pub mod Text
pub mod Base64
pub mod Storage
pub mod Sqlite
pub mod Postgres
pub mod Gcs
pub mod Secrets
pub mod Monitor
pub mod RateLimit
pub mod Redis
pub mod Firestore
pub mod DeletionQueue
pub mod Validation
pub mod Handlers
pub mod ClientIp
pub mod Middleware
pub mod Webhook
pub mod Invoice
pub mod Logger
pub mod Server
pub mod Migrations
