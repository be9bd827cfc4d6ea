-- ===== src/Lib.antt =====
-- Catapulte, an email relay: it accepts emails, keeps them with their attachments, and workers deliver
-- them through configured senders. This library models the core of the program and its theorems.
--
-- The parts, and the files that model them (each below verification/):
-- - Entity: domain/src/entity, the values that the services pass around (envelopes, bodies,
--   attachments, sender quotas, error classes, lifecycle events).
-- - Port: domain/src/port. `Port.Types` has the data of the port traits. `Port.Call` has their methods
--   as data (`Call`, with the type of each `Answer`): an implementation of the traits is an `Oracle`,
--   which answers a call from the history of all calls before it, so that a port may keep any state and
--   fail at any time. A service is an `Exec`: it reads the history and extends it. `Port.Trace` says
--   what a history did (which blobs and rows live, what was published, delivered and settled).
-- - SubmitEmail: domain/src/use_case/submit_email.rs, `SubmitEmailService::execute` as `execute`. An
--   email is reserved, its attachments are stored and patched in, it is queued and announced.
-- - MemoryQueue: adapter/outbound-queue-memory/src/lib.rs. Its methods run concurrently and are cut at
--   their atomic operations (`Task`, `Action`); a schedule is any list of actions.
-- - Sqlite: adapter/outbound-sqlite/src, on a database of three tables. `Sqlite.Dto` is dto.rs, `Sqlite`
--   and `Sqlite.Listing` are the statements of email_repository.rs, `Sqlite.Queue` those of
--   email_queue.rs (`enqueue`, `try_dequeue`, `ack`, `nack`, `pending`), `Sqlite.Events` those of
--   event_publisher.rs, event_repository.rs and sender_usage.rs. `Sqlite.Operations` joins them to one
--   step relation on the database, `Sqlite.Integrity` has its keys and references.
-- - Http: adapter/inbound-http/src. `Http.Dto` and `Http.Failure` are dto.rs and error.rs, `Http.Reader` is
--   limited_reader.rs, `Http.Emails` and `Http.Listings` are the handlers of routes.
-- - Port.Queries: the use cases list_emails, list_events and check_readiness, which forward to a port.
-- - Worker: adapter/inbound-worker/src/worker.rs. `process_one`: an email from the queue is processed and
--   then acknowledged, or returned with a delay. `Worker.Loop` is `Worker::run` with its permits and
--   tasks, as a machine that steps on what happens around it; `Worker.Drain` is about its end, and
--   `Worker.Settling` has the vocabulary for what follows the queue's answer.
-- - Processing: domain/src/use_case/process_queued_email.rs, the use case that a worker calls.
-- - Routing: domain/src/service/routed_email_sender.rs, the sender that processing calls: routes by
--   domain and priority, quotas, and a second pass without them. Its tests on domains are in
--   `Routing.Domain`.
-- - Pipeline: binary/src/lib.rs as far as it composes the three: a worker whose processing sends through the
--   routes.
-- - ListSenders: domain/src/use_case/list_senders.rs, the senders with what they have sent.
-- - Gc: binary/src/gc.rs, the sweep of blobs that no email needs; `Gc.InUse` joins it to the listing of
--   the SQLite adapter.
-- - FsStore: adapter/outbound-attachment-fs/src/store.rs, blobs as files of a directory, whose calls may
--   fail at any point; `FsStore.Grace` joins it to the collector.
-- - Fetcher: adapter/outbound-attachment-fetcher/src/fetcher.rs, remote attachments.
-- - Resolver: adapter/outbound-resolver/src/resolver.rs, templates; `Resolver.Environment` is their
--   configuration. The HTTP client follows redirects by itself: that is part of the parameter that stands
--   for it.
-- - Texts: the lists in environment variables that both read.
-- - Common: shared names, Boolean tests, lists, results and i64 numbers. Tests: concrete runs.
--
-- Nearly every loop of the modelled code runs over a list, so its definition is total without fuel. Two
-- are not: `read_to_end` reads a stream on fuel, of which one more than the bytes that are left is
-- enough, and `Worker::run` is a step for each element of a list of what happens. Machine
-- integers keep their width where the code computes with them: i64 times saturate or wrap, the counters
-- and tokens of the memory queue and the backoff wrap at 64 bits, attempts at 32. Foreign values that
-- the code hands on unread are kept simple: a uuid is a number, a `Url` and the JSON map of variables are
-- their text, an `anyhow::Error` is the message that it prints, a transport is its identity. The order in
-- which a `HashMap` yields its entries is a parameter, and so is the parsing of a url.
--
-- Not modelled: tracing; the loops that only wait (the polling of the SQLite `dequeue`, the timer of the
-- collector); in HTTP the router, the bearer token, the framing of multipart bodies and the JSON text,
-- which are calls of axum and serde; the adapters for NATS, Postgres, Redis, S3, SMTP and webhooks, and
-- the rendering of templates; the configuration and wiring of the binary, and telemetry. Addresses, urls,
-- base64, header names and environment variables are read by parameters.
pub mod Common
pub mod Entity
pub mod Port
pub mod SubmitEmail
pub mod Routing
pub mod Processing
pub mod Worker
pub mod MemoryQueue
pub mod ListSenders
pub mod Pipeline
pub mod Gc
pub mod Http
pub mod Texts
pub mod Resolver
pub mod Fetcher
pub mod FsStore
pub mod Sqlite
mod Tests
