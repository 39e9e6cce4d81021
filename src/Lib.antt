-- ===== src/Lib.antt =====
-- Market Relay: a service that ingests end-of-day market observations from governed sources into
-- an append-only store, through a persistent job queue, and publishes them to authorized consumers.
--
-- The parts and their files. Paths are below src/market_relay of the repository.
--   Prelude, Table, Dict, Action   shared: tests, lists, SQL statements on tables of rows
--     (`select_where`, `update_where`, `count_where`), Python's dict, and methods over a session
--     that may raise, with the program's exceptions as the constructors of `Error`
--   Jobs, Queue        domain/ingestion/queue.py: `JobQueue`, over the list of the job rows. Each
--     UPDATE is one `update_where`; enqueueing, promotion, recovery and claims are in Queue, the
--     owner's transitions in Queue/Transitions, the counts in Queue/Counts, the retry on a locked
--     database in Queue/Locks. Queue/Steps is the queue as a transition system: every statement, by
--     any worker, in any order
--   Governance         domain/governance: the policy registry and its gates, credentials, redaction
--   Consumers          domain/governance/consumer_auth.py and `require_scope` of api/deps.py
--   Observations       domain/observations: the store with its revisions, and the selection
--   Planning           domain/ingestion/planning.py
--   Ingestion          domain/ingestion: validation.py and error_codes.py, and the rows of ports/.
--     Ingestion/Cursor is cursor.py, Ingestion/Deadline provider_execution.py, and Ingestion/Runner
--     runner.py: `IngestionRunner.process` over the state of jobs, observations, quota and decisions,
--     each `try` of the source a function on what its body came to (`with_authorization`,
--     `with_cursor`, `store_fetched`, `take_row`)
--   Dispatch           domain/ingestion/dispatch.py, over Planning and Queue
--   Scheduler          domain/ingestion/scheduler_service.py and scheduler_runs.py: `run_scheduler_cycle`
--     over any two phases, where a session is what is committed and what is at work. The phases are
--     Scheduler/Refresh (`refresh_and_dispatch`) and Scheduler/Batch (`claim_and_process`)
--   Adapters           adapters/registry.py, with the route to a listing's calendar in Adapters/Routes,
--     and adapters/fake/provider.py in Adapters/Fake
--   Metrics, Status    domain/ingestion/metrics.py and api/routers/status.py
--   Settings           config/settings.py
--   Api                api/routers and the consumers of api/app.py: a `Request` is answered by `respond`,
--     each route behind the guard of its scope
--   Catalog            domain/catalog
--   View               api/services/observation_view.py
--   Entrypoint         entrypoints/scheduler.py and `session_scope` of db/session.py: `run` over the stored
--     tables, with the runs of a scheduler one after the other
--   Schemas, Migrations  db/migrations/versions: `upgrade` and `downgrade` of each revision, over a schema
--     of names, with the statements of Alembic on it in Schemas. Migrations/Models holds the columns,
--     constraints and indexes of the models and Migrations/Current compares a schema with them;
--     Migrations/Enforcement says what triggers do to statements on rows, and Migrations/Backfill which
--     rows 0002 rewrites
--   Tests              concrete rows, tests on them, and the theorems at concrete inputs
--
-- How the code is read. Identifiers are natural numbers, times are seconds (in
-- Queue/Ages, Metrics, Status and Api, which compare ages, they are microseconds) and dates are
-- proleptic ordinals (`date.toordinal()`), with the errors at the ends of the range of `date`. A text
-- that the code walks is the list of its code points. A `Decimal` is a signed coefficient over a power of
-- ten, an infinity or a NaN; a row is what the table holds, where a price is rounded as its column
-- `Numeric(20, 8)` rounds it. A value that a default makes (a UUID, `utcnow()`) is an argument. A
-- query with no ORDER BY sees the rows in the order of the table. What other processes commit
-- between a read and a write of `ObservationStore.record` is an argument too; the queue's steps
-- interleave as `Reach` says. `process` takes what others commit to the jobs while the provider works,
-- and to the observations in each attempt to record. JSON, ISO dates, the text of a number and of an
-- InvalidCursorError, the provider, its process, the quota's port and the calendar are arguments.
-- A job that a caller holds is a copy of its row; `Expired` says which copies the session has expired,
-- and these are read again. A registry holds objects of any type, with functions for their methods.
--
-- Bounds and fuel. `record` tries eight times, as the source does; a loop over a range of dates has as
-- many rounds as the range has dates; the chunks of a plan have as many rounds as there are sessions,
-- so that none of these loops ends before its work does.
--
-- Not modelled: the length limits of columns, errors of the database itself (a price too large for its
-- column, an observation of a listing that is gone), the hash that the
-- deterministic prices are made of, how settings are read from the environment, HTTP and its
-- framework, logging, process start, and the types and defaults of columns. The environment is a
-- parameter.
pub mod Prelude
pub mod Table
pub mod Governance
pub mod Action
pub mod Adapters
pub mod Jobs
pub mod Api
pub mod Settings
pub mod Metrics
pub mod Status
pub mod Queue
pub mod Planning
pub mod Decimals
pub mod Dict
pub mod Observations
pub mod Catalog
pub mod Ingestion
pub mod Dispatch
pub mod Scheduler
pub mod Entrypoint
pub mod Schemas
pub mod Migrations
pub mod Consumers
pub mod View
mod Tests
