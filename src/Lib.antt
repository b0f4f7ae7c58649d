-- ===== src/Lib.antt =====
-- The orchestration services of the cost engine: creation of dataset versions, preparation, dispatch
-- and reconciliation of calculation runs, the lifecycle of dataset versions, and the in-memory executor.
--
-- The services share a PostgreSQL database. Each of their operations is a transaction, or a few
-- transactions with calls of an executor between them. A model of a service is a function from an
-- environment (the tables, the clock, the identifiers still to be drawn, the collation) to a result or
-- an error and the environment after it; `do` blocks follow the TypeScript line by line.
--
--   Base          tests, lists as tables (SELECT, UPDATE, COUNT), sorting, and their lemmas
--   Errors        src/modules/calculation-job.errors.ts, src/modules/dataset-version/
--                 dataset-version.errors.ts
--   Exec          functions with state and errors; what an action commits, and what it preserves
--   Store         the tables of migrations/1788700000000_orchestration-schema-v2.ts with their unique
--                 constraints, and src/db/transaction.ts
--   Preparation   src/modules/calculation-job-preparation.repository.ts and .service.ts
--   Dispatch      src/modules/calculation-job-run.repository.ts and .service.ts, and the interface of
--                 src/executors/calculation-executor.ts
--   Reconciliation src/modules/calculation-job-reconciliation.repository.ts and .service.ts
--   Lifecycle     src/modules/dataset-version/dataset-version-lifecycle.repository.ts and .service.ts
--   Creation      src/modules/dataset-version/dataset-version.repository.ts and .service.ts
--   FakeExecutor  src/executors/fake-executor.ts
--   DemoSession   src/modules/demo-session: the session service, the coordinator of
--                 operations, the reset of sessions, and the pages of the demo reads (Pages)
--   Deployment    src/deployment/public-demo-http.ts: the hook and the limits of the public demo
--   Consistency   the invariant of the tables, and the changes of rows that keep it
--   Reach         sequences of transactions
--   Examples      a small database taken from creation to publication, and the theorems applied to it
--
-- Names are the source's in snake_case: `prepareCalculationJobRunService` is
-- `prepare_calculation_job_run_service`; a callback of `withTransaction` is the definition that ends in
-- `_transaction`; a long function is cut where its branches are, and the pieces are named for them.
-- Status codes are constructors of data types, with a prefix where two enumerations share a code.
--
-- A transaction is one atomic step: `SELECT ... FOR UPDATE` is a read, and locks, isolation levels and
-- deadlocks are not modelled. Requests that run at the same time are sequences of transactions, with
-- any arguments. A COMMIT may throw, whether the database applied it or not; failures of other queries
-- are not modelled, but for the errors that constraints raise. NOW() is the environment's clock,
-- `randomUUID` takes the next of a stream of identifiers that nothing is assumed of, and a key that is
-- drawn twice is a violation of the table's primary key. Foreign keys, check constraints, columns that no
-- service names and the texts of messages are left out. Rows keep the order of the table where no caller
-- depends on the order of a query.
--
-- The executor is a parameter: a record of two calls that act on the environment beside a state of
-- their own, since other transactions may commit while a call is awaited. A run takes three rounds, as
-- the source does; the rounds are recursion on their number, so every run ends.
--
-- The coordinator of demo sessions is a state machine: an operation is live from its admission until its
-- promise settles, and awaits the tickets of earlier operations; a step is a call of the coordinator, or
-- a move of a live operation (its start, its confirmed revalidation, its end). Digests, JSON, base64url and
-- the randomness of credentials are parameters.
--
-- Routes, the registry of executors, raw ingestion, workflow templates, the other deployment code and the
-- frontend are not modelled: they call these services, or do not touch these tables' rules.
pub mod Base
pub mod Errors
pub mod Exec
pub mod Store
pub mod Preparation
pub mod Dispatch
pub mod Reconciliation
pub mod Lifecycle
pub mod Creation
pub mod Consistency
pub mod Reach
pub mod Examples
pub mod FakeExecutor
pub mod DemoSession
pub mod Deployment
