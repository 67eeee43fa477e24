-- ===== src/Lib.antt =====
-- abrio: a multi-tenant SMS gateway with prepaid credits.
--
-- A request submits one message or a batch (src/app/usecases/messages.py): in one transaction it
-- writes each message, an outbox row (a dispatch job) for it, and reserves the cost on the user's
-- balance. A relay per priority (src/infra/workers/dispatch_relay.py) claims due jobs, hands them to
-- the broker and records what the broker took. A worker (src/app/usecases/dispatch.py) claims a job
-- in one transaction, calls the SMS provider, and in a second transaction records the outcome, which
-- settles or refunds the payment or schedules a retry. These parts meet only in the database. Before
-- the API, a middleware (src/api/rate_limit.py) charges each request to token buckets in Redis; at a
-- scrape, collectors (src/core/metrics.py) read the backlog and the payment alarms from the database.
--
-- Files and the code they are about:
--   Prelude (Tests, Lists, Texts, Division, Int): Boolean tests, lists, texts and integers on native
--     numbers.
--   Config (Costs, Bounds): src/core/config.py.
--   RateLimit: src/api/rate_limit.py. Rules, Bucket (the script), Limiter, Scope (what a request says
--     of itself), Resolve (its buckets), Body and Middleware are the code; the others are about one
--     run of the script (Charging), the time between two (Refill), a history of runs (Rate), the
--     wait of a refused request (Retry, Promise), the rule it names (Blame), clocks that differ
--     (Skew), the keys of a request (Keys), the rules of valid settings (Working), its body (Replay)
--     and the answers of the middleware (Answers).
--   Domain (Enums, Errors): src/domain/enums.py, src/domain/errors.py; ProviderOutcome of
--     src/infra/providers/types.py.
--   Database (Table, Rows, Session, Constraints): src/infra/db/models, the transaction monad, and
--     the constraints that PostgreSQL checks.
--   Repositories (Balances, Messages, Jobs, Claim, Order): src/infra/db/repositories, one definition
--     per method under its name; Claim is claim_batch.
--   Metrics: the recording functions of src/core/metrics.py.
--   UseCases (Accounts, Submission, Dispatch): src/app/usecases. Submission is MessageUseCase,
--     Dispatch is DispatchUseCase; claim and record_tx are the transactions of _claim_for_delivery
--     and _record_outcome.
--   Relay: src/infra/workers/dispatch_relay.py; turn is one pass of the loop of run.
--   Ledger: the invariant of the four tables (Consistent) and its proofs: Accounts, Save,
--     Transition and Insert on the tables, Delivery, Submission, Requests, Operations and Deposits
--     on the transactions, System on histories of them, Answers and Batches on what the use cases answer and
--     store, Keys on the keys of a batch, Admission and Verdict on which submissions a balance
--     admits.
--   Delivery (Leases, Outcomes, Retries, Process): who may work on a job, and how often, and what a
--     worker's process does with one from end to end.
--   Outbox (Publishing, Claiming, Filling, Serving, Settling): what the relay claims and records.
--   Observability (Dispatch): src/core/observability.py, record_http_request of src/core/metrics.py.
--   Logging (Record, Fields): src/core/logging.py, src/core/request_context.py.
--   Api: Schemas is what the request models of src/api/schemas accept, Routes the handlers of
--     src/api/routes and the exception handler of src/main.py; Columns and Fits are about the texts
--     that reach the columns of messages, Amounts about the print of an amount.
--   Scripts: Loadtest is scripts/loadtest.py and Benchmark scripts/benchmark.py; Attempts and Limit
--     are about one attempt and all attempts of the load test, Idempotency about a request that it
--     sends twice, Budget, Percentile, Drain and Fetch about the parts of the benchmark.
--   Monitor (Collect, Cache, Alarms, Backlog): the collectors of src/core/metrics.py.
--   Pagination (Rows, Pages, Ties): src/api/schemas/pagination.py and the slices of the
--     repositories; Ties is about rows of one time, whose order each query is free to choose.
--   Providers: src/infra/providers, and _build_provider of src/infra/workers/dispatch_tasks.py.
--   Health: the readiness check of src/api/routes/health.py.
--   Startup: wait_for_database of src/backend_pre_start.py.
--   Examples: concrete runs.
--
-- How it is modelled: a UUID, a relay's and a worker's name are numbers, which are only compared.
-- Times are microseconds and every reading of the clock is an argument; random values, drawn ids,
-- the broker's answers, the provider's result and the rows that others have locked are arguments
-- too. Money is an integer of cents, the unit of the Numeric(10, 2) columns; prices are whole
-- cents. A table is a list of rows, and an UPDATE changes a row in its place. Each transaction is
-- one step: row locks make the transactions that touch the same job or balance run one after the
-- other, and the steps of System may come in any order. An exception rolls its transaction back.
-- The loops of the benchmark and the digits of a printed amount recurse on fuel: one round more than
-- there are pages, one for each round up to the timeout, one for each message of the budget and the
-- number itself are enough. All other recursion is on lists and counts. The script of the rate
-- limiter is one step of Redis; it is modelled on exact numbers, with a token divided into as many
-- parts as its window has microseconds, where the source has floating point numbers. A text is the
-- list of its codes; what is called of Python's library on a request (json.loads, parse_qs,
-- isdecimal) is the record Library, in which json.loads may raise what nothing catches, and the class
-- of digits of the pattern's engine is an argument.
--
-- Not modelled: Celery wiring, the liveness answer, sessions, the prices route, the texts of
-- responses and of log lines, and the validation of metric labels, which are input and output around
-- the parts above; the rounding errors of the script's floating point numbers; of the scripts,
-- printing and the scenarios that only compose the requests above. Zeroing an account is modelled,
-- but it is no step of System.
pub mod Prelude
pub mod Domain
pub mod Database
pub mod Repositories
pub mod Metrics
pub mod UseCases
pub mod Relay
pub mod Ledger
pub mod Delivery
pub mod Outbox
pub mod Logging
pub mod Api
pub mod Scripts
pub mod Config
pub mod RateLimit
pub mod Observability
pub mod Monitor
pub mod Pagination
pub mod Providers
pub mod Startup
pub mod Health
pub mod Examples
