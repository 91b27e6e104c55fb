-- ===== src/Lib.antt =====
-- A model of the core of the Zyntry backend, with the theorems that make it correct.
--
-- The program is a FastAPI service: routes call services, and the services share a SQLAlchemy session
-- over PostgreSQL. This library models the services that decide about money and about what a request
-- may do, and those that route a request to a model, prepare its documents and perform its actions.
--
-- Prelude (with Prelude.Tests, Prelude.Lists, Prelude.Int): the native numbers, texts, lists and
--   integers that the other files share, and the ruleset for integers.
-- Tables (Tables.Unique, Tables.Every): a database table as a list of rows, with its queries and
--   updates (app/repositories/base.py).
-- Rows: the rows of app/models/billing.py and app/models/notifications.py.
-- Session: the session of app/repositories, an action with a committed and a working database that
--   returns or raises; what is flushed before a raise stays in the working database.
-- Money (Money.Rounding): `money` of app/services/metered_billing.py.
-- Limits (Limits.Sound): `SpendingLimitService` of app/services/metered_billing.py.
-- Pricing (Pricing.Quotes): `PricingService` of app/services/metered_billing.py.
-- Metered: `MeteredBillingService` of app/services/metered_billing.py, one function per method, which
--   calls the limits. Metered.Calls runs lists of calls; Metered.Moves says what each branch moves,
--   Metered.Keeps that a property that the moves keep is kept by the calls, and Metered.Consistent,
--   Metered.Conserved, Metered.Solvent and Metered.Trace draw the invariants. Metered.Atomic,
--   Metered.Idempotent, Metered.Outcomes, Metered.Expiry and Metered.Reconcile are about the outcome
--   of single methods.
-- Wallets: app/services/billing.py, `BillingService`, with the wallets, budgets and notifications in
--   Wallets, credits, debits and refunds in Wallets.Credits, the budget checks in Wallets.Budgets and
--   `bill_operation` in Wallets.Operations. Wallets.Movements, Wallets.References and Wallets.Refunds
--   are about what they do. It writes the rows that `reconcile_wallet` of Metered reads.
-- Usage (Usage.Recorded): `record_usage` of app/services/billing.py, which charges Funding.
-- Funding (Funding.Costs): app/services/provider_funding.py.
-- Scheduler (Scheduler.Retries): app/services/scheduler.py.
-- RateLimit (RateLimit.Window, RateLimit.Outage): app/middleware/rate_limit.py.
-- Tokens: app/services/token_engine.py. Context (Context.Trim, Context.Compress): `ContextManager` of
--   app/services/context_manager.py, which estimates with Tokens.
-- Health (Health.Streaks, Health.Failover): app/services/provider_health.py.
-- Routing: `ModelRouter` of app/services/model_router.py, with the choice of a model in Routing and the
--   attempts of an invocation, which write the health of Health, in Routing.Invoke. Routing.Choice and
--   Routing.Attempts are about them.
-- Chunking: app/services/chunking.py, with sentences in Chunking, sections in Chunking.Sections, the
--   sliding window in Chunking.Windows and the chunks of documents in Chunking.Documents.
--   Chunking.Packing and Chunking.Sections.Lines are about what they keep.
-- Json: the values of JSON that the services read.
-- Actions: app/services/actions, with the guardrails (guardrails.py) in Actions, the confirmations
--   (confirmations.py) in Actions.Confirmations, executions and workflows (executor.py) in
--   Actions.Executor, and the endpoints of app/api/v1/actions/router.py, which compose them, in
--   Actions.Gateway. Actions.Approvals and Actions.Guarded are about them. Actions.Stored is the run
--   of stored workflows (app/tasks/workflows.py), and Actions.Stored.Held is about it.
-- Security: app/services/runtime_security.py, with its settings in Security.Settings. Security.Bans and
--   Security.Outages are about what it decides while Redis runs and while it raises.
-- Embeddings: app/services/embedding_cache.py, app/repositories/embedding_cache.py and
--   `embed_with_cache` of app/services/embeddings.py, with the batches of app/services/performance.py in
--   Embeddings.Batches. Embeddings.Cached is about the cache.
-- ApiKeys (ApiKeys.Revoked): app/services/apikeys.py and app/api/v1/dependencies_api_key.py.
-- Webhooks (Webhooks.Once): app/tasks/webhooks.py.
-- Samples holds concrete rows; the Examples modules run the theorems on them.
--
-- How the code is read. A UUID is its text, a time is a number of microseconds, and an amount of money
-- is an integer of its quantum, a ten-thousandth (a millionth in Funding). Decimal arithmetic is
-- exact. A query without an order, or with ties in it, gives rows in table order. What a call takes
-- from outside, the time and the ids of its new rows, are arguments; `raced` is the database that a
-- concurrent transaction left which took the same unique key, where one did. Unique keys are checked
-- where the code catches or relies on their violation: a reservation's and a ledger row's idempotency
-- key, a user's wallet, an API key's hash, a confirmation's id and a webhook event's id. A flush
-- that such a key refuses leaves the flushes before it in the working tables, which the session would
-- give up. Parameters are the commands of Redis, the text normalisation of provider names and the
-- synchronisation that a schedule starts.
-- Arguments stand as well for what the model providers, the providers of actions and the receivers of
-- webhooks answer, for regular expressions, for hashes and for the operations of Redis; where a theorem
-- relies on what they do, a hypothesis says so. Characters of texts are searched and cut where the
-- code does; scores are integers of a millionth.
--
-- Bounds and fuel. `assemble` has two loops. The trimming loop drops a message in each turn, and runs
-- on as many turns as there are messages. The final loop is not known to end: its fuel is an argument,
-- and the model returns none where the loop has not ended within it. The sliding window of Chunking
-- runs on fuel, and as many turns as there are characters are enough; the split into batches runs on as
-- many turns as there are items. All other loops are over lists.
--
-- Not modelled: the metadata of rows, mail and published events; the read models of
-- `BillingService`; the choice of the rate limiter's key; the normalisation of provider payloads in
-- `TokenEngine` and the breakdown of a context by category; workflow schedules; the detection of
-- languages and of personal data, which are regular expressions; retrieval, connectors, onboarding, the
-- runtime assistant, and the HTTP routes other than those of actions.
pub mod Prelude
pub mod Money
pub mod Tables
pub mod Rows
pub mod Session
pub mod Json
pub mod Limits
pub mod Pricing
pub mod Metered
pub mod Wallets
pub mod RateLimit
pub mod Tokens
pub mod Context
pub mod Health
pub mod Funding
pub mod Usage
pub mod Scheduler
pub mod Webhooks
pub mod Actions
pub mod ApiKeys
pub mod Chunking
pub mod Security
pub mod Embeddings
pub mod Routing
pub mod Samples
