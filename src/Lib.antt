-- ===== src/Lib.antt =====
-- ticket-triage: support tickets are ingested over HTTP, classified by a language-model provider in a
-- background worker, routed to a queue by ordered rules, and reviewed by humans. This library models
-- the service's core and proves what its parts promise. Paths are from the repository's root.
--
-- The parts, and the modules that model them:
--   Base, Text, Json    lists, texts (lists of code points) with the stripping of Python and of
--                       pydantic, lower and upper, and the values of json.loads
--   Labels              the label sets of app/schemas/triage.py and the enums of app/models.py
--   Table, Model        a table is the list of its rows in insertion order; Model has a record for each
--                       table of app/models.py, and INSERTs that answer none for an IntegrityError.
--                       Model.Lifecycle is the invariant of the database, Model.Frame what a change of
--                       one ticket leaves alone
--   Routing             app/services/routing.py (resolve_queue, load_rules, replace_rules) and
--                       app/routers/rules.py (get_rules, put_rules); Routing.Seed models
--                       migrations/versions/0002_seed_routing_rules.py
--   Migrations          migrations/versions/0001_init.py (Init) and 0003_reply_drafts.py (Drafts): Ddl has
--                       the operations of a migration, the constraints and the INSERT of SQL, Rows the
--                       columns of app/models.py, Inserts, Typed and Rules the rows against the tables,
--                       Undo and Revisions the downgrades
--   Breaker             CircuitBreaker of app/services/llm_client.py
--   Provider, Client    LlmClient of app/services/llm_client.py: attempt_with_retries, extract and
--                       backoff in Provider, complete and cost in Client
--   Prompts             app/prompts.py
--   Schema              TriageResult and ReplyDraftResult (app/schemas), and parse_triage, parse_reply
--                       and strip_fences of app/services/classifier.py
--   Classifier          classify_ticket and generate_reply_draft of app/services/classifier.py
--   Worker              process_next_ticket and _generate_draft of app/services/worker.py; Worker.Thread has
--                       the class Worker and its loop, and the lifespan of app/main.py
--   Shown, Tickets      app/routers/tickets.py (ingest_ticket, create_ticket, get_ticket, list_tickets, the
--                       serializers) and app/routers/webhooks.py (ingest_email)
--   Reviews, Reply      app/routers/reviews.py and app/routers/reply.py
--   Export              app/services/export.py
--   Errors, Health      app/errors.py and require_api_key of app/deps.py; app/routers/health.py
--   Logging, App        app/logging.py; the request middleware of app/main.py and the handler of
--                       unexpected errors around it; Engine is app/db.py
--   Counts, Stats       counting by key; app/services/stats.py, app/routers/stats.py and
--                       app/schemas/stats.py
--   Evals               evals/run.py: Ratio for its numbers, Metrics for the scores, Pipeline for the run,
--                       Gate for the comparison with a baseline, Main for the checks and the exit code,
--                       Exported for the corrections export as a dataset
--   System              the operations above as steps of one service, in any sequence; in
--                       System.Interleaved requests commit while the worker waits for the provider
--   Tests               sample data and runs
--
-- State is passed explicitly. A World is the database of a session and the breaker of the shared
-- client; a rollback returns to the database of the last commit and keeps the breaker. What is outside
-- the repository is a parameter: the HTTP client, the clock, the jitter and new ids of one provider
-- call (Exchange), of a poll (Poll) and of a request (Stamp); json.loads and pydantic's error list
-- (Decoder); and what other requests commit between the query and the commit of an ingestion (rivals).
--
-- Timestamps are numbers of ticks, durations milliseconds, costs whole micro-dollars rounded half to
-- even; numbers of JSON documents are natural, and a token count of another type raises. A row with
-- the same sort key keeps its place in insertion order. lower and upper are exact on ASCII, which the
-- label words and the fence tag need. In System a request sees no rival and is one step;
-- Tickets.Ingest treats rivals. What json.loads raises besides a JSONDecodeError, and what a request of
-- the client raises besides a transport error, is not caught: it leaves the parser, or the client, and
-- the classification. A theorem that a poll or a run succeeds excludes it, by a hypothesis on the texts
-- that are answered.
--
-- No loop needs a bound of the model's own: the retries run llm_max_retries + 1 rounds, as in the
-- source, a poll makes at most four provider calls, and the decimal digits of n are taken in n + 1
-- rounds, which is enough because each round divides by ten.
--
-- Scores of the evaluation are exact ratios of natural numbers, rates of the statistics whole
-- ten-thousandths. An evaluation row has all its keys and one of the service's channels, --limit is a
-- natural number, and a baseline file has the keys that build_baseline writes.
--
-- A migration is a list of operations on a list of tables; the CHECKs are the expressions of the source
-- as data, and a refused operation has no result. The worker's thread is a list of rounds, each with
-- what its event shows and whether the database can be reached; the length of a pause plays no part. A
-- poll of System.Interleaved reads its ticket in one step and commits in two more, and what it flushes
-- is seen by no other session before its commit.
--
-- Not modelled: the printing, the argument parser, the elapsed time and the writing of the baseline
-- file of the evaluation, which are output; the JSON text of responses and of log lines; env.py of the
-- migrations and the registration of routers, which only call Alembic and FastAPI; the benchmark and
-- the demo, which drive the service; and floating-point error in costs, rates and scores.
pub mod Base
pub mod Counts
pub mod Text
pub mod Labels
pub mod Table
pub mod Model
pub mod Migrations
pub mod Routing
pub mod Json
pub mod Breaker
pub mod Provider
pub mod Client
pub mod Prompts
pub mod Schema
pub mod Classifier
pub mod Worker
pub mod Errors
pub mod Health
pub mod Logging
pub mod Engine
pub mod App
pub mod Shown
pub mod Tickets
pub mod Reviews
pub mod Reply
pub mod Export
pub mod Stats
pub mod Evals
pub mod System
pub mod Tests
