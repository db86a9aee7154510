-- ===== src/Lib.antt =====
-- Workfront: a project's schedule, kept consistent when a task is moved. A client moves a task
-- through the API; the API writes the row and an outbox row in one transaction; Debezium carries
-- the outbox row to Kafka; the worker computes what moves downstream, writes it with an outbox row
-- of its own, and a bridge takes that to Redis and from there to the WebSockets.
--
-- Parts, files and code:
-- - Base: Boolean tests, lists, datetimes and outcomes that every part shares. A datetime is its
--   microseconds since year 1; adding a timedelta beyond year 9999 or before year 1 is
--   OverflowError, as in Python.
-- - Cascade: services/worker/src/cascade.py. Types has its data classes, Affected the walk of
--   `cascade` over the successors, Kahn the sort, Recompute `_earliest_start` and the new dates,
--   and Run `cascade` itself with its theorems. The code lists a Python set in an order that
--   Python leaves open: `SetOrder` is that order, a parameter.
-- - Store: libs/wf_core/wf_core. Models has the rows of models.py that the services use; Database
--   is the interface to SQLAlchemy and Postgres, with what their documentation says of flush,
--   version_id_col, primary keys and sessions as laws; Memory is an instance in memory, over
--   Tables, Selection, Flushing and Deletion; Session has `session_scope` and
--   `async_session_scope` of db.py, and Engines its engines and factories.
-- - Schema: libs/wf_core/migrations/versions, both revisions as lists of the operations that they
--   call, with every column, the tables of models.py, and in Environment migrations/env.py.
-- - Config: libs/wf_core/wf_core/config.py.
-- - Telemetry: libs/wf_core/wf_core/telemetry.py, over an interface to OpenTelemetry; Tracing in
--   Worker is the span of a message.
-- - Json: the JSON objects that the API writes into the outbox and the worker reads.
-- - Ids: libs/wf_core/wf_core/ids.py; Base.Bits has the shifts and masks.
-- - Worker: services/worker/src. Subgraph and Handler are `process_schedule_changed` of
--   handler.py, and Consumer the loop of consumer.py over one partition, with Connection for its
--   topics and clients.
-- - Api: services/api/src. Schemas is schemas.py; Guards has `_require_match`, `_load_task` and
--   what the handlers of main.py share; Projects, Tasks, Schedule and Links have the handlers,
--   Service a whole request from its route to the commit, with in Client what docs/api-contract.md
--   lets a client do on an event, and Socket the WebSocket route. `create_project` etc. keep their
--   names; a handler whose name the database has too ends in _route.
-- - Ws: Manager is `ConnectionManager` of services/api/src/ws.py, Traffic the interleavings of its
--   steps, Fanout the events of services/ws_fanout/src/main.py with the push of
--   services/api/src/main.py, and Relay the loop of the former with its commits and restarts.
-- - Subscriber (in Ws): `_redis_subscriber` and `lifespan` of services/api/src/main.py, as steps
--   over what its awaits give.
-- - Pipeline: a schedule move on its way through the services. Agreement sets it against the move
--   with the inline cascade; Router is the interface to Debezium (configured by debezium/register-
--   outbox.json), which makes the rows of the outbox messages of the topics; Delivery is the way
--   to the poll loop, Tracing its trace, Ripple the way of the worker's changes over the bridge to
--   the sockets, and InStep what a client has that follows them.
-- - History: the transactions of the API and the worker in the order of their commits, as a step
--   relation on the state of the database; a request that writes is one step, at the state that it
--   meets when it writes. Clients adds what a client gets of each step, and the rule of docs/api-
--   contract.md on the numbers of the events.
-- - Launcher: main.py, with the processes as what they are started with and what they answer to a
--   poll; Connections sets it against the services and the migrations that it starts.
-- - Tests: runs of the code on small data.
--
-- How the model stands to the code: an exception is the `err` of an `Outcome`, and ids are
-- numbers. A handler takes the state that its session reads and a function `others`, which is what
-- other transactions commit before it writes: the laws of flush speak of the state after that. A
-- coroutine that awaits its sends takes a function for what the others do meanwhile. Rows that a
-- failed transaction wrote are not in the state that it leaves. A flush of changed tasks may fail
-- with StaleDataError, IntegrityError or any other error of the database; a query, and the
-- insertion of a new mark into the dedup inbox, do not fail. What becomes of a call of Kafka's
-- client (a commit of an offset, a dead letter) is an argument of the poll. A datetime in the body
-- of a request carries a time zone, so that it is an instant.
--
-- Fuel: the walk has as much as there are edges, plus one, and each round takes one task off the
-- queue, which enters it along an edge; the sort has as much as there are affected tasks, and each
-- round emits one. A loop that ran out would answer `out_of_fuel`.
--
-- Not modelled: the routes' JSON, headers and dispatch (pydantic and FastAPI), datetimes without a
-- time zone, failing queries, the rows of the tables that no service touches, signals to the
-- launcher, the schemas of events.py, which no service uses, the route /health, and the stubs of
-- graph_service, projector and the worker's health route.
mod Base
pub mod Cascade
pub mod Config
pub mod Telemetry
pub mod Json
pub mod Ids
pub mod Launcher
pub mod Store
pub mod Schema
pub mod Worker
mod Tests
pub mod Ws
pub mod Api
pub mod Pipeline
pub mod History
