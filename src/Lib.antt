-- ===== src/Lib.antt =====
-- Verification of the decentralized hive mind: an orchestrator splits jobs into sub-tasks, which nodes
-- run and are paid for.
--
-- The program has four crates. `common` has the types, the credit formula and the keys;
-- `orchestrator` is an HTTP service over PostgreSQL and a Redis stream; `node-client` is the program
-- of a node; `keygen` prints keys. A request to the orchestrator is signed, passes the middleware,
-- reaches a handler, and the handler runs SQL statements. A loop dispatches the sub-tasks that are
-- ready: it claims rows of the table `sub_tasks` and appends them to the stream.
--
-- Where the parts are, with paths from the repository's root:
--   Prelude                    lists, text, integers and tests that the other modules share
--   Common.Float64             `f64` as a parameter with the laws of IEEE 754 that are relied on
--   Common.Crypto              SHA-256, hexadecimal and Ed25519 as parameters
--   Common.Identity            common/src/identity.rs
--   Common.Types               common/src/types.rs; Common.Types.Dag is its `TaskDag`
--   Common.Credits             common/src/credits.rs
--   Orchestrator.Error         orchestrator/src/error.rs
--   Orchestrator.Db            orchestrator/migrations/001_initial.sql, and the connections to the
--                              database and to Redis of orchestrator/src/state.rs
--   Orchestrator.Validator     orchestrator/src/validator.rs
--   Orchestrator.Dag           orchestrator/src/dag.rs
--   Orchestrator.TaskManager   orchestrator/src/task_manager.rs
--   Orchestrator.Routes.Tasks  orchestrator/src/routes/tasks.rs
--   Orchestrator.Routes.Nodes  orchestrator/src/routes/nodes.rs and orchestrator/src/routes/admin.rs
--   Orchestrator.Routes.Jobs   orchestrator/src/routes/jobs.rs
--   Orchestrator.Routes.Listings  list_jobs, list_nodes and flagged_nodes of orchestrator/src/routes
--   Orchestrator.RateLimit     orchestrator/src/middleware/rate_limit.rs
--   Orchestrator.Privacy       orchestrator/src/privacy.rs and the `PiiMap` of common/src/types.rs
--   Orchestrator.Auth          orchestrator/src/middleware/auth.rs, and the layers of main.rs
--   Orchestrator.Invariant     the invariant of the tables
--   Orchestrator.Service       requests and rounds of the task manager as steps of one machine
--   Orchestrator.Router        the routes of orchestrator/src/main.rs with their layers
--   NodeClient.Effect          results of the crate anyhow, and code that changes a state
--   NodeClient.Disk            the files that the client reads and writes, with failures of calls
--   NodeClient.Http            the requests that the client sends, and the clock
--   NodeClient.Signing         the signed requests of node-client/src/main.rs
--   NodeClient.Runner          node-client/src/runner.rs: entries of the stream and reported results
--   NodeClient.Worker          node-client/src/runner.rs: the loop, the inference and the report
--   NodeClient.Wallet          node-client/src/wallet.rs
--   NodeClient.Config          node-client/src/config.rs
--   NodeClient.Terminal        node-client/src/ui.rs, and texts that are shortened
--   NodeClient.Commands        node-client/src/main.rs: Local has `setup` and `wallet`, Submit has
--                              `job submit`, Jobs the other commands for jobs
--   NodeClient.Program         node-client/src/main.rs: `main`, which loads the configuration and the
--                              key and runs a command
-- The modules named Tests hold examples.
--
-- How the code is translated. The state is a record `World` of the tables, the stream, and the
-- failures of calls that are to come; a handler is a function from a world to a result and a world,
-- written with `do`. A SQL statement is a function on the tables; a constraint that it would break is
-- an error. No handler opens a transaction, so what a handler has written before an error stays
-- written, as in the code. Each handler runs to its end before the next one starts, so interleavings
-- of two handlers are not covered. Rows that another replica has locked are a parameter of the
-- dispatcher. Each call takes one time for `NOW()` and `Utc::now()`, and takes its random ids and
-- nonces, as arguments. Times are milliseconds since the epoch. Integers are those of a release build:
-- `u32` and `i64` wrap around. Text is a list of Unicode scalar values. Floating-point values are
-- finite. Logging is left out.
--
-- The client runs in a state of what is outside of it and of the lines that it has printed. Replies,
-- the clock and random bytes come from outside; calls of the file system fail as a list of failures
-- in the state says, and a write that fails leaves a prefix of its text. Paths are compared as they
-- are written, so a part `..` is not resolved; what is said of receipts is said of nonces without a
-- slash. An entry of the stream can leave the group of the workers without the worker that is
-- modelled: another acknowledges it, or it is deleted.
--
-- The extractors of the crate axum, which refuse a body or a parameter that is not as it should be,
-- are parameters, as are the crates below. A path without a route, and a route with a method that it
-- does not have, are answered behind the layers, as axum does.
--
-- The crates sha2, ring, hex, ed25519-dalek, regex, serde_json, petgraph, reqwest, redis and governor
-- are parameters, with what they document as laws. The loops of the code are structural recursions,
-- and the decimal printing of a number has one more step of fuel than the number, which has no more
-- digits. The loop of a worker does not end: its first rounds are modelled, for any number of them.
-- The loop of `job wait` has a number of turns; it ends if that is larger than the number of polls
-- that report no last status.
--
-- Not modelled: the clearing of memory that held a key or a map of placeholders; TLS, the
-- configuration of the orchestrator, the parsing of options, colours, the banner, the spinner, the
-- lines that a worker prints for a task, the program that prints keys, and the start of the services,
-- which are input and output.
pub mod Prelude
pub mod Common
pub mod Orchestrator
pub mod NodeClient
