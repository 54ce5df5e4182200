-- ===== src/Lib.antt =====
-- A model of the course's post-quantum inspection laboratory: the shared domain crates, the CAVP
-- grader, the command-line adapter, the worker and the API.
--
-- The API (services/api) stores a test as a row of `tests` with a row of `subtasks` for each pair
-- of a group and a signature algorithm, and puts a job for each on a Redis stream. The worker
-- (services/worker) takes a job, has an adapter make one TLS handshake, classifies the outcome,
-- stores it, tells the browser over a Redis channel, and closes the test when no subtask is left.
-- A KEM run is one job that makes many handshakes and keeps a log. The grader
-- (crates/cavp-validate) compares a submitted `results.json` with an answer key; the API calls it
-- for a session and stores what it reports. An adapter (adapters/cli) runs a TLS stack's client
-- and reads the report of the handshake off its output.
--
-- Proto: crates/adapter-proto/src/lib.rs, the contract between worker and adapters.
-- Domain: crates/pqcas-domain/src. Status has the vocabularies of status.rs, Jobs and Models the
--   records of jobs.rs and models.rs, Classify the function `classify` of lib.rs.
-- Cavp: crates/cavp-validate/src. Params is params.rs; Report and Grade are the data and the
--   functions of lib.rs; Fields, Decisions, Cases, Validation and Marks are about what they
--   decide.
-- Api: services/api/src/routes. Errors is error.rs; Database has the tables and streams that the
--   handlers use and the calls of the database and of Redis, Outcome rules for what a handler
--   answers and leaves. Selection is the cleaning of what a new test selects and the choice of an
--   adapter, Creation what `create_test` accepts, Grid the expansion into subtasks and the
--   matrix, Tests the whole of `create_test`, Reading what is read back, all of tests.rs, with
--   the lists of kem.rs and catalog.rs. Subtasks is subtasks.rs, KemRuns the creation of a run of
--   kem.rs, Catalog that of an endpoint of catalog.rs, Cavp the packs and sessions of cavp.rs,
--   Health health.rs and what sse.rs relays, Live the streams of events with sse.rs. Ordinals,
--   Number, Collected, Axes, Known, Atomic, Shown, Neighbours, Created, Upserted and Sessions are
--   about these.
-- Api.Seed, Api.Upsert: services/api/src/seed.rs. Tables has the seeds and their tables, with the
--   constraints of services/api/migrations/0001_init.sql; Upsert is one statement on any table.
--   Files and their JSON are the record `Files`. Loops, Passes, Stages, Repeated, Contents and
--   Upsert.Last are about these.
-- Adapter: adapters/cli/src. Config and Groups are the configuration of main.rs and the names of
--   groups, Args the command lines, Output what is read off a client's output, Response and
--   Stacks the reports of the three stacks and the stand-in `mock`, Run the launch of a client
--   and the endpoint for probes. Spelling, Lists, Bounds, Report, Mock and Reports are about
--   these. The process that is launched, the clock, base64 and `char::is_numeric` are the record
--   `Host`.
-- Worker.World: the state of the worker's surroundings, which its actions read and write, and the
--   calls of the database and of Redis.
-- Worker.Adapters: services/worker/src/adapters.rs, struct `AdapterRegistry`.
-- Worker.Settings: services/worker/src/config.rs; Lookup is about the map of the
--   adapters.
-- Worker.Store, Worker.Closing: services/worker/src/store.rs, and when a test is closed; Counts has
--   the counts that it is closed with.
-- Worker.Probe: services/worker/src/probe.rs, function `handle`. Recorded, Invariant and Settled are
--   about one job, Due, Ended, Completed and Kept about the jobs of a test, one after the other.
-- Worker.Kem: services/worker/src/kem.rs. Console is struct `Console`, Texts has what a run
--   writes and asks, Order is `evaluate_order`, Run has the three modes and `handle` as
--   `handle_kem`. Offers and Recovery are about the loop of the priority test, Rounds about its
--   fuel, Numbering about the log, Fresh and Redelivered about first and later deliveries.
-- Worker.Stream: services/worker/src/stream.rs. What Redis answers and how its values convert is
--   the record `Redis`; Entries is about the answers for the entries of a stream.
-- Worker.Delivery: services/worker/src/main.rs, the task that `tick` spawns for a delivery.
--   Batch is about the deliveries of a test's jobs, one after the other.
-- Worker.Process: services/worker/src/main.rs, the loop of `main` and `tick`: `fetch` is what a
--   tick asks Redis for, and the relation `Step` has the steps of the tick, of its tasks, of the
--   signal and of the other workers of the group, in any order. Permits, Delivered and Drained are
--   about what such steps reach.
-- Worker.Tasks: services/worker/src/probe.rs, `handle`, as `tick` of main.rs spawns it, cut where it
--   awaits the database, Redis or an adapter: `advance` is one turn of a task, the relation `Step`
--   a turn of any task or other work on the tables. Alone is about a task that nothing comes
--   between; Outcomes, Tables, Turns, Calls, Sound, Watched, Closed, Whole and Progress about the
--   tasks of a test in every order of their turns.
-- System: the API and the worker on one database. Queued is about what the API leaves.
-- Worker.Rules: rules for invariants and for outcomes of actions.
-- Json: the operations of `serde_json` that the grader calls, as parameters; `hex::decode` is the
--   parameter `decode`.
-- Prelude: lists, texts, integers and results. Tests: runs on concrete inputs.
--
-- Texts are lists of code points. A UUID is a number, and so is a time stamp: the count of the
-- calls made so far. An action of the worker takes the world to a result and a world. A call of
-- the database or of Redis works, is refused with no effect, or has its effect while its answer
-- is lost; which of the three is a function of the call's number, as are the answers of adapters.
-- A handler of the API is the same over the API's tables; the identifiers and times of new rows
-- and the order in which `RETURNING` lists rows are functions too. The loop that probes a
-- server's preference order runs on fuel, the length of the first offer: a round that goes on has
-- fewer groups to offer, so that more fuel changes nothing.
--
-- In Worker.Process a task is two steps, the end of its job and the end of the task, with its
-- acknowledgement. XREADGROUP makes an entry pending, also when its answer is lost or `collect`
-- drops the entry for want of a `job`, XACK ends that, and XAUTOCLAIM answers pending entries; the semaphore is a count. What a job does to the
-- database is in Worker.Probe and Worker.Kem, as one action, and in Worker.Tasks with the turns
-- of other jobs between its calls; a transaction is one turn, and the tasks have one capability
-- cache, as those of one worker do. The number of permits is a `usize` that is cut to 32 bits at
-- the shutdown; it is small in practice.
--
-- Not modelled: the wiring of the two services and of the adapter, which consists of calls of
-- libraries: the API's table of routes with its layers for compression, timeouts and origins
-- (routes/mod.rs, axum and tower), its connections (state.rs), the binding of ports, logging, and
-- the reading of the command line and of the environment by clap; the encoding of records as JSON
-- and as rows, which serde and sqlx derive; the Go adapter and the web application, which are
-- programs in other languages; the seeds' contents, build files and container images. The
-- sequence number of the console is an i32 in the code; a run does not write enough lines to pass
-- its bound.
pub mod Prelude
pub mod Json
pub mod Proto
pub mod Domain
pub mod Cavp
pub mod Worker
pub mod System
pub mod Adapter
pub mod Api
pub mod Tests
