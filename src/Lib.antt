-- ===== src/Lib.antt =====
-- A verification library for remelonDB, a local-first database: an SQLite store on each device whose
-- tables are synchronized with a server through pulls and pushes.
--
-- The parts and their files. Paths are from the root of the repository.
--
-- Wire: packages/core/src/sync/types.ts. What crosses the wire between client and server, and the
-- untyped JavaScript values in it. A JavaScript number is told apart as far as the program tells
-- numbers apart. An object used as a dictionary is a list of entries in insertion order, and so is
-- a Map. Keys of wire objects are taken to be other than the members of Object.prototype.
--
-- Server: packages/server/src. `Store` is the seam (store.ts): a record of operations on a state,
-- each asynchronous method a function of the state. `Engine` (engine.ts) is the protocol over any
-- such store: `Partition` reads the request, `Screen` refuses ids and finds conflicts, `Hooks` runs
-- the cross checks, `Apply` writes, `Reply` collects, `Push` and `Pull` compose these as the handlers
-- do; the entries that the source mutates are passed on from step to step. `Cursor` is the codec of
-- cursors. `Memory` (memoryStore.ts) is the store in memory, and `Protocol` is the engine over it.
-- A transaction runs as one step, which is what the seam demands of a store, so the chain of
-- promises that serializes pushes is not modelled.
--
-- Schema: packages/core/src/schema and utils/checkName.ts. `Names` are identifiers and taken names,
-- `Tables` the columns, tables and the application schema, `Migrations` the paths between versions,
-- `Encode` the statements of encodeSchema.ts. A function that throws returns a result.
--
-- RawRecord: packages/core/src/rawRecord/index.ts. Values, records and `sanitizedRaw`; the random id
-- is an argument.
--
-- Sync: packages/core/src/sync. `Sync` is helpers.ts, `Resolve` and `Apply` are applyRemote.ts, `Mark`
-- is fetchLocal.ts and markAsSynced.ts. What the database's queries return is an argument, the
-- batch of operations is the result. `btoa` and `atob` are parameters. `Migration` and `Synchronize`
-- are synchronize.ts: a device is a record of operations on a state, and what waits returns the state
-- that it leaves, in which anybody may have written; a run returns its calls beside its result, and
-- the attempts that are left are its fuel, as many as the source allows. `Controller` is
-- controller.ts: its variables are a record, and what happens to it is a list of events; the promises
-- that it hands out are numbers.
--
-- Query: packages/core/src/query. The tree of ast.ts, the builders of Q.ts (`Build`, `Describe`) and
-- the encoder of encodeQuery.ts (`Encode`), which returns a text and the arguments of its placeholders.
--
-- Database: packages/core/src/database. `Batch` is encodeBatch.ts, which reads the tables of
-- the schema from a plain object: a name that every object inherits is found there. `Queue` is
-- WorkQueue.ts, with the end of the work in progress and the microtask as events.
--
-- Broker: packages/driver-web/src/shared-worker.ts and the messages of protocol.ts. `State` holds its
-- variables, `Slots` the arbitration of writes, `Leases` the sync leases, `Changes` the check of a
-- change set, `Traffic` the routes and the backlog, `Recruit` the search for a host and the adoption
-- of a worker, `Epoch` the answers, probes and resets, `Handle` the request handler and all events.
-- Ports are numbers; what is posted is a list; the ports that the broker makes up for itself are cases
-- of a route or of an asker. Timers are events, and do nothing when they are not armed. The
-- constructor `Worker` and JavaScript's `Number` are parameters. Loops are structural.
--
-- Prelude: Boolean tests, lists, maps, sets, texts and results that the parts share.
--
-- Every other loop of the source is structural recursion on its list. Only the digits of a revision
-- are written with fuel: one more than the number, which has fewer digits than that.
--
-- Not modelled: the coalescing of concurrent runs of the sync client, the database class with its
-- cache, collections, models and live queries, React and zod bindings, the drivers for Node, React
-- Native and the web with the server of the compute worker, the transport, the Drizzle store, the
-- conformance suites and the adapters for NestJS. SQLite is third-party code.
pub mod Prelude
pub mod Wire
pub mod Broker
pub mod Schema
pub mod RawRecord
pub mod Sync
pub mod Query
pub mod Database
pub mod Server
