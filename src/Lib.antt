-- ===== src/Lib.antt =====
-- Seata server: a coordinator of distributed transactions. A client starts a global transaction,
-- adds branches to it, each with the URL of an action, and submits it. The server posts to the URL
-- of every branch, retries for a while, and commits the transaction if no branch failed. Clients
-- of the TCC style report the phases of their branches themselves, behind a barrier that lets each
-- phase of a branch pass once.
--
-- The parts, with the source of each under seata-server/src/:
--
--   Domain            domain.rs: transactions, branches, barrier phases, with the constructors and
--                     fields of the source in snake case; Domain/UnitTests has the file's tests.
--   Kv                storage/mod.rs: the trait `KV` as a record, and its contract `KvLaws`.
--   Kv/Mem            test_utils.rs: the store of the tests, which meets the contract.
--   Kv/Sled, Kv/Sea, Kv/Redis
--                     storage/sled_kv.rs, sea_kv.rs, redis_kv.rs: the backends, each over a record
--                     for the calls of its client and the contract that these keep.
--   Kv/Calls          sequences of `get`, `put` and `delete`, compared with a map in Kv/Calls/Stores.
--   Repo              repo.rs: the trait `TxnRepo`, and `DynTxnRepo` (`save`, `load`, `list`) over a
--                     `KV` and a serializer.
--   Repo/Laws         the contract `RepoLaws`, which the manager's theorems take, met by
--                     `DynTxnRepo` over every lawful store; Repo/Pages is about the pages of `list`.
--                     Repo/Starved: a repository and barriers in one SQL table.
--                     Repo/InMemory: test_utils.rs, the repository and the manager of the tests.
--   Barrier           barrier.rs: `key`, `exists`, `insert`; Barrier/Keys is about the keys,
--                     Barrier/Laws about the set of barriers and its neighbours in the store,
--                     Barrier/Race and its children about two calls at the same time, as sequences
--                     of accesses, Barrier/Calls about sequences of calls; Barrier/UnitTests has the
--                     file's tests.
--   Saga/World        the state and the environment of a manager (below).
--   Saga/Branch       saga.rs, in `submit`: the task of one branch with its retry loop; its children
--                     are about the jitter, the end of the loop, and how long it takes.
--   Saga/Settle       saga.rs, in `submit`: the pure parts, and their reference in Settle/Reference.
--   Saga/Manager      saga.rs: `start`, `submit`, `abort`, `add_branch`, `branch_succeed`,
--                     `branch_fail`, `get` and `list` of `SagaManager`.
--   Saga/Spec         what the operations promise, as functions on the stored transaction;
--                     Saga/Steps, Saga/Edits, Saga/Ending and Saga/Submit are about the promise
--                     kept by operations that return, Saga/Outcomes about sequences of them.
--   Saga/Evolution    the saves of the operations as a step relation on one transaction;
--                     Saga/Histories is about operations on every path, errors included,
--                     Saga/Unique and Saga/Invariant about what stays true of all transactions,
--                     Saga/Returns about operations that return, Saga/Interrupted about what a
--                     submission leaves wherever it ends, Saga/Kept about what every sequence of
--                     operations keeps of a transaction, Saga/Workflow about the life of one from
--                     its start to its end; Saga/UnitTests has the tests of saga.rs.
--   Saga/Concurrent   the same operations as programs that stop at their await points, and a server
--                     that plays a sequence of events: a request arrives, takes a turn, or is
--                     dropped by the time limit of main.rs. Concurrent/Alone and Serial compare them
--                     with Saga/Manager. Concurrent/Safety, Turns and Isolation are about what holds in
--                     every interleaving; Overwrites, Dropped and Twice are about a submission with
--                     others between its turns, one that is dropped, and two at the same time;
--                     Projection compares the server, at one transaction, with a server that
--                     stores this transaction only, and Projection/Sequence, by it, with the
--                     manager.
--   Saga/Permits      saga.rs, in `submit`: the tasks under the semaphore as a step relation;
--                     Permits/Completes is about its runs.
--   Server            main.rs: Server/Http, Server/Grpc and Server/JsonRpc are the front ends,
--                     Server/Query the query parameters, Server/Agreement a comparison, Server/Once
--                     about calls behind the barrier, Server/Admin the metrics page and the admin
--                     proxy, Server/Router the routes.
--   Server/Inflight   main.rs: the calls of the API that change state in flight at once, with those that
--                     stand behind a barrier: Inflight/Safety, Isolation, Barriers and Steps are
--                     about what holds in every interleaving, Inflight/Alone about one call without
--                     others.
--   Settings          settings.rs: the settings, their defaults, and `load`; Settings/Override is about
--                     the port that the environment gives.
--   Launch            main.rs, the start: the stores that are chosen and opened, with Launch/Choice
--                     about the choice, Launch/Constructors for the constructors of the stores,
--                     Launch/Registration for what is registered in etcd, Launch/Etcd for
--                     `register_to_etcd`, Launch/Ending for the end of `main`,
--                     and Launch/Startup for `main` as a whole.
--   Tests             a serializer, a world in which everything runs, and runs in it.
--
-- State. An operation is a function `Io S A` from a state to a result, `ok` or `err`, and the next
-- state; a call that fails may have changed the state. A manager's `World` is the state of the
-- repository with the counts of clock readings and UUIDs so far, the tasks spawned so far, in
-- order, and the metrics; of the latency histogram, the number of observations is kept. The
-- environment `Env` gives the n-th reading of the clock, the n-th UUID, base64, and, for each task,
-- the reply and the duration of each attempt of its request, and by how much the sleep after it
-- overruns. A task takes effect where `submit` joins it: tasks share no state but the counters, and
-- `submit` joins them all before it saves. A task that is still running when its fuel is gone has no
-- result, and a submission does not go on without the results of all its tasks; Saga/Joined and
-- Concurrent/Awaited are about the fact that it has them.
--
-- Bytes, characters of texts and machine words are native natural numbers. Where the source may
-- wrap, the wrap is written out: the jitter adds modulo 2^32, `offset + limit` modulo 2^64. In
-- Saga/Manager every operation is run to its end, and Saga/Histories covers a failure of any call of
-- the repository within; in Saga/Concurrent a call of the repository, a reading of the clock and the
-- wait for all tasks are one step each, and other requests come between; in Server/Inflight so are
-- the read and the write of a barrier.
--
-- Fuel. The retry loop of a task gets one unit more than the nanoseconds of
-- `timeout_to_fail_secs`. Every attempt takes at least one nanosecond, so the loop ends before its
-- fuel does. The loop over the cursor of Redis gets any fuel above the number of rounds of a full
-- iteration, which Redis documents to be finite. All other loops are over lists.
--
-- Parameters for code that is not in the repository: serde_json as a `Serde` that reads back what
-- it writes; serde's reading of an untagged enum; the HTTP client; axum's router; clock, UUIDs and
-- base64; sled, the SQL table, the Redis client (what the reply to a pipeline gives
-- included), the etcd client and the drivers that open a store; what the
-- config crate reads from files and environment. The repository and the barrier are
-- over any `KV` that meets `KvLaws`.
--
-- Not modelled: the transports, the sockets and the decoding of bodies (axum, tonic); the log
-- lines of main.rs; the merging of configuration files by the config crate;
-- a panic of a task; scheduler.rs, which does nothing.
pub mod Base
pub mod Domain
pub mod Kv
pub mod Repo
pub mod Barrier
pub mod Saga
pub mod Server
pub mod Settings
pub mod Launch
pub mod Tests
