-- ===== src/Lib.antt =====
-- Scout, a distributed transactional key-value database: the coordinator of transactions on an API
-- server, the transaction layer of a data partition, its locks, its clock, the emulated multi-version
-- store, the keys of the graph, and the state machine of the control plane.
--
-- A data server runs one Raft group for each partition. The log of a group carries batches of
-- transaction commands, and each replica applies them, in order, to the transaction manager of the
-- partition (internal/data/server/txn/manager*.go). The manager keeps the status of each
-- transaction, the prepared transactions with their locks and decisions, and the highest timestamp
-- it has applied; it reads and writes a multi-version store. Readers ask it for a safe timestamp.
-- An API server calls the service of each partition that takes part in a transaction; the service
-- of the leader gives writes to the writer, which sends them to Raft in batches, and reads to the
-- reader.
--
-- Files:
-- - Base: Boolean tests, lists, association lists for Go maps, byte strings, 64-bit words.
-- - Txn: the messages of internal/data/data.proto and internal/data/data_txn.go; Txn/Locks has
--   `BuildLock` and `CompatibleWith`, Txn/Locks/Covers what they decide.
-- - Mvcc: records and their encoding (internal/data/server/storage/mvcc/db.go, value.go);
--   Mvcc/Emulated is emulated.go, over a key-value store that is a record of two operations, and
--   Mvcc/Emulated/Reads says what its reads return.
-- - Kv: addresses of the key-value store (internal/data/server/storage/kv/address.go), with their
--   order in Kv/Order and their successors in Kv/Next. Kv/Inmem is the in-memory store
--   (internal/data/server/storage/inmem/inmem.go), Kv/Inmem/Search its binary search, and
--   Mvcc/Emulated/Stored puts emulated.go on top of it.
-- - Manager: the state of the manager and the commands. Manager/Locks is manager_locks.go;
--   Manager/Validate, Manager/Apply and Manager/Batch are manager_apply.go; Manager/Snapshots is
--   the rest of manager.go. Names are the source's in snake case: `applyCommit` is `apply_commit`,
--   and the `switch` of a command is a function of its own (`commit_in`).
-- - Manager/Steps describes what the commands do as a relation between states, and
--   Manager/Steps/Commands shows that each command is one of its moves. Manager/States, Exclusion,
--   Completion, Runs, Cleanup, Invariant, SafeTime, Kept, Faults, Retry, Restart, Order and Released
--   draw conclusions for whole batches.
-- - Txn/Validation: the `Validate` methods of internal/data/data_txn.go; Manager/Requests says
--   what they give to the manager.
-- - Hlc: the hybrid logical clock (internal/hlc/hlc.go); Hlc/Order is about the order of
--   timestamps.
-- - Watchdog: the main loop of internal/data/server/txn/watchdog_2pc.go as a step on an event;
--   Watchdog/Known and Watchdog/Timedout say which transactions it resolves.
-- - Writer: internal/data/server/txn/writer.go, which gathers commands into batches;
--   Writer/Answers, Loop and Stamps are about the answers, the callers and the timestamps.
-- - Reader: internal/data/server/txn/reader.go; Reader/Ranges is about the limit of a range read, and
--   Reader/Stable about the check of a read timestamp and what is committed after it.
-- - Service: internal/data/server/txn/service.go; Service/Guards says which commands reach the writer.
-- - Api: the transactions of an API server (internal/api/server/txn). Api is txn.go, partitioner.go
--   and the calls of the data client, with Api/Append about the numbers of actions. Api/Coordinator
--   is processor_2pc.go: Coordinator/Protocol lists the ways in which a run can end,
--   Coordinator/Second and Cases show that these are all, Coordinator/Votes, Channel and Abort are
--   about the answers, the channel and the end of an abort, and Coordinator/Agreement, Calls and
--   Justified draw conclusions. Api/Process is processor.go with processor_read_only.go and
--   processor_read_snapshot.go, and Api/Process/ReadOnly says when a read succeeds.
-- - Graph: the keys of vertices and edges (internal/api/server/graph/encoding.go); Graph/RoundTrip
--   decodes what was encoded.
-- - Control: the cluster state of internal/control/control.proto. Control/Counts and
--   Control/Messages are internal/control/control.go, with Control/Messages/Dense about routing
--   tables. Control/Fsm is the state machine
--   of internal/control/server/storage: Fsm/Assignments is fsm_init_assignments.go and
--   fsm_update_assignments.go, Fsm/Members is fsm_bootstrap.go, fsm_register.go and
--   fsm_update_status.go, Fsm/Apply is fsm.go. Fsm/Invariant is about the well-formed state of a
--   cluster, Fsm/Edges about the checks of a change of the assignments (Edges/Turns, Fates,
--   Loops and Changes about what it makes of each replica, Edges/Serving about the last one that
--   serves),
--   Fsm/Covered about the first assignment, Fsm/Stamps, Fsm/Versions and Fsm/Repeats about clients that
--   write only if nothing has changed, and that ask twice.
-- - Assigner: internal/control/server/leader/partitions/state.go, and Assigner/Transition is
--   transition.go, Assigner/Commands update.go. Assigner/Rebalance and Assigner/Limits are about the end of the computation and
--   the limits of joining replicas, Assigner/Serving about the replicas that serve.
-- - Tests and the modules named Tests below Manager, Hlc, Watchdog, Api, Writer, Reader, Service, Graph, Kv/Inmem, Control,
--   Assigner and Mvcc/Emulated run the definitions on small data.
--
-- State is passed explicitly: a command takes a `Manager S` and returns the new one beside its
-- result, which is a status or an error. A Go map is an association list that is read through
-- `lookup`; its iteration order is the list's order. A 64-bit timestamp is a natural number, and a
-- subtraction that can wrap around is written `sub_u64`. A panic (a nil dereference, an index out
-- of range) is `none` or the result `nil_dereference`. The loops are over lists, so they need no
-- fuel, but for the two of the clock, which try three times as the source does and then shut down
-- (`max_retries`), the binary search, whose fuel is the length of the list (its interval loses an
-- element in each turn), the rebalancing of replicas, whose fuel is the number of replicas that may
-- join plus one, and the digits of a number, whose fuel is the number plus one.
--
-- Parameters: the store behind `mvcc.DBBreaker` and the protobuf encoding of a value are the
-- record `Manager.Env`, with no law assumed about them, and the store behind `kv.DB` is `KvDb`;
-- the wall clock of the cleanup and the Raft index are arguments of `apply_batch`, and the clock
-- and the watchdog take readings of the wall clock as arguments. For the API server, the answers of
-- the partitions are a function of the call (`respond`), the goroutines of a phase are answered in
-- an order that is a parameter (`order`, a permutation), the messages of an abort are merged by a
-- parameter (`arrive`, whose law `Merges` keeps the order of each goroutine), and the hash of a key
-- is one too. A wait for ever on a channel is the outcome `hangs`.
--
-- Not modelled: meters, logs and mutexes (each operation of the manager runs under its lock); the
-- Raft library, RocksDB and gRPC, which are third-party code; of the API server, the retries of its
-- data client and the graph and key-value services; of a data server, the life cycle of partitions
-- and the start of a leader; the rest of the control server, and the client packages.
pub mod Base
pub mod Txn
pub mod Mvcc
pub mod Hlc
pub mod Manager
pub mod Watchdog
pub mod Api
pub mod Writer
pub mod Reader
pub mod Service
pub mod Kv
pub mod Graph
pub mod Control
pub mod Assigner
pub mod Tests
