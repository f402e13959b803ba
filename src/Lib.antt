-- ===== src/Lib.antt =====
-- AegisDB core: the Raft consensus core, the store of regions above it, the multi-version transaction
-- layer with its latches, the storage engine below both, and the placement driver with its scheduler.
--
-- A node is driven from outside: the application gives a RawNode ticks, proposals and messages, takes
-- a Ready from it (entries to store, entries to apply, messages to send), and reports with `advance`
-- that it is done. Inside, Raft::step dispatches a message by the role of the node to handlers that
-- change the node and push messages. A transaction reads its keys at its start time through MvccTxn,
-- which collects the writes that the server then stores; latches keep the keys of two commands apart.
-- The placement driver hears of regions in heartbeats: BasicCluster keeps them, and OperatorController
-- moves the operator of a region forward and sends the next step's command back.
-- A store keeps a raft node for each of its regions: the node reads its log from the database through
-- PeerStorage, a committed split divides a region in StoreMeta, the split checker chooses the key, and
-- the failure detector watches the other nodes. What a store writes and a client reads goes to a
-- database with column families, through batches, and through a cache where it is the standalone one.
--
--   Prelude       shared helpers: results, wrapping u64 arithmetic, slices, association lists, bytes
--   Raft/Types    src/raft/types.rs, src/raft/storage.rs
--   Raft/Progress src/raft/progress.rs
--   Raft/Log      src/raft/log.rs; Shape says what a well-formed log is, Append, Views and Terms
--                 prove what the operations do on it
--   Raft/State    src/raft/raft.rs: the state of a node, and how its methods are put together
--   Raft/Replicate, Raft/Follow, Raft/Elect, Raft/Step
--                 src/raft/raft.rs: the leader's side, the follower's side, elections and roles, and
--                 the dispatch of messages with clock and membership
--   Raft/RawNode  src/raft/rawnode.rs
--   Mvcc/Codec    src/transaction/mvcc/codec.rs; Order compares the keys that it makes
--   Mvcc/Records  src/transaction/mvcc/write.rs, src/transaction/mvcc/lock.rs
--   Mvcc/Txn      src/transaction/mvcc/transaction.rs, src/storage/modify.rs
--   Mvcc/Scanner  src/transaction/mvcc/scanner.rs
--   Latches       src/transaction/latches/latches.rs
--   Server        src/server/transaction_api.rs: Prewrite, Commit, Rollback, CheckTxn and Resolve are
--                 kv_prewrite, kv_commit, kv_batch_rollback, kv_check_txn_status and
--                 kv_resolve_lock, Read is kv_get and kv_scan; the types of
--                 src/proto/kvrpcpb.rs that these use, the trait Storage of src/storage/mod.rs
--   Scheduler     src/scheduler: Region, Store and Cluster are src/scheduler/cluster/region.rs, store.rs
--                 and basic_cluster.rs, Operator is src/scheduler/operator/operator.rs, Controller is
--                 src/scheduler/operator_controller.rs, Filter is src/scheduler/filter/filters.rs,
--                 BalanceRegion, BalanceLeader and Scale are those schedulers; the messages are
--                 in src/proto/schedulerpb.rs and proto/metapb.proto
--   KeyCodec      src/util/multi_level_key.rs
--   RaftStore     src/raftstore: Range is util.rs, StoreMeta is store_meta.rs, Admin is admin.rs, Meta
--                 is meta/keys.rs, meta/values.rs and meta/mod.rs, PeerStorage is peer_storage.rs and
--                 the parts of peer.rs that build a node, RegionTask is region_task.rs, SplitChecker
--                 is split_checker.rs with the messages of peer_msg_handler.rs that lead to it,
--                 Balancer is store_balancer.rs and region_allocator.rs, Health is failure_detector.rs,
--                 Recovery is recovery.rs
--   Engine        src/engine_util/write_batch.rs, util.rs and engines.rs, src/config/mod.rs; Standalone
--                 is src/storage/standalone_storage.rs and src/storage/reader.rs
--   Pd            src/pd/state.rs and id_allocator.rs
--   Examples      under each component: concrete inputs, and the theorems at them
--
-- How the model stands to the code:
--   * a method that changes the node takes it as an argument and gives back a pair of a result (ok, an
--     error or a panic) and the node, so the state after an error is the state that the code leaves;
--   * most handlers of raft.rs stand twice in it, once synchronous and once with `async`; both are one
--     definition with an argument of type Mode, which chooses how the term of an entry is looked up;
--   * a u64 wraps around at 2^64, as in a release build; a slice out of range panics;
--   * a HashMap is an association list, in the order in which the map is iterated; no theorem assumes
--     an order;
--   * loops over lists are structural recursion, and a loop that counts recurs on its counter, so no
--     fuel is used anywhere;
--   * the random generator is an argument (Rand) with the range that rand documents for gen_range; the
--     serializer of configuration changes is an argument; the Storage of a log and the Reader of a
--     transaction are records of results that the caller supplies. What a theorem on reads needs of
--     the reader is its hypothesis Holds: a seek to a key's newest version lists its versions, newest
--     first.
--   * the texts of errors and the descriptions of operators leave out the numbers that the code formats
--     into them; the name of a column family is any text, as bytes;
--   * latches run under their lock, one call at a time; a wait that blocks is none;
--   * a handler gives its result, the store and the latches; where an early exit of the code leaves
--     the latches held, the model does too. The store is an argument (Engine): a reader, and a batch
--     of writes that may fail and still change it;
--   * the scheduler's calls read the clock, which is an argument, in nanoseconds; a call of the cluster
--     or of the controller is one step; what is sent on the heartbeat streams is a list; a call that
--     waits for a lock it holds itself is the value deadlock; log lines are left out;
--   * a handler or a pass of a scheduler sees one store and one cluster: what other calls change between
--     two of its reads is not modelled. sort_by is a stable insertion sort, and kv_get's test for a
--     substring is an argument.
--   * a database is an argument: a record of its reads and writes, which may fail, and, where a
--     theorem needs it, of the rows that it holds (Db, Scan). A theorem's hypotheses on it say that a
--     read after a write gives what was written, or that a scan gives the rows in the order of their
--     keys. The cache is an argument too, which may drop what it holds;
--   * the encodings of records (bincode, prost), from_utf8_lossy and the order of the floating-point
--     scores of stores are arguments.
--
-- Not modelled: the other server endpoints; the tiered storage, the iterators over RocksDB and the
-- write-ahead log; the threads and channels of the raft store (its router, its workers and their
-- messages) and the client of the scheduler; the HTTP and gRPC service of the
-- placement driver; the other protocol types; the binaries. For the most part these are input and
-- output, over RocksDB, sockets, channels and files.
pub mod Prelude
pub mod Raft
pub mod Mvcc
pub mod Latches
pub mod Server
pub mod Scheduler
pub mod KeyCodec
pub mod Engine
pub mod RaftStore
pub mod Pd
