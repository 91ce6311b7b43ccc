-- ===== src/Lib.antt =====
-- client-go: the Go client of TiKV, and the in-memory store that its tests run against.
--
-- Before a transaction commits, latches in the client keep it from others with the same keys.
-- A transaction of the client is a sequence of requests to the store: each key is prewritten,
-- which puts a lock on it, and then committed, which turns the lock into a version, or rolled
-- back, which leaves a record that bars the transaction. Readers that meet a lock ask for the
-- status of its transaction. Keys and versions travel in encodings that compare like the data.
-- The modules:
--
--   * Base: shared names, lists, byte slices and their order (`bytes.Compare`, `bytes.Equal`).
--   * Codec.Bytes: util/codec/bytes.go. `encode_bytes` is `EncodeBytes`, `decode_bytes` is
--     `DecodeBytes`; RoundTrip and Order hold the proofs, Spec the shape of an encoding.
--   * Codec.Number: util/codec/number.go. An `int64` is its bit pattern, a number below 2 ^ 64.
--     Fixed, Comparable and Signed hold the proofs; BigEndian what they share.
--   * Kv: kv/key.go; Kv.Flags: kv/keyflags.go, on the set of bits. KvRpc:
--     internal/kvrpc/batch.go. Oracle: oracle/oracle.go.
--   * Deadlock: internal/mockstore/deadlock/deadlock.go. `detect` is `Detect`, `do_detect` is
--     `doDetect`, `register`, `clean_up`, `clean_up_wait_for` and `expire` as named there.
--   * Latch: internal/latch/latch.go, one latch; Table: all latches and locks; Scheduler:
--     internal/latch/scheduler.go. Queue, Requests, Holders, Acquire and Release hold the lemmas,
--     Reached the states that interleaved calls reach, Scheduled those that are reached while
--     locks in a waiting list make no calls, with Waiting and Departure on the waiting lists;
--     Exclusion, Attempt, Unlock and Scheduler.Wakeup hold the theorems, Runs and Others
--     lemmas on the loops.
--   * UnionStore: internal/unionstore/union_iter.go and `Get` of union_store.go. `update_loop` is
--     the loop of `updateCur`, by its rounds. Merge has the union of two lists as a relation,
--     Reads relates it to `Get`, Updates and Settling follow `updateCur`, Iteration has the
--     loop of a caller. The membuffer's and the snapshot's iterators are the interface `Iterator`,
--     and `Contents` says what an iterator that does not fail goes through.
--   * RegionIndex: internal/locate/sorted_btree.go and `regionIndexMu` of region_cache.go.
--     `insert_region_to_cache` is `insertRegionToCache` on the tree and the maps, `intersecting` and
--     `delete_all` are `removeIntersecting`; google/btree is the parameter `BTree`. Tree and
--     Inserted hold the proofs.
--   * AsyncCommit: `asyncResolveData.addKeys` of txnkv/txnlock/lock_resolver.go. A response of
--     `checkSecondaries` is one step, since it holds the mutex; Steps and Decision hold the proofs.
--   * Mvcc: internal/mockstore/mocktikv/mvcc.go and mvcc_leveldb.go. Entry is what the store
--     holds of one key and the interface to the key-value store below; Read is `getValue`,
--     Conflict is `checkConflictValue`, Prewrite, Commit (with `Rollback` and `Cleanup`),
--     Status (`CheckTxnStatus`, `TxnHeartBeat`), Pessimistic (`PessimisticLock`) and Range
--     (`ScanLock`, `ResolveLock`, `BatchResolveLock`, `PessimisticRollback`) are the requests,
--     Collection is `GC`; RowKey is `mvccEncode` and `mvccDecode`. Durable, Atomic, Exclusion,
--     Decided, Guard, Pushed, Pessimistic.Locks, Range.Visits and Range.Resolved hold the
--     proofs, Versions and Requests the lemmas on versions and batches; Collection.Survivors,
--     Rounds and Safe those on `GC`.
--   * Tests: the theorems at concrete inputs, over a store in memory that satisfies the
--     interface.
--
-- State. A request is a function from the store (`Mvcc`: a database and the wait-for graph) to
-- the store and the answer; it runs under the store's mutex, so it is one step. What a request
-- writes is collected in a batch, a list of puts and deletes, and written once. goleveldb is the
-- parameter `Leveldb`: a type of databases, `seek`, `write`, and two laws on an iterator made after
-- a write. A version at `lockVer`, which is 2^64-1, would have the row of the lock. If the batch
-- has none, then the iterator finds the rows of before with the batch applied; in any case it
-- finds the lock that the batch leaves, if the last write to the row of the lock is one of the
-- lock. What a version at `lockVer` does to the versions is not modelled. goleveldb's errors of input and output,
-- and rows that fail to decode, are left out. The rows of a range of keys are a parameter of
-- Range. `Fingerprint64` is a parameter as well. Errors are values: `err` of `Result`, or an
-- `Option` where Go returns `nil`; `none` of a whole request is a panic.
--
-- Latches are a table of slots and a table of locks, indexed by numbers that stand for pointers;
-- `acquireSlot` and `releaseSlot` take the mutex of one latch and are one step each, and `Reached`
-- closes over all their interleavings. `Scheduled` closes over those in which a lock in a waiting
-- list takes no step until it is woken, which is what the scheduler keeps to; outside of them the
-- search of `releaseSlot` can run into an index out of range. `murmur3.Sum32` and the number of slots are parameters.
--
-- Fuel. The loops of `acquire` and `release` get as many rounds as there are keys, that of
-- `updateCur` more than there are entries. The deadlock search recurs along the graph. A graph
-- without a cycle has a rank that falls along every wait, and fuel above the rank of the start is
-- enough. The loop over a range gets one round more than there are rows, and `decode_bytes` as
-- many as there are bytes; each round of the loops but the first of a range takes a row or a
-- group. All other loops recur on their list.
--
-- Not modelled: scans of values and the raw operations of the store, which walk over the rows of
-- goleveldb; the membuffers, which UnionStore has behind an interface; the committer of the
-- client, the requests of its lock resolver, the loading of regions and the choice of replicas,
-- which follow the answers of remote servers; and everything that is input and output, metrics or
-- configuration.
pub mod Base
pub mod Codec
pub mod Kv
pub mod KvRpc
pub mod Deadlock
pub mod Latch
pub mod UnionStore
pub mod RegionIndex
pub mod AsyncCommit
pub mod Oracle
pub mod Mvcc
pub mod Tests
