-- ===== src/Lib.antt =====
-- A verification library for LedgerDatabase: verifiable ledger databases and the replicated
-- transactional store that serves them.
--
-- The program has two halves. `ledger/` keeps a ledger over a key-value store: blocks are hashed,
-- the hashes are the leaves of a Merkle tree that is stored node by node, and clients check proofs
-- against its root. `distributed/` replicates a store of transactions by viewstamped replication.
--
-- Files:
-- - Prelude (Prelude/Tests, Prelude/Lists): Boolean tests on numbers, lists over the native
--   numbers, and their lemmas.
-- - Hash (Hash/Base32): ledger/common/hash.cc and hash.h. A hash is a list of bytes; `ToBase32`,
--   `FromBase32` and `ComputeFrom` are `to_base32`, `from_base32` and `compute_from`. BLAKE2b, of
--   CryptoPP, is the record `Blake2b`, of which nothing is assumed but that a digest is 64 bytes.
-- - Db: the reads and writes of ledger/common/db.h. A key is data in place of its text.
-- - Merkle (and its children): ledger/ledgerdb/merkletree.cc. `update`, `getProof` and
--   `Proof::Verify` are `update`, `get_proof` and `verify`; `Merkle/Spec` has the tree as
--   mathematics, to which the other children relate the three.
-- - Panic: `ASSERT` and `Panic` of distributed/lib, as a result type.
-- - Replication (Replication/Log and its children): viewstamp.h, log.cc, log.h and log-impl.h of
--   distributed/replication/common. Each method of `Log` is a function on a record.
-- - Info (Info/Decimal, Info/Split, Info/Round, Info/Blocks): ledger/ledgerdb/types.h and
--   ledger/common/utils.cc, the texts of commits, digests and blocks.
-- - Audit (Audit/Chain, Audit/Proofs): `Auditor::Audit` of ledger/ledgerdb/ledgerdb.cc, over the
--   Merkle tree and the stored texts. The trie proofs are a parameter.
-- - Mpt: ledger/ledgerdb/mpt/mpt_config.h, the keys of the Merkle Patricia trie.
-- - Maps (Maps/Sorted): `std::map` and `std::set`, as lists in the order of the keys.
-- - Txn (Txn/Codec): timestamp.cc, transaction.cc and their headers, of distributed/store/common.
-- - Occ (Occ/Conflict, Occ/Search, Occ/Prepare, Occ/Runs, Occ/Isolation): the concurrency control
--   of one shard, distributed/store/strongstore/occstore.cc. It calls the versioned store through
--   the record `VersionedKvStore`, of which no law is assumed. `Step` is one
--   call, `Reach` and `Others` are sequences of calls in any order, and `recording` is a store that
--   also keeps what it is asked to put.
-- - SkipList (Insert, Nodes, First): ledger/ledgerdb/skiplist/skiplist.cc and skiplist.h, on a store
--   from texts to texts. The inner loops of `find` and `insert` are given fuel, and end without a
--   result where it is not enough.
-- - Coordinator (TwoPhase, Shards, Ranges): distributed/store/strongstore/client.cc and client.h, and
--   the sharding of distributed/store/common/frontend/client.h. The client of each shard is that of
--   Buffer. What the shards answer to a round of prepares, and the timestamp server, is a `Round`.
--   In Shards, Keep is about the shards that are called, and Apart and Confined about the clients of
--   no shard.
--   `Commit` is given `COMMIT_RETRIES` rounds, which is one.
-- - Buffer (Buffer/Sets, Buffer/Reads): distributed/store/common/frontend/bufferclient.cc. The calls to the
--   `TxnClient` below are values, and its answers arguments.
-- - Configuration: the arithmetic of distributed/lib/configuration.cc.
-- - Replication/Messages: distributed/proto/vr-proto.proto.
-- - Replication/Replica (Methods, Handlers, Views, Receive): distributed/replication/vr/replica.cc and
--   replica.h. The replica is a record that each method takes and returns, `CommitUpTo` is
--   `commit_up_to` and `HandlePrepare` is `handle_prepare`. What it sends is a list in the record. The
--   service above it (`AppReplica` in common/replica.h) is a parameter that answers from the calls it
--   has had. Later, Monotone, Advance and Forward are about the view and the count of
--   committed operations, Commits and Missing about `CommitUpTo`, Prepares, Backup and Batch about
--   batches, Ready, Keeps, Invariant and Step about the log against the counts, Majority about
--   acknowledgements, Requests and Unlogged about requests, Leads about a view change, and Overlap
--   about the quorums of both.
-- - Replication/Client (Waiting, Once): client.cc and client.h of distributed/replication/vr. What
--   happens to a client is a list of `Event`, `Invoke` is `invoke`, and the calls of continuations are a
--   list in the record.
-- - Replication/Quorum (Count, Any, Meet): distributed/replication/common/quorumset.h.
--
-- Numbers are unbounded where the program counts in `uint64_t` and a theorem's hypotheses keep the
-- count below 2^64; where a value may wrap the wrap is written out.
--
-- Fuel: `update` is given the first block number plus the number of blocks plus one rounds, which
-- is enough since each round about halves both. A decimal number is given twenty digits, which are
-- enough for 64 bits. The loop of `CommitUpTo` is given one round for each number that it is asked to
-- commit, and it commits one in each.
--
-- Not modelled: the network transports, the timers' event loop, RocksDB, protobuf messages, the
-- programs under distributed/exes, which call the parts above and print measurements.
mod Prelude
pub mod Hash
pub mod Db
pub mod Merkle
mod Panic
mod Maps
pub mod Info
pub mod Audit
pub mod Mpt
pub mod SkipList
pub mod Txn
pub mod Buffer
pub mod Configuration
pub mod Occ
pub mod Coordinator
pub mod Replication
