-- ===== src/Lib.antt =====
-- Read RPC: indexers that follow the NEAR chain and a JSON RPC server over what they store.
--
-- The transaction indexer (tx-indexer) takes blocks from a stream. From each block it starts to
-- collect the transactions, watches the receipts that they are converted into, adds the outcome of
-- every watched receipt to its transaction and watches the receipts that this outcome makes. A
-- transaction that waits for no receipt any more is queued to be saved. What is being collected is
-- kept in memory and, against interruptions, in Redis (cache-storage).
-- The state indexer stores of each block the last change to each key.
-- The server (rpc-server) follows the latest final and optimistic blocks in two tasks, keeps older
-- blocks in a cache bounded by memory, answers requests for blocks, chunks and state changes from
-- these, the database and S3, and runs view calls over the state of an account at a height, under
-- the changes of the optimistic block.
--
-- Which file models what, with paths from the repository's root:
--   Primitives.antt, Primitives/        readnode-primitives/src/lib.rs: keys, collected details, statuses
--   TxCache.antt                        cache-storage/src/lib.rs: RedisCacheStorage, TxIndexerCache
--   FinalityCache.antt, FinalityCache/  cache-storage/src/lib.rs: BlocksByFinalityCache
--   TxStorage.antt, TxStorage/          tx-indexer/src/storage.rs: CacheStorage
--   Collector.antt, Collector/          tx-indexer/src/collector.rs: taking blocks in
--   Rightsizing.antt                    configuration/src/configs/rightsizing.rs
--   Lru.antt, Lru/                      rpc-server/src/cache.rs: LruMemoryCache
--   Blocks.antt, Blocks/Latest.antt     rpc-server/src/modules/blocks/mod.rs: the changes of a block
--   Blocks/Finality.antt                the same file: BlocksInfoByFinality
--   Blocks/Follow.antt, Blocks/Moves.antt, Blocks/Moves/, Blocks/Followed.antt,
--   Blocks/Tasks.antt                   rpc-server/src/utils.rs: the tasks that follow the chain
--   Blocks/Fetch.antt, Blocks/Served.antt
--                                       rpc-server/src/modules/blocks/utils.rs, methods.rs: blocks
--   Blocks/Chunks.antt, Blocks/Local.antt
--                                       the same two files: chunks
--   Blocks/Requests.antt, Blocks/Matching.antt
--                                       the same two files: state changes
--   CodeStorage.antt, CodeStorage/      rpc-server/src/modules/queries/contract_runner/code_storage.rs
--   StateIndexer.antt, StateIndexer/    logic-state-indexer/src/lib.rs, epoch/mod.rs: the state indexer
--   Database.antt, Database/            database/src/postgres, base/rpc_server.rs: the tables of state
--                                       changes, written and read (Saves, Reads, Pages)
--   Database/Meta.antt, Database/Meta/  the same, base/state_indexer.rs: blocks, chunks, validators
--   Database/Receipts.antt, Database/Receipts/
--                                       database/src/postgres/tx_indexer.rs: receipts, outcomes
--   Queries.antt, Queries/Call.antt     rpc-server/src/modules/queries/methods.rs: view queries
--   Network.antt, Network/              rpc-server/src/modules/network/methods.rs: validators
--   Queries/Runner.antt                 rpc-server/src/modules/queries/contract_runner/mod.rs
--   Views.antt                          the fields of near_indexer_primitives that the program reads
--   Backend.antt                        what the indexers call and do not implement, as parameters
--   Prelude.antt, Prelude/              shared names, maps, words, texts, results and methods
--   Tests.antt, Tests/                  runs and instances on small inputs
--
-- How the code is read. A function keeps its name; a method is a function from the state to a
-- result and the new state (Prelude/Exec.antt), so that what was written before an error stays. A
-- result is a value, an anyhow error or a panic (Prelude/Outcome.antt). A HashMap is an association
-- list in any order (Prelude/HashMap.antt). Futures run in program order and those of join_all in
-- list order; locks are left out, as each critical section is one step. u64 and usize wrap at 2^64,
-- as Cargo.toml turns overflow checks off for the release build.
-- A table is the list of its rows, and an SQL query is read as Postgres documents it (Database.antt).
-- A query goes through if the database executes it with that many bound values, which is a
-- parameter; NULL is an error where a value is decoded. The order in which the database sorts the
-- keys of a page is a parameter.
-- Redis, serde_json, the shard layout and the text of hashes are parameters (Backend.antt), the lru
-- crate is a record of operations with its documented laws (Lru.antt), and so are the hex crate
-- (Blocks/Requests.antt), Borsh (Database/Reads.antt), the virtual machine (Queries/Runner.antt),
-- retrying (StateIndexer/Message.antt) and, with their answers, S3 and the node (Blocks/Fetch.antt,
-- Queries/Call.antt, Network.antt, the arguments of the rounds in Blocks/Follow.antt). CodeStorage.antt,
-- Queries.antt, Blocks/Chunks.antt and Network.antt take the database as a parameter too, which
-- CodeStorage/Postgres.antt, Queries/Views.antt, Database/Meta/Placed.antt and Network/Saved.antt fill.
-- The gauges of the latest heights are state, since the server compares with them; an `i64` in them
-- is its 64 bits.
--
-- Bounds and fuel: a client that asks for pages of the state makes one request more than there are
-- full pages. The loop of LruMemoryCache::decrease has one round more than the cache has
-- items, and each round but the last takes an item out. A u64 has at most twenty digits.
--
-- Not modelled: metrics that are only written, tracing and logs; the HTTP server; the connections and
-- migrations of the database; the handlers for transactions and receipts, the status and the protocol
-- configuration; the saving of collected transactions with its retries; configuration files and
-- command lines.
pub mod Prelude
pub mod Views
pub mod Primitives
pub mod Backend
pub mod TxCache
pub mod TxStorage
pub mod Rightsizing
pub mod Collector
pub mod Lru
pub mod Blocks
pub mod Database
pub mod CodeStorage
pub mod Queries
pub mod Network
pub mod StateIndexer
pub mod FinalityCache
mod Tests
