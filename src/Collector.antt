-- ===== src/Collector.antt =====
-- tx-indexer/src/collector.rs: how a block is taken in. First the transactions of the block start to
-- be collected, then the outcomes of watched receipts are added to their transactions.
pub mod Blocks
use read_rpc.Prelude.{
  ℕ, Option, none, some, List, [], ◌∷◌, ◌++◌, map, Text, codes, first, if◌then◌else◌,
}
use read_rpc.Prelude.Outcome.{Result, ok, err, panic, expect}
use read_rpc.Prelude.Exec.{Exec, pure, lift, if_ok, each, join_all, ◌>>=◌, ◌>>◌}
use read_rpc.Views.{
  CryptoHash, AccountId, ShardId, IndexerTransactionWithOutcome, IndexerExecutionOutcomeWithReceipt,
  IndexerChunkView, IndexerShard, StreamerMessage,
}
use read_rpc.Primitives.{
  TransactionKey, BlockRecord, CollectingTransactionDetails, from_indexer_tx, transaction_key,
}
use read_rpc.Rightsizing.{RightsizingConfig, tx_should_be_indexed}
use read_rpc.Backend.{Backend}
use read_rpc.TxStorage.{
  CacheStorage, Method, push_receipt_to_watching_list, get_transaction_hash_by_receipt_id,
}
use read_rpc.TxStorage.Records.{push_outcome_and_receipt_to_save}
use read_rpc.TxStorage.Persist.{set_tx, push_outcome_and_receipt, watch}

abbrev pub block_record : StreamerMessage → BlockRecord
block_record m = record { height = m.block.header.height; hash = m.block.header.hash }

-- The transactions of a block with the shards of their chunks.
unfoldable pub transactions_of : List IndexerShard → List (IndexerTransactionWithOutcome × ShardId)
transactions_of [] = []
transactions_of (shard ∷ shards) = elim shard.chunk [
  | none ↦ transactions_of shards
  | some chunk ↦ map (λ tx. (tx, chunk.shard_id)) chunk.transactions ++ transactions_of shards
]

module _ (b : Backend) where
  abbrev R : Type 0
  R = b.redis.State

  unfoldable pub add_outcome_and_receipt_to_save :
      CryptoHash → CryptoHash → CryptoHash → AccountId → BlockRecord → ShardId → Method R Unit
  add_outcome_and_receipt_to_save =
      push_outcome_and_receipt_to_save b.hashes.to_string b.account_id_to_shard_id

  -- A failure to store the details in Redis is logged, and the receipt is then not watched.
  unfoldable pub start_collecting :
      BlockRecord → IndexerTransactionWithOutcome × ShardId → Method R Unit
  start_collecting block (tx, shard_id) = do
    converted_into_receipt_id ← lift (
        expect (first tx.outcome.outcome.receipt_ids)
          (codes "`receipt_ids` must contain one Receipt ID"))
    add_outcome_and_receipt_to_save tx.outcome.id converted_into_receipt_id tx.transaction.hash
        tx.transaction.receiver_id block shard_id
    let details = from_indexer_tx tx block.height
    if_ok (set_tx b details) (λ _. watch b (transaction_key details) converted_into_receipt_id)
        (pure tt)

  unfoldable pub new_transaction_details_to_collecting_pool :
      RightsizingConfig → BlockRecord → IndexerTransactionWithOutcome × ShardId → Method R Unit
  new_transaction_details_to_collecting_pool config block (tx, shard_id) =
      if tx_should_be_indexed config tx then start_collecting block (tx, shard_id) else pure tt

  unfoldable pub extract_transactions_to_collect :
      RightsizingConfig → StreamerMessage → Method R Unit
  extract_transactions_to_collect config m = join_all (
      map (new_transaction_details_to_collecting_pool config (block_record m))
        (transactions_of m.shards))

  -- The tasks that watch the new receipts; their errors are dropped.
  unfoldable pub watch_all : TransactionKey → List CryptoHash → Method R Unit
  watch_all key [] = pure tt
  watch_all key (id ∷ ids) = if_ok (watch b key id) (λ _. watch_all key ids) (watch_all key ids)

  unfoldable pub process_watched :
      BlockRecord → ShardId → IndexerExecutionOutcomeWithReceipt → TransactionKey → Method R Unit
  process_watched block shard_id o key = do
    add_outcome_and_receipt_to_save o.execution_outcome.id o.receipt.receipt_id key.transaction_hash
        o.receipt.receiver_id block shard_id
    watch_all key o.execution_outcome.outcome.receipt_ids
    push_outcome_and_receipt b key o

  -- The outcome of a receipt that is not watched is passed over.
  unfoldable pub process_receipt_execution_outcome :
      BlockRecord → ShardId → IndexerExecutionOutcomeWithReceipt → Method R Unit
  process_receipt_execution_outcome block shard_id o =
      if_ok (get_transaction_hash_by_receipt_id (b.hashes.to_string o.receipt.receipt_id))
        (process_watched block shard_id o) (pure tt)

  unfoldable pub process_shard : BlockRecord → IndexerShard → Method R Unit
  process_shard block shard = join_all (
      map (process_receipt_execution_outcome block shard.shard_id) shard.receipt_execution_outcomes)

  unfoldable pub collect_receipts_and_outcomes : StreamerMessage → Method R Unit
  collect_receipts_and_outcomes m = join_all (map (process_shard (block_record m)) m.shards)

  -- `index_transactions`, up to the saving of what is finished.
  unfoldable pub collect_block : RightsizingConfig → StreamerMessage → Method R Unit
  collect_block config m = do
    extract_transactions_to_collect config m
    collect_receipts_and_outcomes m

  -- The loop of `main` over the stream: an error is logged and the next block is taken, a panic ends
  -- the process.
  unfoldable pub collect_blocks : RightsizingConfig → List StreamerMessage → Method R Unit
  collect_blocks config [] = pure tt
  collect_blocks config (m ∷ ms) =
      if_ok (collect_block config m) (λ _. collect_blocks config ms) (collect_blocks config ms)
