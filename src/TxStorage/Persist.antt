-- ===== src/TxStorage/Persist.antt =====
-- tx-indexer/src/storage.rs: the methods that also write to Redis, and the recovery of the
-- transactions in process after an interruption.
use read_rpc.Prelude.{[], map, codes, first, ◌==◌, if◌then◌else◌}
use read_rpc.Prelude.Outcome
use read_rpc.Prelude.Outcome.{Result, ok, err, panic, expect}
use read_rpc.Prelude.Exec.{Exec, pure, lift, if_ok, each, join_all, ◌>>=◌, ◌>>◌}
use read_rpc.Views.{CryptoHash, IndexerExecutionOutcomeWithReceipt}
use read_rpc.Primitives.{TransactionKey, CollectingTransactionDetails}
use read_rpc.Backend.{Backend}
use read_rpc.TxCache
use read_rpc.TxStorage
use read_rpc.TxStorage.{
  CacheStorage, Method, push_receipt_to_watching_list, update_tx, push_outcome_and_receipt_to_cache,
}

-- A command of the Redis connection, as a method of the storage that holds the connection.
abbrev pub on_redis : {R A : Type 0} → Exec R A → Method R A
on_redis m s = let (r, storage) = m s.storage in (r, record s { storage = storage })

module _ (b : Backend) where
  abbrev R : Type 0
  R = b.redis.State

  unfoldable pub push_outcome_and_receipt_to_storage :
      TransactionKey → IndexerExecutionOutcomeWithReceipt → Method R Unit
  push_outcome_and_receipt_to_storage key o = on_redis (TxCache.set_outcomes_and_receipts b key o)

  unfoldable pub push_outcome_and_receipt :
      TransactionKey → IndexerExecutionOutcomeWithReceipt → Method R Unit
  push_outcome_and_receipt key o = do
    push_outcome_and_receipt_to_storage key o
    push_outcome_and_receipt_to_cache b.hashes.to_string key o

  unfoldable pub set_tx : CollectingTransactionDetails → Method R Unit
  set_tx tx = do on_redis (TxCache.set_tx b tx); update_tx tx

  unfoldable pub remove_transaction_from_cache : TransactionKey → Method R Unit
  remove_transaction_from_cache key = on_redis (TxCache.del_tx b key)

  abbrev pub watch : TransactionKey → CryptoHash → Method R Unit
  watch key receipt_id = push_receipt_to_watching_list (b.hashes.to_string receipt_id) key

  -- The outcome of the transaction itself is skipped.
  unfoldable pub restore_outcome :
      TransactionKey
      → CollectingTransactionDetails
      → IndexerExecutionOutcomeWithReceipt
      → Method R Unit
  restore_outcome key tx o =
      if o.execution_outcome.id == tx.transaction_outcome.id then pure tt else (do
        each o.execution_outcome.outcome.receipt_ids (watch key)
        push_outcome_and_receipt_to_cache b.hashes.to_string key o)

  unfoldable pub restore_transaction_with_receipts : TransactionKey → Method R Unit
  restore_transaction_with_receipts key =
      if_ok (on_redis (TxCache.get_tx b key))
        (λ tx. do
          update_tx tx
          receipt_id ← lift (
              expect (first tx.transaction_outcome.outcome.receipt_ids)
                (codes "`receipt_ids` must contain one Receipt ID"))
          watch key receipt_id
          outcomes ← on_redis (TxCache.get_tx_outcomes b key)
          each outcomes (restore_outcome key tx))
        (pure tt)

  -- `unwrap_or_default`: a failure to list the transactions restores nothing.
  unfoldable pub restore_transactions_with_receipts_after_interruption : Method R Unit
  restore_transactions_with_receipts_after_interruption = do
    tx_in_process ← if_ok (on_redis (TxCache.get_txs_in_process b)) pure (pure [])
    join_all (map restore_transaction_with_receipts tx_in_process)

  unfoldable pub init_with_restore : R → Result (CacheStorage R)
  init_with_restore connection =
      let (r, storage) =
        restore_transactions_with_receipts_after_interruption (TxStorage.init_storage connection) in
      Outcome.◌>>=◌ r (λ _. ok storage)
