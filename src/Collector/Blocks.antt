-- ===== src/Collector/Blocks.antt =====
-- The consistency of the collecting storage over whole blocks.
use native.Mathlib.Nat.{zero-add}
use read_rpc.Prelude.{
  Text, ℕ, ◌+◌, ◌<◌, refl, List, [], ◌∷◌, map, length, sum, arith, u64_mod, Bool-cases, inl, inr,
}
use read_rpc.Prelude.Exec.{Exec, pure}
use read_rpc.Prelude.Exec.Budget.{
  Budget, Spends, Spends-more, Spends-free, Spends-bind, Spends-if_ok, Spends-join_all,
}
use read_rpc.Views.{
  CryptoHash, AccountId, ShardId, IndexerTransactionWithOutcome, IndexerExecutionOutcomeWithReceipt,
  IndexerShard, StreamerMessage,
}
use read_rpc.Primitives.{TransactionKey, BlockRecord, CollectingTransactionDetails}
use read_rpc.Rightsizing.{RightsizingConfig, tx_should_be_indexed}
use read_rpc.Backend.{Backend}
use read_rpc.TxCache.{set_outcomes_and_receipts}
use read_rpc.TxStorage.{CacheStorage, init_storage, get_transaction_hash_by_receipt_id}
use read_rpc.TxStorage.Records.{push_outcome_and_receipt_to_save}
use read_rpc.TxStorage.Persist.{
  on_redis, set_tx, push_outcome_and_receipt, push_outcome_and_receipt_to_storage,
}
use read_rpc.TxStorage.Consistency.{
  IsConsistent, consistency, Spends-push_receipt, Spends-update_tx, Spends-push_outcome,
  Spends-elsewhere, IsConsistent-init_storage,
}
use read_rpc.Collector.{
  transactions_of, block_record, add_outcome_and_receipt_to_save, start_collecting,
  new_transaction_details_to_collecting_pool, collect_blocks, extract_transactions_to_collect,
  watch_all, process_watched, process_receipt_execution_outcome, process_shard,
  collect_receipts_and_outcomes, collect_block,
}

-- How many receipts a block may add to the watching list.
abbrev pub outcome_pushes : IndexerExecutionOutcomeWithReceipt → ℕ
outcome_pushes o = length o.execution_outcome.outcome.receipt_ids

abbrev pub shard_pushes : IndexerShard → ℕ
shard_pushes shard = sum (map outcome_pushes shard.receipt_execution_outcomes)

abbrev pub pushes : StreamerMessage → ℕ
pushes m = sum (map (λ _. 1) (transactions_of m.shards)) + sum (map shard_pushes m.shards)

module _ (b : Backend) where
  abbrev C : Budget (CacheStorage b.redis.State)
  C = consistency b.redis.State

  Spends-on_redis : {A : Type 0} (m : Exec b.redis.State A) → Spends C 0 (on_redis m)
  Spends-on_redis m = Spends-elsewhere (on_redis m) (λ s. (refl, refl, refl))

  Spends-records :
      (o r p : CryptoHash) (id : AccountId) (block : BlockRecord) (shard_id : ShardId)
      → Spends C 0 (add_outcome_and_receipt_to_save b o r p id block shard_id)
  unfolding add_outcome_and_receipt_to_save push_outcome_and_receipt_to_save
  Spends-records o r p id block shard_id = Spends-elsewhere _ (λ s. (refl, refl, refl))

  Spends-set_tx : (tx : CollectingTransactionDetails) → Spends C 0 (set_tx b tx)
  unfolding set_tx
  Spends-set_tx tx =
      Spends-more C (0 + 0) 0 (omega arith)
        (Spends-bind C 0 0 (Spends-on_redis _) (λ _. Spends-update_tx tx))

  Spends-start :
      (block : BlockRecord) (tx : IndexerTransactionWithOutcome × ShardId)
      → Spends C 1 (start_collecting b block tx)
  unfolding start_collecting
  Spends-start block (tx, shard_id) = Spends-more C (0 + (0 + (0 + 1))) 1 (omega arith) (
      Spends-bind C 0 (0 + (0 + 1)) (Spends-free C 0 _ (λ n s h. h)) (λ id.
        Spends-bind C 0 (0 + 1) (Spends-records _ _ _ _ block shard_id) (λ _.
          Spends-if_ok C 0 1 (Spends-set_tx _) (λ _. Spends-push_receipt _ _)
            (Spends-free C 1 _ (λ n s h. h)))))

  Spends-new_transaction :
      (config : RightsizingConfig) (block : BlockRecord)
      (tx : IndexerTransactionWithOutcome × ShardId)
      → Spends C 1 (new_transaction_details_to_collecting_pool b config block tx)
  unfolding new_transaction_details_to_collecting_pool
  Spends-new_transaction config block (tx, shard_id) =
      elim (Bool-cases (tx_should_be_indexed config tx)) [
        | inl wanted ↦ rw wanted (Spends-start block (tx, shard_id))
        | inr unwanted ↦ rw unwanted (Spends-free C 1 _ (λ n s h. h))
      ]

  Spends-push :
      (key : TransactionKey) (o : IndexerExecutionOutcomeWithReceipt)
      → Spends C (0 + 0) (push_outcome_and_receipt b key o)
  unfolding push_outcome_and_receipt push_outcome_and_receipt_to_storage
  Spends-push key o =
      Spends-bind C 0 0 (Spends-on_redis (set_outcomes_and_receipts b key o))
        (λ _. Spends-push_outcome b.hashes.to_string key o)

  Spends-watch_all :
      (key : TransactionKey) (ids : List CryptoHash) → Spends C (length ids) (watch_all b key ids)
  unfolding watch_all
  Spends-watch_all key [] = Spends-free C 0 _ (λ n s h. h)
  Spends-watch_all key (id ∷ ids) = Spends-more C (1 + length ids) _ (omega arith) (
      Spends-if_ok C 1 (length ids) (Spends-push_receipt _ key) (λ _. Spends-watch_all key ids)
        (Spends-watch_all key ids))

  Spends-find : (r : Text) → Spends C 0 (get_transaction_hash_by_receipt_id r)
  unfolding get_transaction_hash_by_receipt_id
  Spends-find r = Spends-elsewhere (get_transaction_hash_by_receipt_id r) (λ s. (refl, refl, refl))

  Spends-still : (n : ℕ) → Spends C n (pure tt)
  Spends-still n = Spends-free C n (pure tt) (λ k s h. h)

  -- What is done for the outcome of a receipt that is watched for `key`.
  Spends-watched :
      (block : BlockRecord) (shard_id : ShardId) (o : IndexerExecutionOutcomeWithReceipt)
      (key : TransactionKey)
      → Spends C (outcome_pushes o) (process_watched b block shard_id o key)
  unfolding process_watched
  Spends-watched block shard_id o key =
      Spends-more C (0 + (outcome_pushes o + (0 + 0))) _ (omega arith) (
        Spends-bind C 0 (outcome_pushes o + (0 + 0))
          (Spends-records o.execution_outcome.id o.receipt.receipt_id key.transaction_hash
            o.receipt.receiver_id block shard_id)
          (λ _.
            Spends-bind C (outcome_pushes o) (0 + 0)
              (Spends-watch_all key o.execution_outcome.outcome.receipt_ids)
              (λ _. Spends-push key o)))

  Spends-outcome :
      (block : BlockRecord) (shard_id : ShardId) (o : IndexerExecutionOutcomeWithReceipt)
      → Spends C (outcome_pushes o) (process_receipt_execution_outcome b block shard_id o)
  unfolding process_receipt_execution_outcome
  Spends-outcome block shard_id o = Spends-more C (0 + outcome_pushes o) _ (omega arith) (
      Spends-if_ok C 0 (outcome_pushes o) (Spends-find (b.hashes.to_string o.receipt.receipt_id))
        (Spends-watched block shard_id o) (Spends-still (outcome_pushes o)))

  Spends-shard :
      (block : BlockRecord) (shard : IndexerShard)
      → Spends C (shard_pushes shard) (process_shard b block shard)
  unfolding process_shard
  Spends-shard block shard =
      Spends-join_all C (process_receipt_execution_outcome b block shard.shard_id) outcome_pushes
        (Spends-outcome block shard.shard_id) shard.receipt_execution_outcomes

  Spends-block :
      (config : RightsizingConfig) (m : StreamerMessage)
      → Spends C (pushes m) (collect_block b config m)
  unfolding collect_block extract_transactions_to_collect collect_receipts_and_outcomes
  Spends-block config m =
      Spends-bind C (sum (map (λ _. 1) (transactions_of m.shards)))
        (sum (map shard_pushes m.shards))
        (Spends-join_all C (new_transaction_details_to_collecting_pool b config (block_record m))
          (λ _. 1) (Spends-new_transaction config (block_record m)) (transactions_of m.shards))
        (λ _.
          Spends-join_all C (process_shard b (block_record m)) shard_pushes
            (Spends-shard (block_record m)) m.shards)

  Spends-blocks :
      (config : RightsizingConfig) (ms : List StreamerMessage)
      → Spends C (sum (map pushes ms)) (collect_blocks b config ms)
  unfolding collect_blocks
  Spends-blocks config [] = Spends-free C 0 _ (λ n s h. h)
  Spends-blocks config (m ∷ ms) =
      Spends-if_ok C (pushes m) (sum (map pushes ms)) (Spends-block config m)
        (λ _. Spends-blocks config ms) (Spends-blocks config ms)

  -- From the empty storage, whatever Redis answers and whichever steps fail: as long as fewer than
  -- 2^64 receipts were pushed, every transaction's counter is at least the number of receipts
  -- watched for it and at most the number pushed, a receipt is watched once, and a transaction is
  -- stored under its own key.
  pub collect_blocks-IsConsistent :
      (config : RightsizingConfig) (ms : List StreamerMessage) (connection : b.redis.State)
      → sum (map pushes ms) < u64_mod
      → IsConsistent (sum (map pushes ms)) (collect_blocks b config ms (init_storage connection)).1
  collect_blocks-IsConsistent config ms connection lt = rw zero-add at (
      (Spends-blocks config ms).at 0 (init_storage connection) (omega arith)
        (IsConsistent-init_storage connection))
