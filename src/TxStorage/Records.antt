-- ===== src/TxStorage/Records.antt =====
-- tx-indexer/src/storage.rs: the receipts and outcomes that wait to be written to the database, by
-- database shard.
pub mod Drain
pub mod Filed
use read_rpc.Prelude.{List, [], ◌∷◌, map, Text, text_eq, ℕ_eq}
use read_rpc.Prelude.HashMap.{HashMap, insert, remove, upsert, modify, extend, values}
use read_rpc.Prelude.Outcome.{ok}
use read_rpc.Prelude.Exec.{update}
use read_rpc.Views.{CryptoHash, AccountId, ShardId}
use read_rpc.Primitives.{ReceiptRecord, OutcomeRecord, BlockRecord}
use read_rpc.TxStorage.{ReceiptsAndOutcomes, Method}

-- `ReceiptsAndOutcomesToSave`
pub record ReceiptsAndOutcomesToSave : Type 0 where
  pub receipts : List ReceiptRecord
  pub outcomes : List OutcomeRecord

unfoldable pub to_save : ReceiptsAndOutcomes → ReceiptsAndOutcomesToSave
to_save r = record { receipts = values r.receipts; outcomes = values r.outcomes }

abbrev pub Queue : Type 0
Queue = HashMap ShardId ReceiptsAndOutcomes

module _ (to_string : CryptoHash → Text) where
  -- `ReceiptsAndOutcomesCacheStorage::new`
  unfoldable pub new_records : ReceiptRecord → OutcomeRecord → ReceiptsAndOutcomes
  new_records receipt outcome = record {
    receipts = insert (to_string receipt.receipt_id) receipt [];
    outcomes = insert (to_string outcome.outcome_id) outcome [];
  }

  unfoldable pub add_records :
      ReceiptRecord → OutcomeRecord → ReceiptsAndOutcomes → ReceiptsAndOutcomes
  add_records receipt outcome r = record {
    receipts = insert (to_string receipt.receipt_id) receipt r.receipts;
    outcomes = insert (to_string outcome.outcome_id) outcome r.outcomes;
  }

  unfoldable pub drop_receipts :
      List ReceiptRecord → HashMap Text ReceiptRecord → HashMap Text ReceiptRecord
  drop_receipts [] m = m
  drop_receipts (r ∷ rs) m = drop_receipts rs (remove (to_string r.receipt_id) m)

  unfoldable pub drop_outcomes :
      List OutcomeRecord → HashMap Text OutcomeRecord → HashMap Text OutcomeRecord
  drop_outcomes [] m = m
  drop_outcomes (o ∷ os) m = drop_outcomes os (remove (to_string o.outcome_id) m)

  unfoldable pub drop_saved : ReceiptsAndOutcomesToSave → ReceiptsAndOutcomes → ReceiptsAndOutcomes
  drop_saved saved r = record {
    receipts = drop_receipts saved.receipts r.receipts;
    outcomes = drop_outcomes saved.outcomes r.outcomes;
  }

  -- The first loop: the snapshot that is handed out.
  unfoldable pub snapshot : Queue → HashMap ShardId ReceiptsAndOutcomesToSave
  snapshot [] = []
  snapshot ((shard_id, r) ∷ queue) = insert shard_id (to_save r) (snapshot queue)

  -- The second loop: what was handed out is removed, shard by shard.
  unfoldable pub drop_snapshot : HashMap ShardId ReceiptsAndOutcomesToSave → Queue → Queue
  drop_snapshot [] queue = queue
  drop_snapshot ((shard_id, saved) ∷ rest) queue =
      drop_snapshot rest (modify shard_id (drop_saved saved) queue)

  module _ {R : Type 0} where
    unfoldable pub take_outcomes_and_receipts_to_save :
        Method R (HashMap ShardId ReceiptsAndOutcomesToSave)
    take_outcomes_and_receipts_to_save s =
        let saved = snapshot s.outcomes_and_receipts_to_save in
        (
          ok saved,
          record s {
            outcomes_and_receipts_to_save = drop_snapshot saved s.outcomes_and_receipts_to_save;
          },
        )

    unfoldable pub push_outcome_and_receipt_to_save :
        (AccountId → ShardId)
        → CryptoHash
        → CryptoHash
        → CryptoHash
        → AccountId
        → BlockRecord
        → ShardId
        → Method R Unit
    push_outcome_and_receipt_to_save account_id_to_shard_id outcome_id receipt_id parent_tx_hash
          receiver_id block shard_id =
        let receipt_record : ReceiptRecord = record {
          receipt_id = receipt_id;
          parent_transaction_hash = parent_tx_hash;
          receiver_id = receiver_id;
          block_height = block.height;
          block_hash = block.hash;
          shard_id = shard_id;
        } in
        let outcome_record : OutcomeRecord = record {
          outcome_id = outcome_id;
          parent_transaction_hash = parent_tx_hash;
          receiver_id = receiver_id;
          block_height = block.height;
          block_hash = block.hash;
          shard_id = shard_id;
        } in
        update λ s. record s {
          outcomes_and_receipts_to_save =
              upsert (account_id_to_shard_id receiver_id)
                (add_records receipt_record outcome_record)
                (new_records receipt_record outcome_record) s.outcomes_and_receipts_to_save;
        }

    -- `return_outcomes_to_save` and `return_receipts_to_save`: a shard that has no entry is skipped.
    unfoldable pub return_outcomes_to_save : ShardId → List OutcomeRecord → Method R Unit
    return_outcomes_to_save shard_id outcomes = update λ s. record s {
      outcomes_and_receipts_to_save =
          modify shard_id
            (λ r. record r {
              outcomes = extend (map (λ o. (to_string o.outcome_id, o)) outcomes) r.outcomes;
            })
            s.outcomes_and_receipts_to_save;
    }

    unfoldable pub return_receipts_to_save : ShardId → List ReceiptRecord → Method R Unit
    return_receipts_to_save shard_id receipts = update λ s. record s {
      outcomes_and_receipts_to_save =
          modify shard_id
            (λ r. record r {
              receipts = extend (map (λ o. (to_string o.receipt_id, o)) receipts) r.receipts;
            })
            s.outcomes_and_receipts_to_save;
    }
