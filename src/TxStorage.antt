-- ===== src/TxStorage.antt =====
-- tx-indexer/src/storage.rs: `CacheStorage`, the transactions that are being collected, the receipts
-- that they wait for, and what is ready to be saved. This file has the state and the methods that
-- work in memory; `R` is the state of the Redis server, which they leave alone. Gauges and log
-- lines are left out.
pub mod Persist
pub mod Records
pub mod Consistency
pub mod Completion
use read_rpc.Prelude.{
  ℕ, Option, none, some, List, [], ◌∷◌, ◌++◌, Text, codes, add_u64, sub_u64, ◌==◌, if◌then◌else◌,
  get_or, text_eq, ℕ_eq,
}
use read_rpc.Prelude.HashMap.{HashMap, lookup, insert, remove, upsert, modify, values, keys}
use read_rpc.Prelude.Outcome.{Result, ok, err, ok_or}
use read_rpc.Prelude.Exec.{Exec, pure, fail, lift, gets, update, if_ok, ◌>>=◌, ◌>>◌}
use read_rpc.Views.{CryptoHash, ShardId, IndexerExecutionOutcomeWithReceipt}
use read_rpc.Primitives.{
  TransactionKey, key_eq, CollectingTransactionDetails, transaction_key, ReceiptRecord,
  OutcomeRecord,
}

-- `ReceiptsAndOutcomesCacheStorage`, keyed by the texts of the ids.
pub record ReceiptsAndOutcomes : Type 0 where
  pub receipts : HashMap Text ReceiptRecord
  pub outcomes : HashMap Text OutcomeRecord

pub record CacheStorage (R : Type 0) : Type 0 where
  pub storage : R
  pub transactions : HashMap TransactionKey CollectingTransactionDetails
  pub receipts_counters : HashMap TransactionKey ℕ
  pub receipts_watching_list : HashMap Text TransactionKey
  pub transactions_to_save : HashMap TransactionKey CollectingTransactionDetails
  pub outcomes_and_receipts_to_save : HashMap ShardId ReceiptsAndOutcomes

-- `init_storage`, on a connection to Redis.
unfoldable pub init_storage : {R : Type 0} → R → CacheStorage R
init_storage storage = record {
  storage = storage;
  transactions = [];
  receipts_counters = [];
  receipts_watching_list = [];
  transactions_to_save = [];
  outcomes_and_receipts_to_save = [];
}

abbrev pub Method : Type 0 → Type 0 → Type 0
Method R A = Exec (CacheStorage R) A

-- The keys that were read are removed one by one.
unfoldable pub remove_all :
    List TransactionKey
    → HashMap TransactionKey CollectingTransactionDetails
    → HashMap TransactionKey CollectingTransactionDetails
remove_all [] m = m
remove_all (key ∷ rest) m = remove_all rest (remove key m)

-- The details with one more receipt and its outcome.
abbrev pub with_outcome :
    CollectingTransactionDetails → IndexerExecutionOutcomeWithReceipt → CollectingTransactionDetails
with_outcome tx o = record tx {
  receipts = tx.receipts ++ o.receipt ∷ [];
  execution_outcomes = tx.execution_outcomes ++ o.execution_outcome ∷ [];
}

module _ {R : Type 0} where
  unfoldable pub push_receipt_to_watching_list : Text → TransactionKey → Method R Unit
  push_receipt_to_watching_list receipt_id key = do
    update λ s. record s {
      receipts_counters = upsert key (λ counter. add_u64 counter 1) 1 s.receipts_counters;
    }
    update λ s. record s { receipts_watching_list = insert receipt_id key s.receipts_watching_list }

  unfoldable pub remove_receipt_from_watching_list : Text → Method R Unit
  remove_receipt_from_watching_list receipt_id s =
      elim (lookup receipt_id s.receipts_watching_list) [
        | none ↦ (ok tt, s)
        | some key ↦ (
          ok tt,
          record s {
            receipts_watching_list = remove receipt_id s.receipts_watching_list;
            receipts_counters = modify key (λ counter. sub_u64 counter 1) s.receipts_counters;
          },
        )
      ]

  unfoldable pub receipts_transaction_count : TransactionKey → Method R ℕ
  receipts_transaction_count key s = (
    ok_or (lookup key s.receipts_counters)
        (codes "No such transaction hash `receipts_transaction_count`"),
    s,
  )

  unfoldable pub update_tx : CollectingTransactionDetails → Method R Unit
  update_tx tx =
      update λ s. record s { transactions = insert (transaction_key tx) tx s.transactions }

  unfoldable pub get_tx : TransactionKey → Method R CollectingTransactionDetails
  get_tx key s = (ok_or (lookup key s.transactions) (codes "No such transaction hash `get_tx`"), s)

  unfoldable pub move_tx_to_save : CollectingTransactionDetails → Method R Unit
  move_tx_to_save tx =
      let key = transaction_key tx in
      update λ s. record s {
        transactions_to_save = insert key tx s.transactions_to_save;
        transactions = remove key s.transactions;
        receipts_counters = remove key s.receipts_counters;
      }

  unfoldable pub get_transaction_hash_by_receipt_id : Text → Method R TransactionKey
  get_transaction_hash_by_receipt_id receipt_id s =
      (ok_or (lookup receipt_id s.receipts_watching_list) (codes "No such receipt id"), s)

  unfoldable pub take_transactions_to_save : Method R (List CollectingTransactionDetails)
  take_transactions_to_save s = (
    ok (values s.transactions_to_save),
    record s {
      transactions_to_save = remove_all (keys s.transactions_to_save) s.transactions_to_save;
    },
  )

  module _ (to_string : CryptoHash → Text) where
    -- A transaction that waits for no receipt any more is moved to the save queue.
    unfoldable pub push_outcome_and_receipt_to_cache :
        TransactionKey → IndexerExecutionOutcomeWithReceipt → Method R Unit
    push_outcome_and_receipt_to_cache key o =
        if_ok (get_tx key)
          (λ tx. do
            remove_receipt_from_watching_list (to_string o.receipt.receipt_id)
            count ← receipts_transaction_count key
            if count == 0
                then move_tx_to_save (with_outcome tx o)
                else update_tx (with_outcome tx o))
          (pure tt)
