-- ===== src/TxCache.antt =====
-- cache-storage/src/lib.rs: `RedisCacheStorage` and `TxIndexerCache`, the durable copy of the
-- transactions that are being collected. A transaction's details stand under `transaction_{key}`
-- and its outcomes in the list `outcomes_{key}`.
use read_rpc.Prelude.{
  ℕ, zero, suc, ◌-◌, Bool, true, false, List, [], ◌∷◌, ◌++◌, map, Text, codes, length, first, ◌==◌,
  ◌&&◌, if◌then◌else◌, none, some,
}
use read_rpc.Prelude.Outcome
use read_rpc.Prelude.Outcome.{Result, ok, to_option}
use read_rpc.Prelude.Exec.{Exec, pure, fail, lift, ◌>>=◌, join_all}
use read_rpc.Views.{CryptoHash, IndexerExecutionOutcomeWithReceipt}
use read_rpc.Primitives.{
  TransactionKey, CollectingTransactionDetails, TransactionDetails, transaction_key,
  transaction_details,
}
use read_rpc.Primitives.Key.{key_to_string, key_from_string}
use read_rpc.Backend.{Backend}

abbrev starts_with : Text → Text → Bool
starts_with [] t = true
starts_with (p ∷ ps) [] = false
starts_with (p ∷ ps) (c ∷ cs) = p == c && starts_with ps cs

-- `str::replace(pattern, "")`: the first argument counts what is left of the last match.
unfoldable pub delete_all : ℕ → Text → Text → Text
delete_all n pattern [] = []
delete_all (suc n) pattern (c ∷ cs) = delete_all n pattern cs
delete_all zero pattern (c ∷ cs) = elim (starts_with pattern (c ∷ cs)) [
  | true ↦ delete_all (length pattern - 1) pattern cs
  | false ↦ c ∷ delete_all 0 pattern cs
]

abbrev pub transaction_prefix : Text
transaction_prefix = codes "transaction_"

unfoldable pub results_ok {ℓ} : {A : Type ℓ} → List (Result A) → List A
results_ok [] = []
results_ok (r ∷ rs) = elim (to_option r) [ none ↦ results_ok rs | some a ↦ a ∷ results_ok rs ]

-- The outcomes other than the transaction's own are added, with their receipts.
unfoldable pub add_outcomes :
    CollectingTransactionDetails
    → List IndexerExecutionOutcomeWithReceipt
    → CollectingTransactionDetails
add_outcomes tx [] = tx
add_outcomes tx (o ∷ os) =
    add_outcomes
      (if o.execution_outcome.id == tx.transaction_outcome.id then tx else record tx {
        execution_outcomes = tx.execution_outcomes ++ o.execution_outcome ∷ [];
        receipts = tx.receipts ++ o.receipt ∷ [];
      })
      os

module _ (b : Backend) where
  abbrev R : Type 0
  R = b.redis.State

  unfoldable pub get_keys : Text → Exec R (List Text)
  get_keys key_prefix = b.redis.keys (key_prefix ++ codes "*")

  abbrev pub transaction_entry : TransactionKey → Text
  transaction_entry key = transaction_prefix ++ key_to_string b.hashes key

  abbrev pub outcomes_entry : TransactionKey → Text
  outcomes_entry key = codes "outcomes_" ++ key_to_string b.hashes key

  unfoldable pub key_of_entry : Text → Result TransactionKey
  key_of_entry entry = key_from_string b.hashes (delete_all 0 transaction_prefix entry)

  unfoldable pub collect_keys : List Text → Result (List TransactionKey)
  collect_keys [] = ok []
  collect_keys (entry ∷ entries) =
      Outcome.◌>>=◌ (key_of_entry entry)
        (λ key. Outcome.◌>>=◌ (collect_keys entries) (λ keys. ok (key ∷ keys)))

  unfoldable pub get_txs_in_process : Exec R (List TransactionKey)
  get_txs_in_process = do entries ← get_keys transaction_prefix; lift (collect_keys entries)

  unfoldable pub get_tx : TransactionKey → Exec R CollectingTransactionDetails
  get_tx key = do bytes ← b.redis.get (transaction_entry key); lift (b.tx_serde.from_slice bytes)

  -- Elements of the list that cannot be read as an outcome with its receipt are dropped.
  unfoldable pub get_tx_outcomes : TransactionKey → Exec R (List IndexerExecutionOutcomeWithReceipt)
  get_tx_outcomes key = do
    outcomes ← b.redis.lrange (outcomes_entry key)
    pure (results_ok (map b.receipt_outcome_serde.from_slice outcomes))

  unfoldable pub get_tx_with_outcomes : TransactionKey → Exec R CollectingTransactionDetails
  get_tx_with_outcomes key = do
    tx ← get_tx key
    outcomes ← get_tx_outcomes key
    pure (add_outcomes tx outcomes)

  unfoldable pub get_tx_by_tx_hash : CryptoHash → Exec R TransactionDetails
  get_tx_by_tx_hash tx_hash = do
    entries ← get_keys (transaction_prefix ++ b.hashes.to_string tx_hash)
    key ← elim (first entries) [
      | some entry ↦ lift (key_of_entry entry)
      | none ↦ fail (codes "Key does not exists")
    ]
    tx ← get_tx_with_outcomes key
    pure (transaction_details tx)

  unfoldable pub set_tx : CollectingTransactionDetails → Exec R Unit
  set_tx tx = do
    details ← lift (b.tx_serde.to_vec tx)
    outcome ← lift (b.outcome_serde.to_vec tx.transaction_outcome)
    join_all (
        b.redis.set (transaction_entry (transaction_key tx)) details
        ∷ b.redis.rpush (outcomes_entry (transaction_key tx)) outcome
        ∷ [])

  unfoldable pub del_tx : TransactionKey → Exec R Unit
  del_tx key =
      join_all (b.redis.del (transaction_entry key) ∷ b.redis.del (outcomes_entry key) ∷ [])

  unfoldable pub set_outcomes_and_receipts :
      TransactionKey → IndexerExecutionOutcomeWithReceipt → Exec R Unit
  set_outcomes_and_receipts key outcome = do
    bytes ← lift (b.receipt_outcome_serde.to_vec outcome)
    b.redis.rpushx (outcomes_entry key) bytes
