-- ===== src/TxStorage/Completion.antt =====
-- tx-indexer/src/storage.rs: what a watched receipt's outcome does to its transaction.
use read_rpc.Prelude.{
  ℕ, ◌-◌, ◌≤◌, ◌<◌, ◌≡◌, Text, get_or, arith, text_eq, ℕ_eq, u64_mod, sub_u64, sub_u64_exact, ◌==◌,
  none, some, refl, Option, ap, ◌∙◌, false,
}
use read_rpc.Prelude.HashMap.{lookup, lookup-insert, lookup-modify, lookup-remove, count-remove}
use read_rpc.Views.{CryptoHash, IndexerExecutionOutcomeWithReceipt}
use read_rpc.Primitives.{TransactionKey, key_eq, CollectingTransactionDetails, transaction_key}
use read_rpc.TxStorage.{
  CacheStorage, remove_receipt_from_watching_list, move_tx_to_save, update_tx, get_tx,
  receipts_transaction_count, with_outcome, push_outcome_and_receipt_to_cache,
}
use read_rpc.TxStorage.Consistency.{
  watched, counter, IsConsistent, remove_receipt_lem, remove_receipt-IsConsistent,
}

module _ {R : Type 0} where
  -- A receipt that is watched for the transaction is counted.
  counter-watched :
      (r : Text) (key : TransactionKey) (b : ℕ) (s : CacheStorage R)
      → IsConsistent b s
      → lookup r s.receipts_watching_list ≡ some key
      → 1 ≤ counter key s
  counter-watched r key b s h found =
      ground (arith, h.counted key, count-remove key r s.receipts_watching_list h.unique)

  counters-remove_receipt :
      (r : Text) (key : TransactionKey) (b : ℕ) (s : CacheStorage R)
      → IsConsistent b s
      → b < u64_mod
      → lookup r s.receipts_watching_list ≡ some key
      → lookup key (remove_receipt_from_watching_list r s).1.receipts_counters
        ≡ some (counter key s - 1)
  unfolding remove_receipt_from_watching_list
  counters-remove_receipt r key b s h lt found = ground (
    arith,
    h.bounded key,
    counter-watched r key b s h found,
    sub_u64_exact (counter key s) 1,
    lookup-modify key key (λ counter. sub_u64 counter 1) s.receipts_counters,
  )

  to_save-remove_receipt :
      (r : Text) (s : CacheStorage R)
      → (remove_receipt_from_watching_list r s).1.transactions_to_save ≡ s.transactions_to_save
  unfolding remove_receipt_from_watching_list
  to_save-remove_receipt r s = ground arith

  watching-remove_receipt :
      (r : Text) (s : CacheStorage R)
      → lookup r (remove_receipt_from_watching_list r s).1.receipts_watching_list ≡ none
  unfolding remove_receipt_from_watching_list
  watching-remove_receipt r s = ground (arith, lookup-remove r r s.receipts_watching_list)

  module _ (to_string : CryptoHash → Text) (key : TransactionKey)
      (o : IndexerExecutionOutcomeWithReceipt) (b : ℕ) (s : CacheStorage R)
      (tx : CollectingTransactionDetails) (h : IsConsistent b s) (lt : b < u64_mod)
      (known : lookup key s.transactions ≡ some tx)
      (found : lookup (to_string o.receipt.receipt_id) s.receipts_watching_list ≡ some key) where
    abbrev pub after : CacheStorage R
    after = (push_outcome_and_receipt_to_cache to_string key o s).1

    -- The state once the receipt was taken off the watching list.
    abbrev taken : CacheStorage R
    taken = (remove_receipt_from_watching_list (to_string o.receipt.receipt_id) s).1

    left : lookup key taken.receipts_counters ≡ some (counter key s - 1)
    left = counters-remove_receipt (to_string o.receipt.receipt_id) key b s h lt found

    after_completes :
        counter key s ≡ 1
        → (push_outcome_and_receipt_to_cache to_string key o s).1
          ≡ (move_tx_to_save (with_outcome tx o) taken).1
    unfolding push_outcome_and_receipt_to_cache get_tx receipts_transaction_count
    after_completes one =
        rw
          (
            known,
            remove_receipt_lem (to_string o.receipt.receipt_id) s,
            left ∙ ap (λ (n : ℕ). some (n - 1)) one,
          )
          refl

    after_continues :
        1 < counter key s
        → (push_outcome_and_receipt_to_cache to_string key o s).1
          ≡ (update_tx (with_outcome tx o) taken).1
    unfolding push_outcome_and_receipt_to_cache get_tx receipts_transaction_count
    after_continues more =
        let some_left : (counter key s - 1 == 0) ≡ false = ground arith in
        rw (known, remove_receipt_lem (to_string o.receipt.receipt_id) s, left, some_left) refl

    -- The outcome of the last receipt that a collected transaction waits for queues the
    -- transaction to be saved, with the outcome and the receipt added at its end; the transaction
    -- is no longer collected and no receipt is watched for it. The storage is consistent before,
    -- with fewer than 2^64 receipts pushed, and the receipt is watched for the transaction.
    pub push_outcome_completes :
        counter key s ≡ 1
        → (lookup key after.transactions_to_save ≡ some (with_outcome tx o))
          × (lookup key after.transactions ≡ none)
          × (watched key after ≡ 0)
    unfolding move_tx_to_save
    push_outcome_completes one = rw (after_completes one) (
      ground (
        arith,
        h.keyed key tx known,
        lookup-insert (transaction_key tx) key (with_outcome tx o) taken.transactions_to_save,
      ),
      ground
          (arith, h.keyed key tx known, lookup-remove (transaction_key tx) key taken.transactions),
      omega (
        arith,
        (remove_receipt-IsConsistent (to_string o.receipt.receipt_id) b s lt h).counted key,
        ap (λ (n : Option ℕ). get_or n 0) left,
        one,
      ),
    )

    -- The outcome of a receipt that is watched for a collected transaction, while more are
    -- counted, is added to the transaction; its counter falls by one, the receipt is no longer
    -- watched, and what is queued to be saved stays as it is. The storage is consistent before,
    -- with fewer than 2^64 receipts pushed.
    pub push_outcome_continues :
        1 < counter key s
        → (lookup key after.transactions ≡ some (with_outcome tx o))
          × (counter key after ≡ counter key s - 1)
          × (lookup (to_string o.receipt.receipt_id) after.receipts_watching_list ≡ none)
          × (after.transactions_to_save ≡ s.transactions_to_save)
    unfolding update_tx
    push_outcome_continues more = rw (after_continues more) (
      ground (
        arith,
        h.keyed key tx known,
        lookup-insert (transaction_key tx) key (with_outcome tx o) taken.transactions,
      ),
      ap (λ (n : Option ℕ). get_or n 0) left,
      watching-remove_receipt (to_string o.receipt.receipt_id) s,
      to_save-remove_receipt (to_string o.receipt.receipt_id) s,
    )
