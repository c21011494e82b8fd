-- ===== src/TxStorage/Consistency.antt =====
-- The counters of `CacheStorage` against its watching list: a transaction's counter never falls
-- below the number of receipts that are watched for it, so the decrement does not wrap and a
-- transaction whose counter is zero waits for no receipt. The budget counts the receipts pushed.
use read_rpc.Prelude.{
  ℕ, ◌+◌, ◌≤◌, ◌<◌, ◌≡◌, Text, get_or, arith, text_eq, ℕ_eq, u64_mod, add_u64_exact, sub_u64_exact,
  add_u64, sub_u64, Option-cases, Bool-cases, ◌==◌, if◌then◌else◌, inl, inr, some,
}
use read_rpc.Prelude.HashMap.{
  IsMap, lookup, count, lookup-insert, lookup-upsert, lookup-modify, lookup-remove, insert-IsMap,
  remove-IsMap, count-insert, count-remove,
}
use read_rpc.Prelude.Outcome.{ok}
use read_rpc.Prelude.Exec.{◌>>=◌}
use native.Mathlib.Nat.{add-zero}
use read_rpc.Prelude.Exec.Budget.{Budget, Spends, Spends-free}
use read_rpc.Views.{CryptoHash, IndexerExecutionOutcomeWithReceipt}
use read_rpc.Primitives.{TransactionKey, key_eq, CollectingTransactionDetails, transaction_key}
use read_rpc.TxStorage.{
  CacheStorage, Method, init_storage, push_receipt_to_watching_list,
  remove_receipt_from_watching_list, move_tx_to_save, update_tx, get_tx, receipts_transaction_count,
  with_outcome, push_outcome_and_receipt_to_cache,
}

abbrev pub watched : {R : Type 0} → TransactionKey → CacheStorage R → ℕ
watched key s = count key s.receipts_watching_list

abbrev pub counter : {R : Type 0} → TransactionKey → CacheStorage R → ℕ
counter key s = get_or (lookup key s.receipts_counters) 0

pub record IsConsistent {R : Type 0} (b : ℕ) (s : CacheStorage R) : Type 0 where
  pub unique : IsMap s.receipts_watching_list
  pub counted : (key : TransactionKey) → watched key s ≤ counter key s
  pub bounded : (key : TransactionKey) → counter key s ≤ b
  pub keyed :
      (key : TransactionKey) (tx : CollectingTransactionDetails)
      → lookup key s.transactions ≡ some tx
      → transaction_key tx ≡ key

abbrev pub consistency : (R : Type 0) → Budget (CacheStorage R)
consistency R = record {
  Holds = IsConsistent;
  limit = u64_mod;
  grows = λ a b s le h. record {
    unique = h.unique;
    counted = h.counted;
    bounded = λ key. omega (arith, h.bounded key);
    keyed = h.keyed;
  };
}

module _ {R : Type 0} where
  push_receipt-IsConsistent :
      (r : Text) (key : TransactionKey) (b : ℕ) (s : CacheStorage R)
      → b + 1 < u64_mod
      → IsConsistent b s
      → IsConsistent (b + 1) (push_receipt_to_watching_list r key s).1
  unfolding push_receipt_to_watching_list
  push_receipt-IsConsistent r key b s lt h = record {
    unique = insert-IsMap r key _ h.unique;
    counted = λ k. ground (
      arith,
      h.counted k,
      h.bounded key,
      add_u64_exact (counter key s) 1,
      lookup-upsert key k (λ counter. add_u64 counter 1) 1 s.receipts_counters,
      count-insert k key r s.receipts_watching_list,
    );
    bounded = λ k. ground (
      arith,
      h.bounded k,
      h.bounded key,
      add_u64_exact (counter key s) 1,
      lookup-upsert key k (λ counter. add_u64 counter 1) 1 s.receipts_counters,
    );
    keyed = h.keyed;
  }

  pub remove_receipt-IsConsistent :
      (r : Text) (b : ℕ) (s : CacheStorage R)
      → b < u64_mod
      → IsConsistent b s
      → IsConsistent b (remove_receipt_from_watching_list r s).1
  unfolding remove_receipt_from_watching_list
  remove_receipt-IsConsistent r b s lt h = elim (Option-cases (lookup r s.receipts_watching_list)) [
    | inl missing ↦ rw (missing, remove_receipt_from_watching_list) h
    | inr (key, found) ↦
        rw (found, remove_receipt_from_watching_list)
          (record {
            unique = remove-IsMap r _ h.unique;
            counted = λ k. ground (
              arith,
              h.counted k,
              h.counted key,
              h.bounded key,
              sub_u64_exact (counter key s) 1,
              lookup-modify key k (λ counter. sub_u64 counter 1) s.receipts_counters,
              count-remove k r s.receipts_watching_list h.unique,
              count-remove key r s.receipts_watching_list h.unique,
            );
            bounded = λ k. ground (
              arith,
              h.bounded k,
              h.counted key,
              h.bounded key,
              sub_u64_exact (counter key s) 1,
              lookup-modify key k (λ counter. sub_u64 counter 1) s.receipts_counters,
              count-remove key r s.receipts_watching_list h.unique,
            );
            keyed = h.keyed;
          })
  ]

  pub move_tx_to_save-IsConsistent :
      (tx : CollectingTransactionDetails) (b : ℕ) (s : CacheStorage R)
      → watched (transaction_key tx) s ≡ 0
      → IsConsistent b s
      → IsConsistent b (move_tx_to_save tx s).1
  unfolding move_tx_to_save
  move_tx_to_save-IsConsistent tx b s idle h = record {
    unique = h.unique;
    counted =
        λ k. ground (arith, h.counted k, lookup-remove (transaction_key tx) k s.receipts_counters);
    bounded =
        λ k. ground (arith, h.bounded k, lookup-remove (transaction_key tx) k s.receipts_counters);
    keyed = λ k t. ground (arith, h.keyed k t, lookup-remove (transaction_key tx) k s.transactions);
  }

  pub update_tx-IsConsistent :
      (tx : CollectingTransactionDetails) (b : ℕ) (s : CacheStorage R)
      → IsConsistent b s
      → IsConsistent b (update_tx tx s).1
  unfolding update_tx
  update_tx-IsConsistent tx b s h = record {
    unique = h.unique;
    counted = h.counted;
    bounded = h.bounded;
    keyed =
        λ k t. ground (arith, h.keyed k t, lookup-insert (transaction_key tx) k tx s.transactions);
  }

  pub transactions-remove_receipt :
      (r : Text) (s : CacheStorage R)
      → (remove_receipt_from_watching_list r s).1.transactions ≡ s.transactions
  unfolding remove_receipt_from_watching_list
  transactions-remove_receipt r s = ground arith

  pub remove_receipt_lem :
      (r : Text) (s : CacheStorage R)
      → remove_receipt_from_watching_list r s ≡ (ok tt, (remove_receipt_from_watching_list r s).1)
  unfolding remove_receipt_from_watching_list
  remove_receipt_lem r s = ground arith

  -- What `push_outcome_and_receipt_to_cache` does after the receipt was taken off the list.
  abbrev pub settle_tx : TransactionKey → CollectingTransactionDetails → Method R Unit
  settle_tx key tx = do
    count ← receipts_transaction_count key
    if count == 0 then move_tx_to_save tx else update_tx tx

  settle_tx-IsConsistent :
      (key : TransactionKey) (tx : CollectingTransactionDetails) (b : ℕ) (s : CacheStorage R)
      → transaction_key tx ≡ key
      → IsConsistent b s
      → IsConsistent b (settle_tx key tx s).1
  unfolding receipts_transaction_count
  settle_tx-IsConsistent key tx b s same h = elim (Option-cases (lookup key s.receipts_counters)) [
    | inl missing ↦ rw missing h
    | inr (n, found) ↦ elim (Bool-cases (n == 0)) [
      | inl none_left ↦
          rw (found, none_left)
            (move_tx_to_save-IsConsistent tx b s (rw same (ground (arith, h.counted key))) h)
      | inr some_left ↦ rw (found, some_left) (update_tx-IsConsistent tx b s h)
    ]
  ]

  module _ (to_string : CryptoHash → Text) where
    push_outcome-IsConsistent :
        (key : TransactionKey) (o : IndexerExecutionOutcomeWithReceipt) (b : ℕ) (s : CacheStorage R)
        → b < u64_mod
        → IsConsistent b s
        → IsConsistent b (push_outcome_and_receipt_to_cache to_string key o s).1
    unfolding push_outcome_and_receipt_to_cache get_tx
    push_outcome-IsConsistent key o b s lt h = elim (Option-cases (lookup key s.transactions)) [
      | inl missing ↦ rw missing h
      | inr (tx, found) ↦
          rw (found, remove_receipt_lem (to_string o.receipt.receipt_id) s)
            (settle_tx-IsConsistent key (with_outcome tx o) b _ (h.keyed key tx found)
              (remove_receipt-IsConsistent (to_string o.receipt.receipt_id) b s lt h))
    ]

  pub Spends-push_receipt :
      (r : Text) (key : TransactionKey)
      → Spends (consistency R) 1 (push_receipt_to_watching_list r key)
  Spends-push_receipt r key = record { at = λ b s lt h. push_receipt-IsConsistent r key b s lt h }

  pub Spends-update_tx :
      (tx : CollectingTransactionDetails) → Spends (consistency R) 0 (update_tx tx)
  Spends-update_tx tx = Spends-free (consistency R) 0 _ (update_tx-IsConsistent tx)

  pub Spends-push_outcome :
      (to_string : CryptoHash → Text) (key : TransactionKey)
      (o : IndexerExecutionOutcomeWithReceipt)
      → Spends (consistency R) 0 (push_outcome_and_receipt_to_cache to_string key o)
  Spends-push_outcome to_string key o = record {
    at = λ b s lt h.
        rw add-zero (push_outcome-IsConsistent to_string key o b s (rw add-zero at lt) h);
  }

  -- A method that leaves the four maps alone.
  pub Spends-elsewhere :
      {A : Type 0} (m : Method R A)
      → ((s : CacheStorage R)
          → ((m s).1.receipts_watching_list ≡ s.receipts_watching_list)
            × ((m s).1.receipts_counters ≡ s.receipts_counters)
            × ((m s).1.transactions ≡ s.transactions))
      → Spends (consistency R) 0 m
  Spends-elsewhere m same = Spends-free (consistency R) 0 m λ b s h.
      let (watching, counters, transactions) = same s in
      record {
        unique = rw watching h.unique;
        counted = λ key. rw (watching, counters) (h.counted key);
        bounded = λ key. rw counters (h.bounded key);
        keyed = λ key tx. rw transactions (h.keyed key tx);
      }

pub IsConsistent-init_storage : {R : Type 0} (r : R) → IsConsistent 0 (init_storage r)
unfolding init_storage lookup count
IsConsistent-init_storage r = record {
  unique = tt;
  counted = λ key. omega arith;
  bounded = λ key. omega arith;
  keyed = λ key tx. ground arith;
}
