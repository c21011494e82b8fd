-- ===== src/Tests/TxStorage.antt =====
-- tx-indexer/src/storage.rs: a transaction that waits for one receipt, and for two.
use read_rpc.Prelude.{
  ℕ, ◌-◌, ◌≡◌, refl, none, some, [], ◌∷◌, Text, arith, text_eq, ℕ_eq, ℕ_discrete, text_dec,
}
use mathlib.Core.Path.{subst}
use read_rpc.Prelude.HashMap.{HashMap, lookup, count, values}
use read_rpc.Prelude.Outcome.{ok}
use read_rpc.Views.{CryptoHash}
use read_rpc.Primitives.{
  TransactionKey, key_eq, CollectingTransactionDetails, ReceiptRecord, OutcomeRecord, BlockRecord,
}
use read_rpc.TxStorage.{
  CacheStorage, ReceiptsAndOutcomes, with_outcome, push_outcome_and_receipt_to_cache,
}
use read_rpc.TxStorage.Consistency.{watched, counter, IsConsistent}
use read_rpc.TxStorage.Completion.{push_outcome_completes, push_outcome_continues}
use read_rpc.TxStorage.Records.{
  snapshot, take_outcomes_and_receipts_to_save, push_outcome_and_receipt_to_save,
  return_outcomes_to_save, return_receipts_to_save,
}
use read_rpc.TxStorage.Records.Drain.{IsFiled, take_outcomes_and_receipts_to_save-drains}
use read_rpc.TxStorage.Records.Filed.{AllFiled, records-AllFiled}
use read_rpc.Tests.Fixtures.{transaction, executed_2, hashes, alice}

abbrev collected : CollectingTransactionDetails
collected = record {
  transaction = transaction.transaction;
  receipts = [];
  transaction_outcome = transaction.outcome;
  execution_outcomes = [];
  block_height = 1;
}

abbrev key : TransactionKey
key = record { transaction_hash = 1; block_height = 1 }

abbrev text : CryptoHash → Text
text = hashes.to_string

abbrev waiting : ℕ → HashMap Text TransactionKey → CacheStorage Unit
waiting n list = record {
  storage = tt;
  transactions = (key, collected) ∷ [];
  receipts_counters = (key, n) ∷ [];
  receipts_watching_list = list;
  transactions_to_save = [];
  outcomes_and_receipts_to_save = [];
}

abbrev last : CacheStorage Unit
last = waiting 1 ((text 2, key) ∷ [])

abbrev two : CacheStorage Unit
two = waiting 2 ((text 2, key) ∷ (text 9, key) ∷ [])

last-IsConsistent : IsConsistent 1 last
unfolding lookup count
last-IsConsistent = record {
  unique = (refl, tt);
  counted = λ k. ground arith;
  bounded = λ k. ground arith;
  keyed = λ k tx h. ground arith;
}

two-IsConsistent : IsConsistent 2 two
unfolding lookup count text_dec ℕ_discrete
two-IsConsistent = record {
  unique = (refl, (refl, tt));
  counted = λ k. ground arith;
  bounded = λ k. ground arith;
  keyed = λ k tx h. ground arith;
}

known :
    (n : ℕ) (list : HashMap Text TransactionKey)
    → lookup key (waiting n list).transactions ≡ some collected
unfolding lookup
known n list = ground arith

watched_last : lookup (text 2) last.receipts_watching_list ≡ some key
unfolding lookup
watched_last = ground arith

watched_two : lookup (text 2) two.receipts_watching_list ≡ some key
unfolding lookup
watched_two = ground arith

counter-last : counter key last ≡ 1
unfolding lookup
counter-last = ground arith

counter-two : counter key two ≡ 2
unfolding lookup
counter-two = ground arith

push_outcome_completes_example :
    let s = (push_outcome_and_receipt_to_cache text key executed_2 last).1 in
    (lookup key s.transactions_to_save ≡ some (with_outcome collected executed_2))
    × (lookup key s.transactions ≡ none)
    × (watched key s ≡ 0)
push_outcome_completes_example =
    push_outcome_completes text key executed_2 1 last collected last-IsConsistent (omega arith)
      (known 1 ((text 2, key) ∷ [])) watched_last counter-last

push_outcome_continues_example :
    let s = (push_outcome_and_receipt_to_cache text key executed_2 two).1 in
    (lookup key s.transactions ≡ some (with_outcome collected executed_2))
    × (counter key s ≡ counter key two - 1)
    × (lookup (text 2) s.receipts_watching_list ≡ none)
    × (s.transactions_to_save ≡ two.transactions_to_save)
push_outcome_continues_example =
    push_outcome_continues text key executed_2 2 two collected two-IsConsistent (omega arith)
      (known 2 ((text 2, key) ∷ (text 9, key) ∷ [])) watched_two (omega (arith, counter-two))

abbrev block : BlockRecord
block = record { height = 1; hash = 1001 }

abbrev receipt_2 : ReceiptRecord
receipt_2 = record {
  receipt_id = 2;
  parent_transaction_hash = 1;
  receiver_id = alice;
  block_height = 1;
  block_hash = 1001;
  shard_id = 0;
}

abbrev outcome_2 : OutcomeRecord
outcome_2 = record {
  outcome_id = 2;
  parent_transaction_hash = 1;
  receiver_id = alice;
  block_height = 1;
  block_hash = 1001;
  shard_id = 0;
}

abbrev shard_records : ReceiptsAndOutcomes
shard_records = record { receipts = (text 2, receipt_2) ∷ []; outcomes = (text 2, outcome_2) ∷ [] }

-- Records wait in shard 3.
abbrev recorded : CacheStorage Unit
recorded = record last { outcomes_and_receipts_to_save = (3, shard_records) ∷ [] }

records-IsFiled : IsFiled text shard_records
unfolding lookup
records-IsFiled = record {
  receipts_once = (refl, tt);
  receipts_by_id = (refl, tt);
  outcomes_once = (refl, tt);
  outcomes_by_id = (refl, tt);
}

waiting_3 : lookup 3 recorded.outcomes_and_receipts_to_save ≡ some shard_records
unfolding lookup ℕ_discrete
waiting_3 = refl

recorded-AllFiled : AllFiled text recorded
unfolding lookup
recorded-AllFiled id r found = subst (IsFiled text) (ground arith) records-IsFiled

take_outcomes_and_receipts_to_save-drains_example :
    let saved = snapshot text recorded.outcomes_and_receipts_to_save in
    ((take_outcomes_and_receipts_to_save text recorded).0 ≡ ok saved)
    × (lookup 3 saved
        ≡ some (record {
          receipts = values shard_records.receipts;
          outcomes = values shard_records.outcomes;
        }))
    × (lookup 3 (take_outcomes_and_receipts_to_save text recorded).1.outcomes_and_receipts_to_save
        ≡ some (record { receipts = []; outcomes = [] }))
take_outcomes_and_receipts_to_save-drains_example =
    take_outcomes_and_receipts_to_save-drains text recorded 3 shard_records waiting_3
      records-IsFiled

records-AllFiled_example :
    AllFiled text (push_outcome_and_receipt_to_save text (λ id. 3) 5 6 1 alice block 3 recorded).1
    × AllFiled text (return_outcomes_to_save text 3 (outcome_2 ∷ []) recorded).1
    × AllFiled text (return_receipts_to_save text 3 (receipt_2 ∷ []) recorded).1
records-AllFiled_example =
    records-AllFiled text recorded recorded-AllFiled (λ id. 3) 5 6 1 alice block 3 (receipt_2 ∷ [])
      (outcome_2 ∷ [])
