-- ===== src/Primitives.antt =====
-- readnode-primitives/src/lib.rs: the key of a transaction, the details that the indexer collects,
-- and the result that is stored and served.
pub mod Key
pub mod Status
pub mod Receipts
use read_rpc.Prelude.{
  ℕ, ◌≡◌, Bool, true, false, Option, none, some, List, [], ◌∷◌, Eq, eqb, not, ◌==◌, first, length,
  if◌then◌else◌, codes, ℕ_eq, text_eq, ℕ_discrete,
}
use read_rpc.Prelude.Outcome.{Result, ok, err, panic, expect, ◌>>=◌}
use read_rpc.Views.{
  CryptoHash, AccountId, ShardId, SignedTransactionView, ReceiptView, ExecutionStatusView,
  FinalExecutionStatus, ExecutionOutcomeWithIdView, IndexerTransactionWithOutcome,
  FinalExecutionOutcomeView, FinalExecutionOutcomeWithReceiptView,
}

pub record TransactionKey : Type 0 where
  pub transaction_hash : CryptoHash
  pub block_height : ℕ

unfoldable pub key_dec : Discrete TransactionKey
unfolding ℕ_discrete
key_dec = hlevel ℕ_discrete

instance abbrev pub key_eq : Eq TransactionKey
key_eq = record { dec = key_dec }

pub record CollectingTransactionDetails : Type 0 where
  pub transaction : SignedTransactionView
  pub receipts : List ReceiptView
  pub transaction_outcome : ExecutionOutcomeWithIdView
  pub execution_outcomes : List ExecutionOutcomeWithIdView
  pub block_height : ℕ

unfoldable pub from_indexer_tx : IndexerTransactionWithOutcome → ℕ → CollectingTransactionDetails
from_indexer_tx tx block_height = record {
  transaction = tx.transaction;
  receipts = [];
  transaction_outcome = tx.outcome;
  execution_outcomes = [];
  block_height = block_height;
}

abbrev pub transaction_key : CollectingTransactionDetails → TransactionKey
transaction_key tx = record {
  transaction_hash = tx.transaction.hash;
  block_height = tx.block_height;
}

-- What the closure of `find_map` decides at an outcome with the id that is looked for: a final
-- status, or the id to look for next.
pub data Verdict : Type 0 where
  final : FinalExecutionStatus → Verdict
  look_for : CryptoHash → Verdict

unfoldable pub verdict : ℕ → ExecutionStatusView → Verdict
verdict num_outcomes ExecutionStatusView.unknown =
    final
      (if num_outcomes == 1 then FinalExecutionStatus.not_started else FinalExecutionStatus.started)
verdict num_outcomes (ExecutionStatusView.failure e) = final (FinalExecutionStatus.failure e)
verdict num_outcomes (ExecutionStatusView.success_value v) =
    final (FinalExecutionStatus.success_value v)
verdict num_outcomes (ExecutionStatusView.success_receipt_id id) = look_for id

-- A final status is the answer; otherwise `search_on` goes on with the next id.
abbrev pub settle :
    ℕ
    → ExecutionStatusView
    → (CryptoHash → Option FinalExecutionStatus)
    → Option FinalExecutionStatus
settle num_outcomes status search_on = elim (verdict num_outcomes status) [
  | final answer ↦ some answer
  | look_for id ↦ search_on id
]

-- `execution_outcomes.iter().find_map(…)`, with `looking_for_id` as its state.
unfoldable pub find_status :
    ℕ → CryptoHash → List ExecutionOutcomeWithIdView → Option FinalExecutionStatus
find_status num_outcomes looking_for_id [] = none
find_status num_outcomes looking_for_id (o ∷ rest) = elim (o.id == looking_for_id) [
  | true ↦ settle num_outcomes o.outcome.status (λ id. find_status num_outcomes id rest)
  | false ↦ find_status num_outcomes looking_for_id rest
]

abbrev pub all_outcomes : CollectingTransactionDetails → List ExecutionOutcomeWithIdView
all_outcomes tx = tx.transaction_outcome ∷ tx.execution_outcomes

unfoldable pub final_status : CollectingTransactionDetails → Option FinalExecutionStatus
final_status tx = find_status (length (all_outcomes tx)) tx.transaction.hash (all_outcomes tx)

pub record TransactionDetails : Type 0 where
  pub receipts : List ReceiptView
  pub receipts_outcome : List ExecutionOutcomeWithIdView
  pub status : FinalExecutionStatus
  pub transaction : SignedTransactionView
  pub transaction_outcome : ExecutionOutcomeWithIdView

abbrev pub with_status : CollectingTransactionDetails → FinalExecutionStatus → TransactionDetails
with_status tx status = record {
  receipts = tx.receipts;
  receipts_outcome = tx.execution_outcomes;
  status = status;
  transaction = tx.transaction;
  transaction_outcome = tx.transaction_outcome;
}

unfoldable pub to_final_transaction_result :
    CollectingTransactionDetails → Result TransactionDetails
to_final_transaction_result tx = elim (final_status tx) [
  | some status ↦ ok (with_status tx status)
  | none ↦ err (codes "Results should resolve to a final outcome")
]

-- `From<CollectingTransactionDetails> for TransactionDetails`
unfoldable pub transaction_details : CollectingTransactionDetails → TransactionDetails
transaction_details tx =
    with_status tx
      (elim (final_status tx) [ some status ↦ status | none ↦ FinalExecutionStatus.not_started ])

unfoldable pub to_final_execution_outcome : TransactionDetails → FinalExecutionOutcomeView
to_final_execution_outcome tx = record {
  status = tx.status;
  transaction = tx.transaction;
  transaction_outcome = tx.transaction_outcome;
  receipts_outcome = tx.receipts_outcome;
}

-- The closure of the filter; its `expect` runs only for a transaction that its signer sent to itself.
unfoldable pub keeps_receipt : TransactionDetails → ReceiptView → Result Bool
keeps_receipt tx receipt =
    if eqb tx.transaction.signer_id tx.transaction.receiver_id
    then (do
      local ←
          expect (first tx.transaction_outcome.outcome.receipt_ids)
            (codes "Transaction ExecutionOutcome must have exactly one receipt id in `receipt_ids`")
      ok (not (receipt.receipt_id == local)))
    else ok true

unfoldable pub filter_receipts : TransactionDetails → List ReceiptView → Result (List ReceiptView)
filter_receipts tx [] = ok []
filter_receipts tx (receipt ∷ receipts) = do
  keep ← keeps_receipt tx receipt
  rest ← filter_receipts tx receipts
  ok (if keep then receipt ∷ rest else rest)

unfoldable pub to_final_execution_outcome_with_receipts :
    TransactionDetails → Result FinalExecutionOutcomeWithReceiptView
to_final_execution_outcome_with_receipts tx = do
  receipts ← filter_receipts tx tx.receipts
  ok (record { final_outcome = to_final_execution_outcome tx; receipts = receipts })

pub record ReceiptRecord : Type 0 where
  pub receipt_id : CryptoHash
  pub parent_transaction_hash : CryptoHash
  pub receiver_id : AccountId
  pub block_height : ℕ
  pub block_hash : CryptoHash
  pub shard_id : ShardId

pub record OutcomeRecord : Type 0 where
  pub outcome_id : CryptoHash
  pub parent_transaction_hash : CryptoHash
  pub receiver_id : AccountId
  pub block_height : ℕ
  pub block_hash : CryptoHash
  pub shard_id : ShardId

pub record BlockRecord : Type 0 where
  pub height : ℕ
  pub hash : CryptoHash
