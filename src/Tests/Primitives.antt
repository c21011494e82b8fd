-- ===== src/Tests/Primitives.antt =====
-- readnode-primitives: a key's text, a status over two receipts, and the receipts that are served.
use read_rpc.Prelude.{◌≡◌, refl, some, [], ◌∷◌, arith, text_eq}
use read_rpc.Prelude.Outcome.{ok}
use read_rpc.Views.{ExecutionStatusView, FinalExecutionStatus}
use read_rpc.Primitives.{
  TransactionKey, CollectingTransactionDetails, TransactionDetails, final_status, find_status,
  verdict, all_outcomes,
}
use read_rpc.Primitives.Key.{key_to_string, key_from_string, key_from_string-to_string}
use read_rpc.Primitives.Status.{resolve, final_status-resolve}
use read_rpc.Tests.Fixtures.{hashes, transaction, executed_2, executed_3, receipt, alice, outcome}

abbrev key : TransactionKey
key = record { transaction_hash = 1; block_height = 120300 }

key_from_string-to_string_example : key_from_string hashes (key_to_string hashes key) ≡ ok key
key_from_string-to_string_example = key_from_string-to_string hashes key (omega arith)

abbrev collected : CollectingTransactionDetails
collected = record {
  transaction = transaction.transaction;
  receipts = receipt 2 ∷ receipt 3 ∷ [];
  transaction_outcome = transaction.outcome;
  execution_outcomes = executed_2.execution_outcome ∷ executed_3.execution_outcome ∷ [];
  block_height = 1;
}

status_of_collected : final_status collected ≡ some (FinalExecutionStatus.success_value (7 ∷ []))
unfolding final_status find_status verdict
status_of_collected = refl

final_status-resolve_example : final_status collected ≡ resolve 3 4 1 (all_outcomes collected)
final_status-resolve_example = final_status-resolve collected (ground arith)

-- A transaction from alice to herself: receipt 2 is local.
abbrev to_self : TransactionDetails
to_self = record {
  receipts = receipt 2 ∷ receipt 3 ∷ [];
  receipts_outcome = [];
  status = FinalExecutionStatus.success_value [];
  transaction = record { hash = 1; signer_id = alice; receiver_id = alice };
  transaction_outcome = outcome 1 (2 ∷ []) (ExecutionStatusView.success_receipt_id 2);
}
