-- ===== src/Primitives/Receipts.antt =====
-- Which receipts `to_final_execution_outcome_with_receipts` serves.
use read_rpc.Prelude.{
  ◌≡◌, ◌≢◌, refl, Bool, false, Option, none, some, List, [], ◌∷◌, eqb, not, ◌&&◌, ◌==◌, first,
  filter, arith, text_eq,
}
use read_rpc.Prelude.Outcome.{ok}
use read_rpc.Views.{CryptoHash, ReceiptView}
use read_rpc.Primitives.{
  TransactionDetails, keeps_receipt, filter_receipts, to_final_execution_outcome,
  to_final_execution_outcome_with_receipts,
}

abbrev is_first : Option CryptoHash → CryptoHash → Bool
is_first none id = false
is_first (some local) id = id == local

-- The receipt that a transaction from an account to itself was converted into.
pub is_local : TransactionDetails → ReceiptView → Bool
is_local tx receipt =
    eqb tx.transaction.signer_id tx.transaction.receiver_id
    && is_first (first tx.transaction_outcome.outcome.receipt_ids) receipt.receipt_id

filter_receipts-filter :
    (tx : TransactionDetails) (receipts : List ReceiptView)
    → first tx.transaction_outcome.outcome.receipt_ids ≢ none
    → filter_receipts tx receipts ≡ ok (filter (λ r. not (is_local tx r)) receipts)
unfolding filter_receipts keeps_receipt filter is_local
filter_receipts-filter tx [] h = refl
filter_receipts-filter tx (r ∷ rs) h = ground (arith, filter_receipts-filter tx rs)

-- For a transaction with a converted receipt the answer has the outcome of the transaction, and of
-- its receipts, in order, exactly those that are not local.
pub served_receipts :
    (tx : TransactionDetails)
    → first tx.transaction_outcome.outcome.receipt_ids ≢ none
    → to_final_execution_outcome_with_receipts tx
      ≡ ok (record {
        final_outcome = to_final_execution_outcome tx;
        receipts = filter (λ r. not (is_local tx r)) tx.receipts;
      })
unfolding to_final_execution_outcome_with_receipts
served_receipts tx h = rw (filter_receipts-filter tx tx.receipts h)
