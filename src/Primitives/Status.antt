-- ===== src/Primitives/Status.antt =====
-- The final status of a transaction, against the resolution by id of nearcore: follow the
-- `SuccessReceiptId`s from the transaction's hash, looking each id up among all outcomes.
use read_rpc.Prelude.{
  ℕ, zero, suc, ◌≤◌, ◌≡◌, ◌≢◌, refl, sym, ap, ◌∙◌, inl, inr, true, false, Option, none, some, List,
  [], ◌∷◌, ◌==◌, All, length, arith, Bool-cases, Option-cases,
}
use read_rpc.Views.{
  CryptoHash, ExecutionStatusView, FinalExecutionStatus, ExecutionOutcomeWithIdView,
}
use read_rpc.Primitives.{
  CollectingTransactionDetails, verdict, settle, find_status, all_outcomes, final_status,
}

abbrev find_outcome :
    CryptoHash → List ExecutionOutcomeWithIdView → Option ExecutionOutcomeWithIdView
find_outcome id [] = none
find_outcome id (o ∷ rest) = elim (o.id == id) [ true ↦ some o | false ↦ find_outcome id rest ]

abbrev next_of : ExecutionStatusView → Option CryptoHash
next_of (ExecutionStatusView.success_receipt_id id) = some id
next_of ExecutionStatusView.unknown = none
next_of (ExecutionStatusView.failure e) = none
next_of (ExecutionStatusView.success_value v) = none

-- `get_execution_status` by id; the fuel bounds the links that are followed.
pub resolve : ℕ → ℕ → CryptoHash → List ExecutionOutcomeWithIdView → Option FinalExecutionStatus
resolve n zero id os = none
resolve n (suc fuel) id os = elim (find_outcome id os) [
  | none ↦ none
  | some o ↦ settle n o.outcome.status (λ next. resolve n fuel next os)
]

-- No outcome of the list refers to `id`.
abbrev pub Avoids : CryptoHash → List ExecutionOutcomeWithIdView → Type 0
Avoids id = All (λ o. next_of o.outcome.status ≢ some id)

-- A receipt's outcome stands after the outcome that refers to it.
abbrev pub ParentsFirst : List ExecutionOutcomeWithIdView → Type 0
ParentsFirst [] = Unit
ParentsFirst (o ∷ rest) = Avoids o.id (o ∷ rest) × ParentsFirst rest

found-Avoids :
    (x id : CryptoHash) (os : List ExecutionOutcomeWithIdView) (o : ExecutionOutcomeWithIdView)
    → Avoids x os
    → find_outcome id os ≡ some o
    → next_of o.outcome.status ≢ some x
found-Avoids x id [] o a h = absurd (ground arith)
found-Avoids x id (p ∷ os) o a h = elim (Bool-cases (p.id == id)) [
  | inl here ↦ λ e. a.0 (ground arith)
  | inr there ↦ found-Avoids x id os o a.1 (ground arith)
]

-- Two ways to go on that agree at the next id give one answer.
settle_agree :
    (n : ℕ) (status : ExecutionStatusView) (f g : CryptoHash → Option FinalExecutionStatus)
    → ((next : CryptoHash) → next_of status ≡ some next → f next ≡ g next)
    → settle n status f ≡ settle n status g
unfolding verdict
settle_agree n (ExecutionStatusView.success_receipt_id id) f g h = h id refl
settle_agree n _ f g h = refl

-- An outcome in front that nothing refers to is never looked up.
resolve_skip :
    (n fuel : ℕ) (id : CryptoHash) (o : ExecutionOutcomeWithIdView)
    (os : List ExecutionOutcomeWithIdView)
    → o.id ≢ id
    → Avoids o.id os
    → resolve n fuel id (o ∷ os) ≡ resolve n fuel id os
unfolding resolve
resolve_skip n zero id o os ne a = refl
resolve_skip n (suc fuel) id o os ne a = elim (Option-cases (find_outcome id os)) [
  | inl missing ↦ ground arith
  | inr (p, found) ↦
      let front : find_outcome id (o ∷ os) ≡ some p = ground arith in
      rw (front, found, resolve)
        (settle_agree n p.outcome.status _ _ (λ next e.
          resolve_skip n fuel next o os
            (λ same. found-Avoids o.id id os p a found (e ∙ ap some (sym same))) a))
]

find_status-resolve :
    (n fuel : ℕ) (id : CryptoHash) (os : List ExecutionOutcomeWithIdView)
    → ParentsFirst os
    → length os ≤ fuel
    → find_status n id os ≡ resolve n (suc fuel) id os
unfolding find_status resolve
find_status-resolve n fuel id [] p le = refl
find_status-resolve n zero id (o ∷ os) p le = absurd (omega arith)
find_status-resolve n (suc fuel) id (o ∷ os) p le = elim (Bool-cases (o.id == id)) [
  | inl here ↦
      rw (here, find_status, resolve)
        (settle_agree n o.outcome.status _ _ (λ next e.
          find_status-resolve n fuel next os p.1 (omega arith)
          ∙ sym
              (resolve_skip n (suc fuel) next o os (λ same. p.0.0 (e ∙ ap some (sym same))) p.0.1)))
  | inr there ↦
      rw (there, find_status)
        (find_status-resolve n (suc fuel) id os p.1 (omega arith)
          ∙ sym (resolve_skip n (suc (suc fuel)) id o os (ground arith) p.0.1))
]

-- Where the collected outcomes stand parents first, the single pass of `final_status` finds what
-- following the receipts by id finds.
pub final_status-resolve :
    (tx : CollectingTransactionDetails)
    → ParentsFirst (all_outcomes tx)
    → final_status tx
      ≡ resolve
          (length (all_outcomes tx))
          (suc (length (all_outcomes tx)))
          tx.transaction.hash
          (all_outcomes tx)
unfolding final_status
final_status-resolve tx p = find_status-resolve _ _ _ (all_outcomes tx) p (omega arith)
