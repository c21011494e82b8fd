-- ===== src/Tests/Blocks.antt =====
-- rpc-server/src/modules/blocks: the changes of an optimistic block.
use read_rpc.Prelude.{◌≡◌, none, List, [], ◌∷◌, if◌then◌else◌, text_eq}
use read_rpc.Prelude.HashMap.{lookup}
use read_rpc.Views.{
  StateChangeWithCauseView, StateChangeValueView, account_update, account_deletion,
  access_key_update, data_update, data_deletion, contract_code_update,
}
use read_rpc.Blocks.{record_changes, state_changes_in_block, starts_with}
use read_rpc.Blocks.Latest.{last_about, data_value, state_changes_last}
use read_rpc.Tests.Fixtures.{alice, bob}

abbrev change : StateChangeValueView → StateChangeWithCauseView
change value = record { cause = 0; value = value }

abbrev block : List StateChangeWithCauseView
block =
    change
      (account_update alice (record { amount = 10; locked = 0; code_hash = 0; storage_usage = 0 }))
    ∷ change (data_update alice (1 ∷ 2 ∷ []) (9 ∷ []))
    ∷ change (contract_code_update alice (5 ∷ []))
    ∷ change (access_key_update alice (4 ∷ []) (record { nonce = 1; permission = 0 }))
    ∷ change (data_deletion alice (1 ∷ 2 ∷ []))
    ∷ change
        (account_update bob (record { amount = 3; locked = 0; code_hash = 0; storage_usage = 0 }))
    ∷ change (account_deletion alice)
    ∷ []

state_changes_last_example :
    lookup (1 ∷ 2 ∷ []) (state_changes_in_block (record_changes block []) alice (1 ∷ [])) ≡ (
      if starts_with (1 ∷ []) (1 ∷ 2 ∷ [])
      then last_about (data_value (1 ∷ 2 ∷ [])) alice block
      else none)
state_changes_last_example = state_changes_last block alice (1 ∷ []) (1 ∷ 2 ∷ [])
