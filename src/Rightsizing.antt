-- ===== src/Rightsizing.antt =====
-- configuration/src/configs/rightsizing.rs: which accounts, changes and transactions an indexer keeps.
use read_rpc.Prelude.{
  Bool, true, Option, List, [], ◌&&◌, ◌||◌, Eq, contains, is_empty, get_or, if◌then◌else◌, text_eq,
}
use read_rpc.Views.{
  AccountId, StateChangeValueView, account_update, account_deletion, access_key_update,
  access_key_deletion, data_update, data_deletion, contract_code_update, contract_code_deletion,
  IndexerTransactionWithOutcome,
}

pub data ChangeType : Type 0 where
  state access_key contract_code : ChangeType

unfoldable pub change_dec : Discrete ChangeType
change_dec = hlevel

instance abbrev pub change_eq : Eq ChangeType
change_eq = record { dec = change_dec }

-- `CommonRightsizingConfig`: what the configuration file gives.
pub record CommonRightsizingConfig : Type 0 where
  pub tracked_accounts : Option (List AccountId)
  pub tracked_changes : Option (List ChangeType)

pub record RightsizingConfig : Type 0 where
  pub tracked_accounts : List AccountId
  pub tracked_changes : List ChangeType

unfoldable pub from_common : CommonRightsizingConfig → RightsizingConfig
from_common c = record {
  tracked_accounts = get_or c.tracked_accounts [];
  tracked_changes = get_or c.tracked_changes [];
}

-- An empty list tracks everything.
unfoldable pub is_indexed_account : RightsizingConfig → AccountId → Bool
is_indexed_account c account =
    if is_empty c.tracked_accounts then true else contains account c.tracked_accounts

unfoldable pub is_indexed_change : RightsizingConfig → ChangeType → Bool
is_indexed_change c change_type =
    if is_empty c.tracked_changes then true else contains change_type c.tracked_changes

unfoldable pub state_should_be_indexed : RightsizingConfig → StateChangeValueView → Bool
state_should_be_indexed c (data_update id k v) =
    is_indexed_account c id && is_indexed_change c state
state_should_be_indexed c (data_deletion id k) =
    is_indexed_account c id && is_indexed_change c state
state_should_be_indexed c (access_key_update id k a) =
    is_indexed_account c id && is_indexed_change c access_key
state_should_be_indexed c (access_key_deletion id k) =
    is_indexed_account c id && is_indexed_change c access_key
state_should_be_indexed c (contract_code_update id code) =
    is_indexed_account c id && is_indexed_change c contract_code
state_should_be_indexed c (contract_code_deletion id) =
    is_indexed_account c id && is_indexed_change c contract_code
state_should_be_indexed c (account_update id a) = is_indexed_account c id
state_should_be_indexed c (account_deletion id) = is_indexed_account c id

unfoldable pub tx_should_be_indexed : RightsizingConfig → IndexerTransactionWithOutcome → Bool
tx_should_be_indexed c tx =
    is_indexed_account c tx.transaction.signer_id || is_indexed_account c tx.transaction.receiver_id
