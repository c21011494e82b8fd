-- ===== src/StateIndexer.antt =====
-- logic-state-indexer/src/lib.rs: the state changes of a block, of which the last change to each key
-- is kept and stored in the database, by kind and shard. A key of a map is the text that the source
-- builds. The Borsh form of a public key and the shard of an account are parameters, and so are the
-- calls of the database.
pub mod Keys
pub mod Last
pub mod Accounts
pub mod AccessKeys
pub mod Groups
pub mod Filed
pub mod Message
pub mod Counted
use read_rpc.Prelude.{
  ℕ, List, [], ◌∷◌, ◌++◌, ◌==◌, Text, Bytes, codes, map, is_empty, if◌then◌else◌, text_eq, ℕ_eq,
}
use read_rpc.Prelude.HashMap.{HashMap, insert, values}
use read_rpc.Prelude.Outcome.{Result, ok, err, panic, ◌>>=◌}
use read_rpc.Prelude.Exec.{Exec, pure, join_all}
use read_rpc.Views.{
  CryptoHash, AccountId, PublicKey, ShardId, StateChangeValueView, account_update, account_deletion,
  access_key_update, access_key_deletion, data_update, data_deletion, contract_code_update,
  contract_code_deletion, StateChangeWithCauseView, StreamerMessage,
}
use read_rpc.Rightsizing.{RightsizingConfig, state_should_be_indexed}
use read_rpc.Blocks.{state_changes_of}
use read_rpc.Blocks.Requests.{Hex}

pub record ShardedStateChangesWithCause : Type 0 where
  pub shard_id : ShardId
  pub state_change : StateChangeWithCauseView

abbrev pub Changes : Type 0
Changes = HashMap Text ShardedStateChangesWithCause

pub record StateChangesToStore : Type 0 where
  pub state_data : Changes
  pub access_key : Changes
  pub contract : Changes
  pub account : Changes

abbrev pub nothing : StateChangesToStore
nothing = record { state_data = []; access_key = []; contract = []; account = [] }

pub record Encoding : Type 0 where
  pub hex : Hex
  pub to_vec : PublicKey → Result Bytes
  pub account_id_to_shard_id : AccountId → ShardId

-- `format!`
abbrev pub suffixed : AccountId → Text → Text → Text
suffixed account_id kind key = account_id ++ kind ++ key

module _ (enc : Encoding) where
  abbrev pub sharded : AccountId → StateChangeWithCauseView → ShardedStateChangesWithCause
  sharded account_id change = record {
    shard_id = enc.account_id_to_shard_id account_id;
    state_change = change;
  }

  abbrev pub data_text : AccountId → Bytes → Text
  data_text account_id key = suffixed account_id (codes "_data_") (enc.hex.encode key)

  abbrev pub access_key_text : AccountId → Bytes → Text
  access_key_text account_id key = suffixed account_id (codes "_access_key_") (enc.hex.encode key)

  unfoldable pub insert_data :
      AccountId → Bytes → StateChangeWithCauseView → StateChangesToStore → StateChangesToStore
  insert_data account_id key change store = record store {
    state_data = insert (data_text account_id key) (sharded account_id change) store.state_data;
  }

  unfoldable pub insert_access_key :
      AccountId
      → PublicKey
      → StateChangeWithCauseView
      → StateChangesToStore
      → Result StateChangesToStore
  insert_access_key account_id public_key change store = do
    key ← enc.to_vec public_key
    ok (record store {
      access_key =
          insert (access_key_text account_id key) (sharded account_id change) store.access_key;
    })

  unfoldable pub insert_contract :
      AccountId → StateChangeWithCauseView → StateChangesToStore → StateChangesToStore
  insert_contract account_id change store = record store {
    contract = insert (account_id ++ codes "_contract") (sharded account_id change) store.contract;
  }

  unfoldable pub insert_account :
      AccountId → StateChangeWithCauseView → StateChangesToStore → StateChangesToStore
  insert_account account_id change store = record store {
    account = insert (account_id ++ codes "_account") (sharded account_id change) store.account;
  }

  -- The match on a change that is indexed.
  unfoldable pub insert_change :
      StateChangeValueView
      → StateChangeWithCauseView
      → StateChangesToStore
      → Result StateChangesToStore
  insert_change (data_update id key value) change store = ok (insert_data id key change store)
  insert_change (data_deletion id key) change store = ok (insert_data id key change store)
  insert_change (access_key_update id key access_key) change store =
      insert_access_key id key change store
  insert_change (access_key_deletion id key) change store = insert_access_key id key change store
  insert_change (contract_code_update id code) change store = ok (insert_contract id change store)
  insert_change (contract_code_deletion id) change store = ok (insert_contract id change store)
  insert_change (account_update id account) change store = ok (insert_account id change store)
  insert_change (account_deletion id) change store = ok (insert_account id change store)

  module _ (config : RightsizingConfig) where
    unfoldable pub collect_change :
        StateChangeWithCauseView → StateChangesToStore → Result StateChangesToStore
    collect_change change store =
        if state_should_be_indexed config change.value
        then insert_change change.value change store
        else ok store

    unfoldable pub collect_changes :
        List StateChangeWithCauseView → StateChangesToStore → Result StateChangesToStore
    collect_changes [] store = ok store
    collect_changes (change ∷ changes) store = do
      store' ← collect_change change store
      collect_changes changes store'

-- `StateIndexerDbManager`, as far as changes are stored.
pub record ChangesDb : Type 1 where
  pub State : Type 0
  pub save_state_changes_data :
      ShardId → List StateChangeWithCauseView → ℕ → CryptoHash → Exec State Unit
  pub save_state_changes_access_key :
      ShardId → List StateChangeWithCauseView → ℕ → CryptoHash → Exec State Unit
  pub save_state_changes_contract :
      ShardId → List StateChangeWithCauseView → ℕ → CryptoHash → Exec State Unit
  pub save_state_changes_account :
      ShardId → List StateChangeWithCauseView → ℕ → CryptoHash → Exec State Unit

abbrev pub Group : Type 0
Group = ShardId × List StateChangeWithCauseView

unfoldable pub add_to_group : ShardedStateChangesWithCause → List Group → List Group
add_to_group c [] = (c.shard_id, c.state_change ∷ []) ∷ []
add_to_group c ((shard_id, changes) ∷ groups) =
    if c.shard_id == shard_id
    then (shard_id, c.state_change ∷ changes) ∷ groups
    else (c.shard_id, c.state_change ∷ []) ∷ (shard_id, changes) ∷ groups

-- `chunk_by` the shard: neighbours of one shard make a group.
unfoldable pub group_by_shard : List ShardedStateChangesWithCause → List Group
group_by_shard [] = []
group_by_shard (c ∷ cs) = add_to_group c (group_by_shard cs)

module _ (db : ChangesDb) (block_height : ℕ) (block_hash : CryptoHash) where
  -- What the four methods below share: the groups of one map are saved by the call `save`.
  unfoldable pub save_changes :
      (ShardId → List StateChangeWithCauseView → ℕ → CryptoHash → Exec db.State Unit)
      → Changes
      → Exec db.State Unit
  save_changes save changes =
      if is_empty changes
      then pure tt
      else join_all (
          map (λ group. save group.0 group.1 block_height block_hash)
            (group_by_shard (values changes)))

  unfoldable pub save_data : StateChangesToStore → Exec db.State Unit
  save_data store = save_changes db.save_state_changes_data store.state_data

  unfoldable pub save_access_key : StateChangesToStore → Exec db.State Unit
  save_access_key store = save_changes db.save_state_changes_access_key store.access_key

  unfoldable pub save_contract : StateChangesToStore → Exec db.State Unit
  save_contract store = save_changes db.save_state_changes_contract store.contract

  unfoldable pub save_account : StateChangesToStore → Exec db.State Unit
  save_account store = save_changes db.save_state_changes_account store.account

  unfoldable pub save_state_changes : StateChangesToStore → Exec db.State Unit
  save_state_changes store =
      join_all
        (save_data store ∷ save_access_key store ∷ save_contract store ∷ save_account store ∷ [])

unfoldable pub handle_state_changes :
    Encoding → RightsizingConfig → (db : ChangesDb) → StreamerMessage → Exec db.State Unit
handle_state_changes enc config db message s =
    elim (collect_changes enc config (state_changes_of message.shards) nothing) [
      | ok store ↦
          save_state_changes db message.block.header.height message.block.header.hash store s
      | err e ↦ (err e, s)
      | panic p ↦ (panic p, s)
    ]
