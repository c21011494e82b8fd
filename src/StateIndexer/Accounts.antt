-- ===== src/StateIndexer/Accounts.antt =====
-- logic-state-indexer/src/lib.rs: what `handle_state_changes` keeps for accounts and their codes.
use read_rpc.Prelude.{
  ◌≡◌, sym, ap, ◌∙◌, none, some, List, ◌++◌, Bytes, codes, eqb, if◌then◌else◌, arith, text_eq,
}
use read_rpc.Prelude.HashMap.{lookup, insert, lookup-nil, lookup-insert}
use read_rpc.Prelude.Outcome.{Result, ok, err, panic, ok-injective, ◌>>=◌}
use read_rpc.Views.{
  AccountId, PublicKey, StateChangeValueView, account_update, account_deletion, access_key_update,
  access_key_deletion, data_update, data_deletion, contract_code_update, contract_code_deletion,
  StateChangeWithCauseView,
}
use read_rpc.Rightsizing.{RightsizingConfig, state_should_be_indexed}
use read_rpc.Blocks.Latest.{or_else, last_of}
use read_rpc.StateIndexer.{
  Encoding, ShardedStateChangesWithCause, StateChangesToStore, nothing, sharded, access_key_text,
  insert_data, insert_access_key, insert_contract, insert_account, insert_change, collect_changes,
}
use read_rpc.StateIndexer.Keys.{append-cancel}
use read_rpc.StateIndexer.Last.{Said, read-collect_changes}

module _ (enc : Encoding) (config : RightsizingConfig) where
  -- What a change writes under an account, and under the code of an account.
  abbrev pub says_account :
      AccountId → StateChangeValueView → StateChangeWithCauseView → Said enc config
  says_account id (account_update id' a) change =
      if eqb id' id then some (sharded enc id change) else none
  says_account id (account_deletion id') change =
      if eqb id' id then some (sharded enc id change) else none
  says_account id _ change = none

  abbrev pub says_contract :
      AccountId → StateChangeValueView → StateChangeWithCauseView → Said enc config
  says_contract id (contract_code_update id' code) change =
      if eqb id' id then some (sharded enc id change) else none
  says_contract id (contract_code_deletion id') change =
      if eqb id' id then some (sharded enc id change) else none
  says_contract id _ change = none

  insert_account_lem :
      (id id' : AccountId) (change : StateChangeWithCauseView) (store : StateChangesToStore)
      → lookup (id ++ codes "_account") (insert_account enc id' change store).account
        ≡ or_else
            (if eqb id' id then some (sharded enc id change) else none)
            (lookup (id ++ codes "_account") store.account)
  unfolding insert_account
  insert_account_lem id id' change store = ground (
    arith,
    lookup-insert (id' ++ codes "_account") (id ++ codes "_account") (sharded enc id' change)
        store.account,
    append-cancel id' id (codes "_account"),
  )

  insert_contract_lem :
      (id id' : AccountId) (change : StateChangeWithCauseView) (store : StateChangesToStore)
      → lookup (id ++ codes "_contract") (insert_contract enc id' change store).contract
        ≡ or_else
            (if eqb id' id then some (sharded enc id change) else none)
            (lookup (id ++ codes "_contract") store.contract)
  unfolding insert_contract
  insert_contract_lem id id' change store = ground (
    arith,
    lookup-insert (id' ++ codes "_contract") (id ++ codes "_contract") (sharded enc id' change)
        store.contract,
    append-cancel id' id (codes "_contract"),
  )

  account-insert_access_key :
      (id : AccountId) (key : PublicKey) (change : StateChangeWithCauseView)
      (store store' : StateChangesToStore)
      → insert_access_key enc id key change store ≡ ok store'
      → (store'.account ≡ store.account) × (store'.contract ≡ store.contract)
  unfolding insert_access_key
  account-insert_access_key id key change store store' h = by_key (enc.to_vec key) h
    where
      by_key :
          (r : Result Bytes)
          → (r >>= λ bytes. ok (record store {
            access_key =
                insert (access_key_text enc id bytes) (sharded enc id change) store.access_key;
          }))
            ≡ ok store'
          → (store'.account ≡ store.account) × (store'.contract ≡ store.contract)
      by_key (ok bytes) h = (
        ap (λ (s : StateChangesToStore). s.account) (sym (ok-injective h)),
        ap (λ (s : StateChangesToStore). s.contract) (sym (ok-injective h)),
      )
      by_key (err _) h = absurd cc
      by_key (panic _) h = absurd cc

  -- If the changes of a block can be collected, what is kept for each account is the last change
  -- of the block to the account that is indexed, with the account's shard, and nothing if there is
  -- none.
  pub collect_changes-account :
      (changes : List StateChangeWithCauseView) (store : StateChangesToStore) (id : AccountId)
      → collect_changes enc config changes nothing ≡ ok store
      → lookup (id ++ codes "_account") store.account
        ≡ last_of
            (λ c.
              if state_should_be_indexed config c.value then says_account id c.value c else none)
            changes
  unfolding insert_change insert_contract insert_data
  collect_changes-account changes store id h = ground (
    arith,
    read-collect_changes enc config read (says_account id) step changes nothing store h,
    lookup-nil {V = ShardedStateChangesWithCause} (id ++ codes "_account"),
  )
    where
      read : StateChangesToStore → Said enc config
      read store = lookup (id ++ codes "_account") store.account

      step :
          (value : StateChangeValueView) (change : StateChangeWithCauseView)
          (store store' : StateChangesToStore)
          → insert_change enc value change store ≡ ok store'
          → read store' ≡ or_else (says_account id value change) (read store)
      step (account_update id' a) change store store' h =
          ap read (sym (ok-injective h)) ∙ insert_account_lem id id' change store
      step (account_deletion id') change store store' h =
          ap read (sym (ok-injective h)) ∙ insert_account_lem id id' change store
      step (access_key_update id' k a) change store store' h =
          ap (lookup (id ++ codes "_account"))
            (account-insert_access_key id' k change store store' h).0
      step (access_key_deletion id' k) change store store' h =
          ap (lookup (id ++ codes "_account"))
            (account-insert_access_key id' k change store store' h).0
      step (contract_code_update id' code) change store store' h = ap read (sym (ok-injective h))
      step (contract_code_deletion id') change store store' h = ap read (sym (ok-injective h))
      step (data_update id' key v) change store store' h = ap read (sym (ok-injective h))
      step (data_deletion id' key) change store store' h = ap read (sym (ok-injective h))

  -- If the changes of a block can be collected, what is kept for the code of each account is the
  -- last change of the block to this code that is indexed, with the account's shard, and nothing
  -- if there is none.
  pub collect_changes-contract :
      (changes : List StateChangeWithCauseView) (store : StateChangesToStore) (id : AccountId)
      → collect_changes enc config changes nothing ≡ ok store
      → lookup (id ++ codes "_contract") store.contract
        ≡ last_of
            (λ c.
              if state_should_be_indexed config c.value then says_contract id c.value c else none)
            changes
  unfolding insert_change insert_account insert_data
  collect_changes-contract changes store id h = ground (
    arith,
    read-collect_changes enc config read (says_contract id) step changes nothing store h,
    lookup-nil {V = ShardedStateChangesWithCause} (id ++ codes "_contract"),
  )
    where
      read : StateChangesToStore → Said enc config
      read store = lookup (id ++ codes "_contract") store.contract

      step :
          (value : StateChangeValueView) (change : StateChangeWithCauseView)
          (store store' : StateChangesToStore)
          → insert_change enc value change store ≡ ok store'
          → read store' ≡ or_else (says_contract id value change) (read store)
      step (contract_code_update id' code) change store store' h =
          ap read (sym (ok-injective h)) ∙ insert_contract_lem id id' change store
      step (contract_code_deletion id') change store store' h =
          ap read (sym (ok-injective h)) ∙ insert_contract_lem id id' change store
      step (access_key_update id' k a) change store store' h =
          ap (lookup (id ++ codes "_contract"))
            (account-insert_access_key id' k change store store' h).1
      step (access_key_deletion id' k) change store store' h =
          ap (lookup (id ++ codes "_contract"))
            (account-insert_access_key id' k change store store' h).1
      step (account_update id' a) change store store' h = ap read (sym (ok-injective h))
      step (account_deletion id') change store store' h = ap read (sym (ok-injective h))
      step (data_update id' key v) change store store' h = ap read (sym (ok-injective h))
      step (data_deletion id' key) change store store' h = ap read (sym (ok-injective h))
