-- ===== src/StateIndexer/AccessKeys.antt =====
-- logic-state-indexer/src/lib.rs: what `handle_state_changes` keeps for access keys.
use read_rpc.Prelude.{
  ◌≡◌, refl, sym, ap, ◌∙◌, ◌&&◌, none, some, List, Bytes, codes, eqb, if◌then◌else◌, arith, text_eq,
}
use read_rpc.Prelude.HashMap.{lookup, insert, lookup-nil, lookup-insert}
use read_rpc.Prelude.Outcome.{Result, ok, err, panic, ok-injective, ◌>>=◌}
use read_rpc.Views.{
  AccountId, PublicKey, StateChangeValueView, account_update, account_deletion, access_key_update,
  access_key_deletion, data_update, data_deletion, contract_code_update, contract_code_deletion,
  StateChangeWithCauseView,
}
use read_rpc.Rightsizing.{RightsizingConfig, state_should_be_indexed}
use read_rpc.Blocks.Latest.{or_else, last_of}
use read_rpc.StateIndexer.{
  Encoding, ShardedStateChangesWithCause, StateChangesToStore, nothing, sharded, access_key_text,
  insert_data, insert_access_key, insert_contract, insert_account, insert_change, collect_changes,
}
use read_rpc.StateIndexer.Keys.{suffixed-injective}
use read_rpc.StateIndexer.Last.{Said, read-collect_changes}

module _ (enc : Encoding) (config : RightsizingConfig) where
  -- What a change writes under an access key of an account.
  abbrev pub says_access_key :
      AccountId → PublicKey → StateChangeValueView → StateChangeWithCauseView → Said enc config
  says_access_key id key (access_key_update id' key' a) change =
      if eqb id' id && eqb key' key then some (sharded enc id change) else none
  says_access_key id key (access_key_deletion id' key') change =
      if eqb id' id && eqb key' key then some (sharded enc id change) else none
  says_access_key id key _ change = none

  -- Different public keys have different Borsh forms.
  abbrev pub IsInjective : Type 0
  IsInjective =
      (k k' : PublicKey) (bytes : Bytes)
      → enc.to_vec k ≡ ok bytes
      → enc.to_vec k' ≡ ok bytes
      → k ≡ k'

  insert_access_key_lem :
      (id id' : AccountId) (key key' : PublicKey) (bytes : Bytes)
      (change : StateChangeWithCauseView) (store store' : StateChangesToStore)
      → IsInjective
      → enc.to_vec key ≡ ok bytes
      → insert_access_key enc id' key' change store ≡ ok store'
      → lookup (access_key_text enc id bytes) store'.access_key
        ≡ or_else
            (if eqb id' id && eqb key' key then some (sharded enc id change) else none)
            (lookup (access_key_text enc id bytes) store.access_key)
  unfolding insert_access_key
  insert_access_key_lem id id' key key' bytes change store store' injective encoded h =
      by_key (enc.to_vec key') refl h
    where
      by_key :
          (r : Result Bytes)
          → enc.to_vec key' ≡ r
          → (r >>= λ bytes'. ok (record store {
            access_key =
                insert (access_key_text enc id' bytes') (sharded enc id' change) store.access_key;
          }))
            ≡ ok store'
          → lookup (access_key_text enc id bytes) store'.access_key
            ≡ or_else
                (if eqb id' id && eqb key' key then some (sharded enc id change) else none)
                (lookup (access_key_text enc id bytes) store.access_key)
      by_key (ok bytes') e h =
          ap (λ (s : StateChangesToStore). lookup (access_key_text enc id bytes) s.access_key)
            (sym (ok-injective h))
          ∙ ground (
            arith,
            lookup-insert (access_key_text enc id' bytes') (access_key_text enc id bytes)
                (sharded enc id' change) store.access_key,
            suffixed-injective enc.hex (codes "_access_key") id' id bytes' bytes,
            injective key' key bytes,
            e,
            encoded,
          )
      by_key (err _) e h = absurd cc
      by_key (panic _) e h = absurd cc

  -- If the changes of a block can be collected and different public keys have different Borsh
  -- forms, what is kept for each access key of each account is the last change of the block to it
  -- that is indexed, with the account's shard, and nothing if there is none.
  pub collect_changes-access_key :
      (changes : List StateChangeWithCauseView) (store : StateChangesToStore) (id : AccountId)
      (key : PublicKey) (bytes : Bytes)
      → IsInjective
      → enc.to_vec key ≡ ok bytes
      → collect_changes enc config changes nothing ≡ ok store
      → lookup (access_key_text enc id bytes) store.access_key
        ≡ last_of
            (λ c.
              if state_should_be_indexed config c.value
              then says_access_key id key c.value c
              else none)
            changes
  unfolding insert_change insert_data insert_contract insert_account
  collect_changes-access_key changes store id key bytes injective encoded h = ground (
    arith,
    read-collect_changes enc config read (says_access_key id key) step changes nothing store h,
    lookup-nil {V = ShardedStateChangesWithCause} (access_key_text enc id bytes),
  )
    where
      read : StateChangesToStore → Said enc config
      read store = lookup (access_key_text enc id bytes) store.access_key

      step :
          (value : StateChangeValueView) (change : StateChangeWithCauseView)
          (store store' : StateChangesToStore)
          → insert_change enc value change store ≡ ok store'
          → read store' ≡ or_else (says_access_key id key value change) (read store)
      step (access_key_update id' key' a) change store store' h =
          insert_access_key_lem id id' key key' bytes change store store' injective encoded h
      step (access_key_deletion id' key') change store store' h =
          insert_access_key_lem id id' key key' bytes change store store' injective encoded h
      step (data_update id' k v) change store store' h = ap read (sym (ok-injective h))
      step (data_deletion id' k) change store store' h = ap read (sym (ok-injective h))
      step (contract_code_update id' code) change store store' h = ap read (sym (ok-injective h))
      step (contract_code_deletion id') change store store' h = ap read (sym (ok-injective h))
      step (account_update id' a) change store store' h = ap read (sym (ok-injective h))
      step (account_deletion id') change store store' h = ap read (sym (ok-injective h))
