-- ===== src/StateIndexer/Filed.antt =====
-- logic-state-indexer/src/lib.rs: the changes to keys of the state that are kept stand each under
-- the text of its own key, once, and with the shard of its account.
use read_rpc.Prelude.{
  ◌≡◌, refl, sym, ap, Bool-cases, inl, inr, Option, none, some, List, [], ◌∷◌, Text, Bytes, All,
  if_pos, if_neg, text_eq,
}
use read_rpc.Prelude.HashMap.{HashMap, IsMap, insert, insert-IsMap}
use read_rpc.Prelude.Outcome.{Result, ok, err, panic, ok-injective, ◌>>=◌}
use read_rpc.Views.{
  AccountId, StateChangeValueView, account_update, account_deletion, access_key_update,
  access_key_deletion, data_update, data_deletion, contract_code_update, contract_code_deletion,
  StateChangeWithCauseView,
}
use read_rpc.Rightsizing.{RightsizingConfig, state_should_be_indexed}
use read_rpc.StateIndexer.{
  Encoding, Changes, ShardedStateChangesWithCause, StateChangesToStore, sharded, data_text,
  insert_data, insert_contract, insert_account, insert_change, collect_change, collect_changes,
}
use read_rpc.StateIndexer.Last.{state_data-insert_access_key}

All-insert :
    {V : Type 0} (P : Text × V → Type 0) (k : Text) (v : V) (m : HashMap Text V)
    → P (k, v)
    → All P m
    → All P (insert k v m)
unfolding insert
All-insert P k v [] new old = (new, tt)
All-insert P k v ((j, w) ∷ m) new old = elim (text_eq.dec k j) [
  | yes same ↦ rw (if_pos _ same) (new, old.1)
  | no other ↦ rw (if_neg _ other) (old.0, All-insert P k v m new old.1)
]

-- The account and the key of its state that a change is about.
abbrev pub place : StateChangeValueView → Option (AccountId × Bytes)
place (data_update id key value) = some (id, key)
place (data_deletion id key) = some (id, key)
place _ = none

module _ (enc : Encoding) where
  pub record Filed (entry : Text × ShardedStateChangesWithCause) : Type 0 where
    pub account_id : AccountId
    pub key : Bytes
    pub about : place entry.1.state_change.value ≡ some (account_id, key)
    pub under : entry.0 ≡ data_text enc account_id key
    pub sharded : entry.1.shard_id ≡ enc.account_id_to_shard_id account_id

  abbrev pub IsFiled : Changes → Type 0
  IsFiled m = IsMap m × All Filed m

  insert_data-IsFiled :
      (id : AccountId) (key : Bytes) (change : StateChangeWithCauseView)
      (store : StateChangesToStore)
      → place change.value ≡ some (id, key)
      → IsFiled store.state_data
      → IsFiled (insert_data enc id key change store).state_data
  unfolding insert_data
  insert_data-IsFiled id key change store about filed = (
    insert-IsMap (data_text enc id key) (sharded enc id change) store.state_data filed.0,
    All-insert Filed (data_text enc id key) (sharded enc id change) store.state_data
        (record { account_id = id; key = key; about = about; under = refl; sharded = refl })
        filed.1,
  )

  -- The store whose changes are these.
  same_data : (a b : Changes) → a ≡ b → IsFiled a → IsFiled b
  same_data a b same filed = rw same at filed

  same_store :
      {a b : StateChangesToStore} → ok a ≡ ok b → IsFiled a.state_data → IsFiled b.state_data
  same_store {a} {b} same =
      same_data a.state_data b.state_data
        (ap (λ (s : StateChangesToStore). s.state_data) (ok-injective same))

  module _ (config : RightsizingConfig) where
    insert_change-IsFiled :
        (value : StateChangeValueView) (change : StateChangeWithCauseView)
        (store store' : StateChangesToStore)
        → change.value ≡ value
        → insert_change enc value change store ≡ ok store'
        → IsFiled store.state_data
        → IsFiled store'.state_data
    unfolding insert_change insert_contract insert_account
    insert_change-IsFiled (data_update id key v) change store store' e h filed =
        same_store h (insert_data-IsFiled id key change store (ap place e) filed)
    insert_change-IsFiled (data_deletion id key) change store store' e h filed =
        same_store h (insert_data-IsFiled id key change store (ap place e) filed)
    insert_change-IsFiled (access_key_update id k a) change store store' e h filed =
        same_data store.state_data store'.state_data
          (sym (state_data-insert_access_key enc config id k change store store' h)) filed
    insert_change-IsFiled (access_key_deletion id k) change store store' e h filed =
        same_data store.state_data store'.state_data
          (sym (state_data-insert_access_key enc config id k change store store' h)) filed
    insert_change-IsFiled (contract_code_update id code) change store store' e h filed =
        same_store h filed
    insert_change-IsFiled (contract_code_deletion id) change store store' e h filed =
        same_store h filed
    insert_change-IsFiled (account_update id a) change store store' e h filed = same_store h filed
    insert_change-IsFiled (account_deletion id) change store store' e h filed = same_store h filed

    pub collect_changes-IsFiled :
        (changes : List StateChangeWithCauseView) (store store' : StateChangesToStore)
        → collect_changes enc config changes store ≡ ok store'
        → IsFiled store.state_data
        → IsFiled store'.state_data
    unfolding collect_changes collect_change
    collect_changes-IsFiled [] store store' h filed = same_store h filed
    collect_changes-IsFiled (c ∷ cs) store store' h filed =
        elim (Bool-cases (state_should_be_indexed config c.value)) [
          | inl wanted ↦
              by_insert (insert_change enc c.value c store) refl
                (λ next. collect_changes-IsFiled cs next store') (rw wanted at h)
          | inr skipped ↦ collect_changes-IsFiled cs store store' (rw skipped at h) filed
        ]
      where
        by_insert :
            (r : Result StateChangesToStore)
            → insert_change enc c.value c store ≡ r
            → ((next : StateChangesToStore)
                → collect_changes enc config cs next ≡ ok store'
                → IsFiled next.state_data
                → IsFiled store'.state_data)
            → (r >>= λ next. collect_changes enc config cs next) ≡ ok store'
            → IsFiled store'.state_data
        by_insert (ok next) e rest h =
            rest next h (insert_change-IsFiled c.value c store next refl e filed)
        by_insert (err _) e rest h = absurd cc
        by_insert (panic _) e rest h = absurd cc
