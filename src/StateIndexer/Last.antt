-- ===== src/StateIndexer/Last.antt =====
-- logic-state-indexer/src/lib.rs: what `handle_state_changes` keeps of the changes of a block.
use read_rpc.Prelude.{
  ◌≡◌, refl, sym, ap, ◌∙◌, ◌&&◌, Bool-cases, inl, inr, Option, none, some, List, [], ◌∷◌, Bytes,
  codes, eqb, if◌then◌else◌, arith, text_eq,
}
use read_rpc.Prelude.HashMap.{lookup, insert, lookup-nil, lookup-insert}
use read_rpc.Prelude.Outcome.{Result, ok, err, panic, ok-injective, ◌>>=◌}
use read_rpc.Views.{
  AccountId, PublicKey, StateChangeValueView, account_update, account_deletion, access_key_update,
  access_key_deletion, data_update, data_deletion, contract_code_update, contract_code_deletion,
  StateChangeWithCauseView,
}
use read_rpc.Rightsizing.{RightsizingConfig, state_should_be_indexed}
use read_rpc.Blocks.Latest.{or_else, last_of}
use read_rpc.StateIndexer.{
  Encoding, ShardedStateChangesWithCause, StateChangesToStore, nothing, sharded, data_text,
  access_key_text, insert_data, insert_access_key, insert_contract, insert_account, insert_change,
  collect_change, collect_changes,
}
use read_rpc.StateIndexer.Keys.{suffixed-injective}

module _ (enc : Encoding) (config : RightsizingConfig) where
  abbrev pub Said : Type 0
  Said = Option ShardedStateChangesWithCause

  -- A place of a map that a change either writes or leaves alone.
  module _ (read : StateChangesToStore → Said)
      (says : StateChangeValueView → StateChangeWithCauseView → Said)
      (step : (value : StateChangeValueView) (change : StateChangeWithCauseView)
          (store store' : StateChangesToStore)
        → insert_change enc value change store ≡ ok store'
        → read store' ≡ or_else (says value change) (read store)) where
    abbrev pub indexed : StateChangeWithCauseView → Said
    indexed change =
        if state_should_be_indexed config change.value then says change.value change else none

    read-collect_change :
        (change : StateChangeWithCauseView) (store store' : StateChangesToStore)
        → collect_change enc config change store ≡ ok store'
        → read store' ≡ or_else (indexed change) (read store)
    unfolding collect_change
    read-collect_change change store store' h =
        elim (Bool-cases (state_should_be_indexed config change.value)) [
          | inl wanted ↦ rw wanted (step change.value change store store' (rw wanted at h))
          | inr skipped ↦ rw skipped (ap read (sym (ok-injective (rw skipped at h))))
        ]

    pub read-collect_changes :
        (changes : List StateChangeWithCauseView) (store store' : StateChangesToStore)
        → collect_changes enc config changes store ≡ ok store'
        → read store' ≡ or_else (last_of indexed changes) (read store)
    unfolding collect_changes last_of
    read-collect_changes [] store store' h = ap read (sym (ok-injective h))
    read-collect_changes (c ∷ cs) store store' h =
        by_first (collect_change enc config c store) refl
          (λ next. read-collect_changes cs next store') h
      where
        by_first :
            (r : Result StateChangesToStore)
            → collect_change enc config c store ≡ r
            → ((next : StateChangesToStore)
                → collect_changes enc config cs next ≡ ok store'
                → read store' ≡ or_else (last_of indexed cs) (read next))
            → (r >>= λ next. collect_changes enc config cs next) ≡ ok store'
            → read store' ≡ or_else (or_else (last_of indexed cs) (indexed c)) (read store)
        by_first (ok next) e rest h =
            ground (arith, rest next h, read-collect_change c store next e)
        by_first (err _) e rest h = absurd cc
        by_first (panic _) e rest h = absurd cc

  -- What a change writes under a key of the state of an account.
  abbrev pub says_data : AccountId → Bytes → StateChangeValueView → StateChangeWithCauseView → Said
  says_data id key (data_update id' key' value) change =
      if eqb id' id && eqb key' key then some (sharded enc id change) else none
  says_data id key (data_deletion id' key') change =
      if eqb id' id && eqb key' key then some (sharded enc id change) else none
  says_data id key _ change = none

  insert_data_lem :
      (id id' : AccountId) (key key' : Bytes) (change : StateChangeWithCauseView)
      (store : StateChangesToStore)
      → lookup (data_text enc id key) (insert_data enc id' key' change store).state_data
        ≡ or_else
            (if eqb id' id && eqb key' key then some (sharded enc id change) else none)
            (lookup (data_text enc id key) store.state_data)
  unfolding insert_data
  insert_data_lem id id' key key' change store = ground (
    arith,
    lookup-insert (data_text enc id' key') (data_text enc id key) (sharded enc id' change)
        store.state_data,
    suffixed-injective enc.hex (codes "_data") id' id key' key,
  )

  pub state_data-insert_access_key :
      (id : AccountId) (key : PublicKey) (change : StateChangeWithCauseView)
      (store store' : StateChangesToStore)
      → insert_access_key enc id key change store ≡ ok store'
      → store'.state_data ≡ store.state_data
  unfolding insert_access_key
  state_data-insert_access_key id key change store store' h = by_key (enc.to_vec key) h
    where
      by_key :
          (r : Result Bytes)
          → (r >>= λ bytes. ok (record store {
            access_key =
                insert (access_key_text enc id bytes) (sharded enc id change) store.access_key;
          }))
            ≡ ok store'
          → store'.state_data ≡ store.state_data
      by_key (ok bytes) h = ap (λ (s : StateChangesToStore). s.state_data) (sym (ok-injective h))
      by_key (err _) h = absurd cc
      by_key (panic _) h = absurd cc

  -- If the changes of a block can be collected, what is kept under each key of the state of each
  -- account is the last change of the block to that key that is indexed, with the account's shard,
  -- and nothing if no change to the key is indexed.
  pub collect_changes-data :
      (changes : List StateChangeWithCauseView) (store : StateChangesToStore) (id : AccountId)
      (key : Bytes)
      → collect_changes enc config changes nothing ≡ ok store
      → lookup (data_text enc id key) store.state_data
        ≡ last_of
            (λ c.
              if state_should_be_indexed config c.value then says_data id key c.value c else none)
            changes
  unfolding insert_change insert_contract insert_account
  collect_changes-data changes store id key h = ground (
    arith,
    read-collect_changes read (says_data id key) step changes nothing store h,
    lookup-nil {V = ShardedStateChangesWithCause} (data_text enc id key),
  )
    where
      read : StateChangesToStore → Said
      read store = lookup (data_text enc id key) store.state_data

      step :
          (value : StateChangeValueView) (change : StateChangeWithCauseView)
          (store store' : StateChangesToStore)
          → insert_change enc value change store ≡ ok store'
          → read store' ≡ or_else (says_data id key value change) (read store)
      step (data_update id' key' v) change store store' h =
          ap read (sym (ok-injective h)) ∙ insert_data_lem id id' key key' change store
      step (data_deletion id' key') change store store' h =
          ap read (sym (ok-injective h)) ∙ insert_data_lem id id' key key' change store
      step (access_key_update id' k a) change store store' h =
          ap (lookup (data_text enc id key))
            (state_data-insert_access_key id' k change store store' h)
      step (access_key_deletion id' k) change store store' h =
          ap (lookup (data_text enc id key))
            (state_data-insert_access_key id' k change store store' h)
      step (contract_code_update id' code) change store store' h = ap read (sym (ok-injective h))
      step (contract_code_deletion id') change store store' h = ap read (sym (ok-injective h))
      step (account_update id' a) change store store' h = ap read (sym (ok-injective h))
      step (account_deletion id') change store store' h = ap read (sym (ok-injective h))

  insert_access_key-ok :
      (id : AccountId) (key : PublicKey) (bytes : Bytes) (change : StateChangeWithCauseView)
      (store : StateChangesToStore)
      → enc.to_vec key ≡ ok bytes
      → (store' : StateChangesToStore) × (insert_access_key enc id key change store ≡ ok store')
  unfolding insert_access_key
  insert_access_key-ok id key bytes change store encoded =
      let after : Bytes → StateChangesToStore = (λ bytes. record store {
        access_key = insert (access_key_text enc id bytes) (sharded enc id change) store.access_key;
      }) in
      (after bytes, ap (λ (r : Result Bytes). r >>= λ bytes. ok (after bytes)) encoded)

  insert_change-ok :
      ((key : PublicKey) → (bytes : Bytes) × (enc.to_vec key ≡ ok bytes))
      → (value : StateChangeValueView) (change : StateChangeWithCauseView)
        (store : StateChangesToStore)
      → (store' : StateChangesToStore) × (insert_change enc value change store ≡ ok store')
  unfolding insert_change
  insert_change-ok encodes (access_key_update id key a) change store =
      insert_access_key-ok id key (encodes key).0 change store (encodes key).1
  insert_change-ok encodes (access_key_deletion id key) change store =
      insert_access_key-ok id key (encodes key).0 change store (encodes key).1
  insert_change-ok encodes (data_update id key v) change store = (_, refl)
  insert_change-ok encodes (data_deletion id key) change store = (_, refl)
  insert_change-ok encodes (account_update id a) change store = (_, refl)
  insert_change-ok encodes (account_deletion id) change store = (_, refl)
  insert_change-ok encodes (contract_code_update id code) change store = (_, refl)
  insert_change-ok encodes (contract_code_deletion id) change store = (_, refl)

  -- If the Borsh form of every public key can be made, the changes of every block can be collected.
  pub collect_changes-ok :
      ((key : PublicKey) → (bytes : Bytes) × (enc.to_vec key ≡ ok bytes))
      → (changes : List StateChangeWithCauseView) (store : StateChangesToStore)
      → (store' : StateChangesToStore) × (collect_changes enc config changes store ≡ ok store')
  unfolding collect_changes collect_change
  collect_changes-ok encodes [] store = (store, refl)
  collect_changes-ok encodes (c ∷ cs) store =
      elim (Bool-cases (state_should_be_indexed config c.value)) [
        | inl wanted ↦
            let (next, inserted) = insert_change-ok encodes c.value c store in
            let (last, collected) = collect_changes-ok encodes cs next in
            (last, rw (wanted, inserted) collected)
        | inr skipped ↦
            let (last, collected) = collect_changes-ok encodes cs store in
            (last, rw skipped collected)
      ]
