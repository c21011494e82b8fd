-- ===== src/CodeStorage/Overlay.antt =====
-- rpc-server/src/modules/queries/contract_runner/code_storage.rs: what a contract reads.
use read_rpc.Prelude.{
  ℕ, ◌≡◌, refl, ap, ◌∙◌, inl, inr, Bool, true, false, ◌⊎◌, Option, none, some, Option-cases, [],
  ◌∷◌, Bytes, is_some, get_or, arith, text_eq,
}
use read_rpc.Prelude.HashMap.{HashMap, lookup}
use read_rpc.Prelude.Outcome.{Result, ok, err, panic, ◌>>=◌, ok-injective}
use read_rpc.Views.{AccountId}
use read_rpc.CodeStorage.{
  Database, CodeStorage, get_state_key_value_from_db, get_state_from_db, new_storage, init,
  get_state_key_data, present, database_storage_get, optimistic_storage_get,
  database_storage_has_key, optimistic_storage_has_key, storage_get, storage_has_key,
}

module _ (db : Database) where
  -- In every storage `storage_has_key` says of every key whether `storage_get` finds a value.
  pub storage_has_key-get :
      (s : CodeStorage) (key : Bytes)
      → storage_has_key db s key ≡ (storage_get db s key >>= λ value. ok (is_some value))
  unfolding storage_has_key storage_get optimistic_storage_has_key optimistic_storage_get
      database_storage_has_key database_storage_get
  storage_has_key-get s key = ground (arith, Option-cases (lookup key s.optimistic_data))

  -- The database's value of a key, without its key.
  abbrev pub stored : AccountId → ℕ → Bytes → Result Bytes
  stored account_id block_height key =
      get_state_key_value_from_db db account_id block_height key >>= λ found. ok found.1

  -- The state that is fetched ahead holds for each key the value that the database has of it.
  abbrev pub IsWholeState : AccountId → ℕ → HashMap Bytes Bytes → Type 0
  IsWholeState account_id block_height state =
      (key : Bytes) → stored account_id block_height key ≡ ok (get_or (lookup key state) [])

  -- What a contract reads under a key: the change of the optimistic block to the key, a deletion
  -- included, or else what the database has at the height, where an empty value is no value.
  abbrev pub visible : AccountId → ℕ → HashMap Bytes (Option Bytes) → Bytes → Result (Option Bytes)
  visible account_id block_height optimistic_data key = elim (lookup key optimistic_data) [
    | some value ↦ ok value
    | none ↦ stored account_id block_height key >>= λ value. ok (present db value)
  ]

  module _ (account_id : AccountId) (block_height : ℕ) (validators : HashMap AccountId ℕ) where
    -- Over a state that is empty, as without fetching, or whole.
    database-fetched :
        (optimistic_data : HashMap Bytes (Option Bytes)) (key : Bytes) (state : HashMap Bytes Bytes)
        → (state ≡ []) ⊎ IsWholeState account_id block_height state
        → database_storage_get db
            (new_storage account_id block_height validators optimistic_data state)
            key
          ≡ (stored account_id block_height key >>= λ value. ok (present db value))
    unfolding database_storage_get get_state_key_data new_storage
    database-fetched optimistic_data key [] h = refl
    database-fetched optimistic_data key (x ∷ xs) (inl empty) = absurd cc
    database-fetched optimistic_data key (x ∷ xs) (inr whole) = rw (whole key) refl

    get-fetched :
        (optimistic_data : HashMap Bytes (Option Bytes)) (key : Bytes) (state : HashMap Bytes Bytes)
        → (state ≡ []) ⊎ IsWholeState account_id block_height state
        → storage_get db (new_storage account_id block_height validators optimistic_data state) key
          ≡ visible account_id block_height optimistic_data key
    unfolding storage_get optimistic_storage_get new_storage lookup
    get-fetched [] key state h = database-fetched [] key state h
    get-fetched (c ∷ cs) key state h =
        ground (arith, database-fetched (c ∷ cs) key state h, Option-cases (lookup key (c ∷ cs)))

  -- For every account, height, optimistic changes and key, a storage that is made, with or without
  -- fetching the state ahead, reads the optimistic change over the database's value, if the state
  -- that is fetched ahead agrees with the database's values.
  pub storage_get-visible :
      (account_id : AccountId) (block_height : ℕ) (validators : HashMap AccountId ℕ)
      (optimistic_data : HashMap Bytes (Option Bytes)) (prefetch_state : Bool) (s : CodeStorage)
      (key : Bytes)
      → ((state : HashMap Bytes Bytes)
          → get_state_from_db db account_id block_height [] ≡ ok state
          → IsWholeState account_id block_height state)
      → init db account_id block_height validators optimistic_data prefetch_state ≡ ok s
      → storage_get db s key ≡ visible account_id block_height optimistic_data key
  unfolding init
  storage_get-visible account_id block_height validators optimistic_data true s key whole made =
      by_state (get_state_from_db db account_id block_height []) refl made
    where
      by_state :
          (r : Result (HashMap Bytes Bytes))
          → get_state_from_db db account_id block_height [] ≡ r
          → (r >>= λ state.
              ok (new_storage account_id block_height validators optimistic_data state))
            ≡ ok s
          → storage_get db s key ≡ visible account_id block_height optimistic_data key
      by_state (ok state) e made = rw (← ok-injective made) (
          get-fetched account_id block_height validators optimistic_data key state
            (inr (whole state e)))
      by_state (err _) e made = absurd cc
      by_state (panic _) e made = absurd cc
  storage_get-visible account_id block_height validators optimistic_data false s key whole made =
      rw (← ok-injective made)
        (get-fetched account_id block_height validators optimistic_data key [] (inl refl))

  -- Where the database has an empty value under a key, a contract finds the key exactly if the
  -- optimistic block sets it, were it to the same empty value: `storage_has_key` and `storage_get`
  -- answer the optimistic change to the key, and that the key is absent if there is none. This
  -- holds of every storage that is made, with or without fetching the state ahead, if the state that
  -- is fetched ahead agrees with the database's values.
  pub empty_value-differs :
      (account_id : AccountId) (block_height : ℕ) (validators : HashMap AccountId ℕ)
      (optimistic_data : HashMap Bytes (Option Bytes)) (prefetch_state : Bool) (s : CodeStorage)
      (key : Bytes)
      → ((state : HashMap Bytes Bytes)
          → get_state_from_db db account_id block_height [] ≡ ok state
          → IsWholeState account_id block_height state)
      → init db account_id block_height validators optimistic_data prefetch_state ≡ ok s
      → stored account_id block_height key ≡ ok []
      → (storage_has_key db s key ≡ ok (is_some (get_or (lookup key optimistic_data) none)))
        × (storage_get db s key ≡ ok (get_or (lookup key optimistic_data) none))
  empty_value-differs account_id block_height validators optimistic_data prefetch_state s key whole
        made empty =
      let found : storage_get db s key ≡ ok (get_or (lookup key optimistic_data) none) =
        storage_get-visible account_id block_height validators optimistic_data prefetch_state s key
          whole made
        ∙ empty_visible in
      (storage_has_key-get s key ∙ rw found refl, found)
    where
      empty_visible :
          visible account_id block_height optimistic_data key
          ≡ ok (get_or (lookup key optimistic_data) none)
      empty_visible = elim (Option-cases (lookup key optimistic_data)) [
        | inl absent ↦ rw (absent, visible) (ap (λ r. r >>= λ value. ok (present db value)) empty)
        | inr (value, change) ↦ rw (change, visible) refl
      ]
