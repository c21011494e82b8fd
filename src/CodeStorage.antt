-- ===== src/CodeStorage.antt =====
-- rpc-server/src/modules/queries/contract_runner/code_storage.rs and queries/utils.rs: the storage
-- that a contract sees while a view call runs: the state of its account at a height, under the
-- changes of the optimistic block. `VMLogicError` is the text of its host error.
pub mod Overlay
pub mod Postgres
use read_rpc.Prelude.{
  ℕ, ◌%◌, ◌^◌, Bool, true, false, not, Option, none, some, List, [], ◌∷◌, ◌++◌, Text, Bytes, codes,
  is_empty, is_some, get_or, if◌then◌else◌, add_u64, sum, text_eq,
}
use read_rpc.Prelude.HashMap.{HashMap, lookup, values}
use read_rpc.Prelude.Outcome.{Result, ok, err, panic, ◌>>=◌, ◌>>◌}
use read_rpc.Prelude.Exec.{Exec}
use read_rpc.Views.{CryptoHash, AccountId}

-- `ReaderDbManager`, and nearcore's hash of the eight bytes of a number.
pub record Database : Type 0 where
  pub get_state_key_value : AccountId → ℕ → Bytes → Result (Bytes × Bytes)
  pub get_account_state : AccountId → ℕ → Bytes → Result (HashMap Bytes Bytes)
  pub hash_count : ℕ → CryptoHash

pub record CodeStorage : Type 0 where
  pub account_id : AccountId
  pub block_height : ℕ
  pub validators : HashMap AccountId ℕ
  pub data_count : ℕ
  pub is_optimistic : Bool
  pub optimistic_data : HashMap Bytes (Option Bytes)
  pub is_prefetch_state : Bool
  pub prefetch_state_data : HashMap Bytes Bytes

-- What `init` makes of the state that it fetched ahead.
unfoldable pub new_storage :
    AccountId
    → ℕ
    → HashMap AccountId ℕ
    → HashMap Bytes (Option Bytes)
    → HashMap Bytes Bytes
    → CodeStorage
new_storage account_id block_height validators optimistic_data prefetch_state_data = record {
  account_id = account_id;
  block_height = block_height;
  validators = validators;
  data_count = 0;
  is_optimistic = not (is_empty optimistic_data);
  optimistic_data = optimistic_data;
  is_prefetch_state = not (is_empty prefetch_state_data);
  prefetch_state_data = prefetch_state_data;
}

-- `unwrap_or_else` with a value: a panic goes on.
abbrev pub or_value : {A : Type 0} → A → Result A → Result A
or_value d (ok a) = ok a
or_value d (err e) = ok d
or_value d (panic p) = panic p

module _ (db : Database) where
  unfoldable pub get_state_key_value_from_db : AccountId → ℕ → Bytes → Result (Bytes × Bytes)
  get_state_key_value_from_db account_id block_height key =
      or_value (key, []) (db.get_state_key_value account_id block_height key)

  unfoldable pub get_state_from_db : AccountId → ℕ → Bytes → Result (HashMap Bytes Bytes)
  get_state_from_db account_id block_height prefix =
      or_value [] (db.get_account_state account_id block_height prefix)

  unfoldable pub init :
      AccountId → ℕ → HashMap AccountId ℕ → HashMap Bytes (Option Bytes) → Bool → Result CodeStorage
  init account_id block_height validators optimistic_data prefetch_state = do
    prefetch_state_data ←
        if prefetch_state then get_state_from_db account_id block_height [] else ok []
    ok (new_storage account_id block_height validators optimistic_data prefetch_state_data)

  unfoldable pub get_state_key_data : CodeStorage → Bytes → Result Bytes
  get_state_key_data s key =
      if s.is_prefetch_state
      then ok (get_or (lookup key s.prefetch_state_data) [])
      else (do found ← get_state_key_value_from_db s.account_id s.block_height key; ok found.1)

  abbrev pub present : Bytes → Option Bytes
  present value = if is_empty value then none else some value

  unfoldable pub database_storage_get : CodeStorage → Bytes → Result (Option Bytes)
  database_storage_get s key = do value ← get_state_key_data s key; ok (present value)

  unfoldable pub optimistic_storage_get : CodeStorage → Bytes → Result (Option Bytes)
  optimistic_storage_get s key = elim (lookup key s.optimistic_data) [
    | some value ↦ ok value
    | none ↦ database_storage_get s key
  ]

  unfoldable pub database_storage_has_key : CodeStorage → Bytes → Result Bool
  database_storage_has_key s key = do value ← get_state_key_data s key; ok (not (is_empty value))

  unfoldable pub optimistic_storage_has_key : CodeStorage → Bytes → Result Bool
  optimistic_storage_has_key s key = elim (lookup key s.optimistic_data) [
    | some value ↦ ok (is_some value)
    | none ↦ database_storage_has_key s key
  ]

  unfoldable pub storage_get : CodeStorage → Bytes → Result (Option Bytes)
  storage_get s key =
      if s.is_optimistic then optimistic_storage_get s key else database_storage_get s key

  unfoldable pub storage_has_key : CodeStorage → Bytes → Result Bool
  storage_has_key s key =
      if s.is_optimistic then optimistic_storage_has_key s key else database_storage_has_key s key

  unfoldable pub generate_data_id : Exec CodeStorage CryptoHash
  generate_data_id s =
      (ok (db.hash_count s.data_count), record s { data_count = add_u64 s.data_count 1 })

-- What a view call may not do is refused, and changes nothing.
abbrev pub prohibited_in_view : Text → Exec CodeStorage Unit
prohibited_in_view method_name s = (err (codes "ProhibitedInView " ++ method_name), s)

unfoldable pub storage_set : Bytes → Bytes → Exec CodeStorage Unit
storage_set key value = prohibited_in_view (codes "storage_set")

unfoldable pub storage_remove : Bytes → Exec CodeStorage Unit
storage_remove key = prohibited_in_view (codes "storage_remove")

unfoldable pub storage_remove_subtree : Bytes → Exec CodeStorage Unit
storage_remove_subtree prefix = prohibited_in_view (codes "storage_remove_subtree")

unfoldable pub validator_stake : CodeStorage → AccountId → Option ℕ
validator_stake s account_id = lookup account_id s.validators

-- A balance is a `u128`.
unfoldable pub validator_total_stake : CodeStorage → ℕ
validator_total_stake s = sum (values s.validators) % 2 ^ 128
