-- ===== src/Queries.antt =====
-- rpc-server/src/modules/queries/methods.rs: what the views of an account read, from the database at
-- the height of a block and, for the optimistic block, from its changes. A view whose parts are
-- awaited together runs them in order.
pub mod Runner
pub mod Call
pub mod Overlaid
pub mod Views
pub mod Heights
pub mod Answers
use read_rpc.Prelude.{
  ℕ, Bool, true, ◌&&◌, Option, none, some, List, [], ◌∷◌, ◌++◌, Text, Bytes, codes, is_empty, ltb,
  if◌then◌else◌, text_eq,
}
use read_rpc.Prelude.HashMap.{HashMap, lookup, remove}
use read_rpc.Prelude.Outcome.{Result, ok, err, panic}
use read_rpc.Views.{
  CryptoHash, AccountId, PublicKey, AccountView, AccessKeyView, EpochValidatorInfo,
  QueryResponseKind, account, contract_code, access_key, state, access_key_list, RpcQueryResponse,
  RpcQueryError, unknown_account, no_contract_code, too_large_contract_state, unknown_access_key,
  internal_error,
}
use read_rpc.Blocks.{CacheBlock}
use read_rpc.Blocks.Finality.{
  BlocksInfoByFinality, optimistic_account_changes_in_block, optimistic_code_changes_in_block,
  optimistic_access_key_changes_in_block, optimistic_state_changes_in_block,
}
use read_rpc.Database.Reads.{QueryData}
use read_rpc.CodeStorage.{Database, get_state_from_db}

-- The answer to a query: `Result<_, RpcQueryError>`, or a panic.
pub data Answer (A : Type 0) : Type 0 where
  answered : A → Answer A
  failed : RpcQueryError → Answer A
  panicked : Text → Answer A

infixl 5 ◌>>=◌ ◌>>◌
abbrev pub ◌>>=◌ : {A B : Type 0} → Answer A → (A → Answer B) → Answer B
answered a >>= f = f a
failed e >>= f = failed e
panicked p >>= f = panicked p

abbrev pub ◌>>◌ : {A B : Type 0} → Answer A → Answer B → Answer B
m >> k = m >>= λ _. k

-- `map_err`
abbrev pub or_fail : {A : Type 0} → (Text → RpcQueryError) → Result A → Answer A
or_fail e (ok a) = answered a
or_fail e (err text) = failed (e text)
or_fail e (panic p) = panicked p

abbrev pub passed : {A : Type 0} → Result A → Answer A
passed r = or_fail internal_error r

-- `ReaderDbManager`, as far as queries go; validators come with the height of their epoch.
pub record Reader : Type 0 where
  pub storage : Database
  pub get_account : AccountId → ℕ → Result (QueryData AccountView)
  pub get_contract_code : AccountId → ℕ → Result (QueryData Bytes)
  pub get_access_key : AccountId → ℕ → PublicKey → Result (QueryData AccessKeyView)
  pub get_account_access_keys : AccountId → ℕ → Result (List (PublicKey × AccessKeyView))
  pub get_validators_by_epoch_id : CryptoHash → Result (ℕ × EpochValidatorInfo)

abbrev pub StateItem : Type 0
StateItem = Bytes × Bytes

abbrev pub with_item : Bytes → Option Bytes → List StateItem → List StateItem
with_item key none items = items
with_item key (some value) items = (key, value) ∷ items

-- The optimistic change, if there is one, or else the value of the database.
abbrev pub current : Option (Option Bytes) → Option Bytes → Option Bytes
current none value = value
current (some changed) value = changed

-- The `filter_map` over the state of the database, which takes out of the optimistic changes those
-- that it meets.
unfoldable pub overlay :
    HashMap Bytes Bytes
    → HashMap Bytes (Option Bytes)
    → List StateItem × HashMap Bytes (Option Bytes)
overlay [] optimistic_data = ([], optimistic_data)
overlay ((key, value) ∷ state_from_db) optimistic_data =
    let (items, rest) = overlay state_from_db (remove key optimistic_data) in
    (with_item key (current (lookup key optimistic_data) (some value)) items, rest)

unfoldable pub optimistic_items : HashMap Bytes (Option Bytes) → List StateItem
optimistic_items [] = []
optimistic_items ((key, value) ∷ m) = with_item key value (optimistic_items m)

module _ (info : BlocksInfoByFinality) (reader : Reader) (block : CacheBlock) where
  abbrev pub at_block : (ℕ → CryptoHash → RpcQueryError) → RpcQueryError
  at_block error = error block.block_height block.block_hash

  unfoldable pub database_view_account : AccountId → Answer AccountView
  database_view_account account_id = do
    found ←
        or_fail (λ _. at_block (unknown_account account_id))
          (reader.get_account account_id block.block_height)
    answered found.value

  unfoldable pub optimistic_view_account : AccountId → Answer AccountView
  optimistic_view_account account_id = elim (optimistic_account_changes_in_block info account_id) [
    | ok (some account_view) ↦ answered account_view
    | ok none ↦ failed (at_block (unknown_account account_id))
    | err _ ↦ database_view_account account_id
    | panic p ↦ panicked p
  ]

  abbrev pub respond : QueryResponseKind → RpcQueryResponse
  respond kind = record {
    kind = kind;
    block_height = block.block_height;
    block_hash = block.block_hash;
  }

  unfoldable pub view_account : AccountId → Bool → Answer RpcQueryResponse
  view_account account_id is_optimistic = do
    account_view ←
        if is_optimistic
        then optimistic_view_account account_id
        else database_view_account account_id
    answered (respond (account account_view))

  unfoldable pub database_view_code : AccountId → Answer Bytes
  database_view_code account_id = do
    found ←
        or_fail (λ _. at_block (no_contract_code account_id))
          (reader.get_contract_code account_id block.block_height)
    answered found.value

  unfoldable pub optimistic_view_code : AccountId → Answer Bytes
  optimistic_view_code account_id = elim (optimistic_code_changes_in_block info account_id) [
    | ok (some code) ↦ answered code
    | ok none ↦ failed (at_block (no_contract_code account_id))
    | err _ ↦ database_view_code account_id
    | panic p ↦ panicked p
  ]

  unfoldable pub view_code : AccountId → Bool → Answer RpcQueryResponse
  view_code account_id is_optimistic = do
    code ← if is_optimistic then optimistic_view_code account_id else database_view_code account_id
    account_view ←
        if is_optimistic
        then optimistic_view_account account_id
        else database_view_account account_id
    answered (respond (contract_code code account_view.code_hash))

  unfoldable pub optimistic_view_state : AccountId → Bytes → Answer (List StateItem)
  optimistic_view_state account_id prefix = do
    state_from_db ← passed (get_state_from_db reader.storage account_id block.block_height prefix)
    let (values, rest) =
        overlay state_from_db (optimistic_state_changes_in_block info account_id prefix)
    answered (values ++ optimistic_items rest)

  unfoldable pub database_view_state : AccountId → Bytes → Answer (List StateItem)
  database_view_state account_id prefix =
      passed (get_state_from_db reader.storage account_id block.block_height prefix)

  -- The size that is checked is that of the account in the database.
  unfoldable pub view_state : ℕ → AccountId → Bytes → Bool → Answer RpcQueryResponse
  view_state prefetch_state_size_limit account_id prefix is_optimistic = do
    found ←
        or_fail (λ _. at_block (unknown_account account_id))
          (reader.get_account account_id block.block_height)
    items ←
        if is_empty prefix && ltb prefetch_state_size_limit found.value.storage_usage
        then failed (at_block (too_large_contract_state account_id))
        else if is_optimistic
        then optimistic_view_state account_id prefix
        else database_view_state account_id prefix
    answered (respond (state items))

  unfoldable pub database_view_access_key : AccountId → PublicKey → Answer AccessKeyView
  database_view_access_key account_id public_key = do
    found ←
        or_fail (λ _. at_block (unknown_access_key public_key))
          (reader.get_access_key account_id block.block_height public_key)
    answered found.value

  unfoldable pub optimistic_view_access_key : AccountId → PublicKey → Answer AccessKeyView
  optimistic_view_access_key account_id public_key =
      elim (optimistic_access_key_changes_in_block info account_id public_key) [
        | ok (some access_key_view) ↦ answered access_key_view
        | ok none ↦ failed (at_block (unknown_access_key public_key))
        | err _ ↦ database_view_access_key account_id public_key
        | panic p ↦ panicked p
      ]

  unfoldable pub view_access_key : AccountId → PublicKey → Bool → Answer RpcQueryResponse
  view_access_key account_id public_key is_optimistic = do
    access_key_view ←
        if is_optimistic
        then optimistic_view_access_key account_id public_key
        else database_view_access_key account_id public_key
    answered (respond (access_key access_key_view))

  unfoldable pub view_access_keys_list : AccountId → Answer RpcQueryResponse
  view_access_keys_list account_id = do
    access_keys ←
        or_fail (λ e. internal_error (codes "Failed to fetch access keys: " ++ e))
          (reader.get_account_access_keys account_id block.block_height)
    answered (respond (access_key_list access_keys))
