-- ===== src/Database/Reads.antt =====
-- database/src/postgres/rpc_server.rs: what the server reads of the state of the accounts at a
-- height, and base/rpc_server.rs. Borsh and the hex crate are parameters. An `Account` of
-- near_primitives has the fields of its view, an `AccessKey` too.
use read_rpc.Prelude.{
  ℕ, Bool, true, ◌&&◌, Option, none, some, List, [], ◌∷◌, ◌==◌, Text, Bytes, ◌≡◌, eqb, ltb, leb,
  is_some, is_empty, filter, if◌then◌else◌, text_eq, ℕ_eq,
}
use read_rpc.Prelude.HashMap.{HashMap, lookup, insert, upsert}
use read_rpc.Prelude.Outcome.{Result, ok, ◌>>=◌, ◌>>◌}
use read_rpc.Views.{CryptoHash, AccountId, PublicKey, AccountView, AccessKeyView}
use read_rpc.Blocks.{starts_with}
use read_rpc.Blocks.Requests.{Hex}
use read_rpc.Database.{
  Row, DataKey, data_key_eq, newest, is_at, PostgresDbManager, get_shard_connection, fetch_one,
}

pub record Codec : Type 0 where
  pub hex : Hex
  pub decode : Text → Result Bytes
  pub decode-encode : (bs : Bytes) → decode (hex.encode bs) ≡ ok bs
  pub public_key_to_vec : PublicKey → Result Bytes
  pub public_key_from_slice : Bytes → Result PublicKey
  pub account_to_vec : AccountView → Option Bytes
  pub account_from_slice : Bytes → Result AccountView
  pub access_key_to_vec : AccessKeyView → Option Bytes
  pub access_key_from_slice : Bytes → Result AccessKeyView

pub record QueryData (A : Type 0) : Type 0 where
  pub value : A
  pub block_height : ℕ
  pub block_hash : CryptoHash

abbrev pub higher_of : ℕ → ℕ → ℕ
higher_of a b = if ltb a b then b else a

-- `WITH latest_blocks AS (SELECT data_key, MAX(block_height) … GROUP BY data_key)`, over the rows of
-- an account whose key is like a pattern.
abbrev pub in_range : AccountId → (Text → Bool) → ℕ → Row DataKey → Bool
in_range account_id like block_height row =
    eqb account_id row.key.0 && (like row.key.1 && leb row.block_height block_height)

unfoldable pub latest_blocks : AccountId → (Text → Bool) → ℕ → List (Row DataKey) → HashMap Text ℕ
latest_blocks account_id like block_height [] = []
latest_blocks account_id like block_height (row ∷ rows) =
    let rest = latest_blocks account_id like block_height rows in
    if in_range account_id like block_height row
    then upsert row.key.1 (higher_of row.block_height) row.block_height rest
    else rest

abbrev pub joins : Option ℕ → Row DataKey → Bool
joins none row = Bool.false
joins (some height) row = row.block_height == height

-- `sc.data_key = lb.data_key AND sc.block_height = lb.max_block_height`, with the account's own rows
-- and no deletion.
abbrev pub is_latest : AccountId → HashMap Text ℕ → Row DataKey → Bool
is_latest account_id latest row =
    eqb account_id row.key.0 && (joins (lookup row.key.1 latest) row && is_some row.data_value)

unfoldable pub latest_rows : AccountId → (Text → Bool) → ℕ → List (Row DataKey) → List (Row DataKey)
latest_rows account_id like block_height rows =
    filter (is_latest account_id (latest_blocks account_id like block_height rows)) rows

abbrev pub every_key : Text → Bool
every_key data_key = true

module _ (codec : Codec) where
  -- The loop over the rows: each is decoded and inserted.
  unfoldable pub collect_items :
      List (Row DataKey) → HashMap Bytes Bytes → Result (HashMap Bytes Bytes)
  collect_items [] items = ok items
  collect_items (row ∷ rows) items = do
    found ← fetch_one (some row)
    key ← codec.decode row.key.1
    collect_items rows (insert key found.1 items)

  module _ (db : PostgresDbManager) where
    unfoldable pub get_state_by_key_prefix : AccountId → ℕ → Bytes → Result (HashMap Bytes Bytes)
    get_state_by_key_prefix account_id block_height prefix = do
      pool ← get_shard_connection db account_id
      pool.execute 3
      collect_items
          (latest_rows account_id (starts_with (codec.hex.encode prefix)) block_height
            pool.state_changes_data)
          []

    unfoldable pub get_state : AccountId → ℕ → Result (HashMap Bytes Bytes)
    get_state account_id block_height = do
      pool ← get_shard_connection db account_id
      pool.execute 2
      collect_items (latest_rows account_id every_key block_height pool.state_changes_data) []

    unfoldable pub get_account_state : AccountId → ℕ → Bytes → Result (HashMap Bytes Bytes)
    get_account_state account_id block_height prefix =
        if is_empty prefix
        then get_state account_id block_height
        else get_state_by_key_prefix account_id block_height prefix

    unfoldable pub get_state_key_value : AccountId → ℕ → Bytes → Result (Bytes × Bytes)
    get_state_key_value account_id block_height key_data = do
      pool ← get_shard_connection db account_id
      pool.execute 3
      found ← fetch_one (
          newest (is_at (account_id, codec.hex.encode key_data) block_height)
            pool.state_changes_data)
      ok (key_data, found.1)

    unfoldable pub get_account : AccountId → ℕ → Result (QueryData AccountView)
    get_account account_id block_height = do
      pool ← get_shard_connection db account_id
      pool.execute 2
      found ← fetch_one (newest (is_at account_id block_height) pool.state_changes_account)
      account ← codec.account_from_slice found.1
      ok (record {
        value = account;
        block_height = found.0.block_height;
        block_hash = found.0.block_hash;
      })

    unfoldable pub get_contract_code : AccountId → ℕ → Result (QueryData Bytes)
    get_contract_code account_id block_height = do
      pool ← get_shard_connection db account_id
      pool.execute 2
      found ← fetch_one (newest (is_at account_id block_height) pool.state_changes_contract)
      ok (record {
        value = found.1;
        block_height = found.0.block_height;
        block_hash = found.0.block_hash;
      })

    unfoldable pub get_access_key : AccountId → ℕ → PublicKey → Result (QueryData AccessKeyView)
    get_access_key account_id block_height public_key = do
      pool ← get_shard_connection db account_id
      key_data ← codec.public_key_to_vec public_key
      pool.execute 3
      found ← fetch_one (
          newest (is_at (account_id, codec.hex.encode key_data) block_height)
            pool.state_changes_access_key)
      access_key ← codec.access_key_from_slice found.1
      ok (record {
        value = access_key;
        block_height = found.0.block_height;
        block_hash = found.0.block_hash;
      })

    unfoldable pub collect_access_keys :
        List (Row DataKey) → Result (List (PublicKey × AccessKeyView))
    collect_access_keys [] = ok []
    collect_access_keys (row ∷ rows) = do
      found ← fetch_one (some row)
      key_data ← codec.decode row.key.1
      public_key ← codec.public_key_from_slice key_data
      access_key ← codec.access_key_from_slice found.1
      rest ← collect_access_keys rows
      ok ((public_key, access_key) ∷ rest)

    unfoldable pub get_account_access_keys :
        AccountId → ℕ → Result (List (PublicKey × AccessKeyView))
    get_account_access_keys account_id block_height = do
      pool ← get_shard_connection db account_id
      pool.execute 2
      collect_access_keys
          (latest_rows account_id every_key block_height pool.state_changes_access_key)
