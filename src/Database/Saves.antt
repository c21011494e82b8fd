-- ===== src/Database/Saves.antt =====
-- database/src/postgres/state_indexer.rs: the state changes of a block are written into the tables
-- of a shard. `push_values` writes a row for each change of its kind, and `()` for another, which is
-- no SQL; the state indexer sorts the changes by kind before.
use read_rpc.Prelude.{
  ℕ, ◌*◌, Option, none, some, List, [], ◌∷◌, Text, Bytes, codes, length, ℕ_eq, text_eq,
}
use read_rpc.Prelude.HashMap.{lookup, insert}
use read_rpc.Prelude.Outcome.{Result, ok, err, panic, ok_or, expect, ◌>>=◌, ◌>>◌}
use read_rpc.Prelude.Exec.{Exec}
use read_rpc.Views.{
  CryptoHash, AccountId, PublicKey, ShardId, StateChangeValueView, account_update, account_deletion,
  access_key_update, access_key_deletion, data_update, data_deletion, contract_code_update,
  contract_code_deletion, StateChangeWithCauseView,
}
use read_rpc.StateIndexer.{ChangesDb}
use read_rpc.Database.{
  Row, DataKey, data_key_eq, Pool, PostgresDbManager, insert_rows, no_connection,
}
use read_rpc.Database.Reads.{Codec}

abbrev pub syntax_error : Text
syntax_error = codes "syntax error at or near \")\""

abbrev pub with_first :
    {K : Type 0} → Option (Row K) → Option (List (Row K)) → Option (List (Row K))
with_first (some row) (some rows) = some (row ∷ rows)
with_first _ _ = none

-- What a command leaves in the database of a shard.
abbrev pub commit : ShardId → Result Pool → Exec PostgresDbManager Unit
commit shard_id (ok pool) db =
    (ok tt, record db { shards_pool = insert shard_id pool db.shards_pool })
commit shard_id (err e) db = (err e, db)
commit shard_id (panic p) db = (panic p, db)

-- A command with its rows, if the shard is connected.
abbrev pub write :
    {A : Type 0} → ShardId → Result A → (A → Pool → Result Pool) → Exec PostgresDbManager Unit
write shard_id rows command db =
    commit shard_id
      (rows >>= λ news.
        ok_or (lookup shard_id db.shards_pool) (no_connection shard_id) >>= command news)
      db

module _ (codec : Codec) (block_height : ℕ) (block_hash : CryptoHash) where
  abbrev pub row_of : {K : Type 0} → K → Option Bytes → Row K
  row_of key value = record {
    key = key;
    block_height = block_height;
    block_hash = block_hash;
    data_value = value;
  }

  unfoldable pub data_row : StateChangeValueView → Result (Option (Row DataKey))
  data_row (data_update id key value) = ok (some (row_of (id, codec.hex.encode key) (some value)))
  data_row (data_deletion id key) = ok (some (row_of (id, codec.hex.encode key) none))
  data_row _ = ok none

  abbrev access_key_data : PublicKey → Result Bytes
  access_key_data public_key = elim (codec.public_key_to_vec public_key) [
    | ok bytes ↦ ok bytes
    | _ ↦ panic (codes "Failed to borsh serialize public key")
  ]

  unfoldable pub access_key_row : StateChangeValueView → Result (Option (Row DataKey))
  access_key_row (access_key_update id public_key access_key) = do
    data_key ← access_key_data public_key
    data_value ←
        expect (codec.access_key_to_vec access_key) (codes "Failed to borsh serialize access key")
    ok (some (row_of (id, codec.hex.encode data_key) (some data_value)))
  access_key_row (access_key_deletion id public_key) = do
    data_key ← access_key_data public_key
    ok (some (row_of (id, codec.hex.encode data_key) none))
  access_key_row _ = ok none

  unfoldable pub contract_row : StateChangeValueView → Result (Option (Row AccountId))
  contract_row (contract_code_update id code) = ok (some (row_of id (some code)))
  contract_row (contract_code_deletion id) = ok (some (row_of id none))
  contract_row _ = ok none

  unfoldable pub account_row : StateChangeValueView → Result (Option (Row AccountId))
  account_row (account_update id account) = do
    data_value ← expect (codec.account_to_vec account) (codes "Failed to borsh serialize account")
    ok (some (row_of id (some data_value)))
  account_row (account_deletion id) = ok (some (row_of id none))
  account_row _ = ok none

  -- The rows of a command, if every change has one.
  unfoldable pub rows_of :
      {K : Type 0}
      → (StateChangeValueView → Result (Option (Row K)))
      → List StateChangeWithCauseView
      → Result (Option (List (Row K)))
  rows_of row [] = ok (some [])
  rows_of row (change ∷ changes) = do
    first ← row change.value
    rest ← rows_of row changes
    ok (with_first first rest)

  unfoldable pub save_state_changes_data :
      ShardId → List StateChangeWithCauseView → Exec PostgresDbManager Unit
  save_state_changes_data shard_id state_changes =
      write shard_id (rows_of data_row state_changes) λ news pool. do
        rows ← ok_or news syntax_error
        pool.execute (5 * length rows)
        saved ← insert_rows rows pool.state_changes_data
        ok (record pool { state_changes_data = saved })

  unfoldable pub save_state_changes_access_key :
      ShardId → List StateChangeWithCauseView → Exec PostgresDbManager Unit
  save_state_changes_access_key shard_id state_changes =
      write shard_id (rows_of access_key_row state_changes) λ news pool. do
        rows ← ok_or news syntax_error
        pool.execute (5 * length rows)
        saved ← insert_rows rows pool.state_changes_access_key
        ok (record pool { state_changes_access_key = saved })

  unfoldable pub save_state_changes_contract :
      ShardId → List StateChangeWithCauseView → Exec PostgresDbManager Unit
  save_state_changes_contract shard_id state_changes =
      write shard_id (rows_of contract_row state_changes) λ news pool. do
        rows ← ok_or news syntax_error
        pool.execute (4 * length rows)
        saved ← insert_rows rows pool.state_changes_contract
        ok (record pool { state_changes_contract = saved })

  unfoldable pub save_state_changes_account :
      ShardId → List StateChangeWithCauseView → Exec PostgresDbManager Unit
  save_state_changes_account shard_id state_changes =
      write shard_id (rows_of account_row state_changes) λ news pool. do
        rows ← ok_or news syntax_error
        pool.execute (4 * length rows)
        saved ← insert_rows rows pool.state_changes_account
        ok (record pool { state_changes_account = saved })

-- `PostgresDBManager` as the state indexer's `StateIndexerDbManager`.
abbrev pub writer : Codec → ChangesDb
writer codec = record {
  State = PostgresDbManager;
  save_state_changes_data =
      λ shard changes h hash. save_state_changes_data codec h hash shard changes;
  save_state_changes_access_key =
      λ shard changes h hash. save_state_changes_access_key codec h hash shard changes;
  save_state_changes_contract =
      λ shard changes h hash. save_state_changes_contract codec h hash shard changes;
  save_state_changes_account =
      λ shard changes h hash. save_state_changes_account codec h hash shard changes;
}
