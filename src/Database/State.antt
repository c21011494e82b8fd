-- ===== src/Database/State.antt =====
-- database/src/postgres/rpc_server.rs: the queries for the state of an account agree, and read the
-- last entry of each key's history.
use read_rpc.Prelude.{
  ℕ, ◌≡◌, refl, ap, ◌∙◌, Bool, Option, none, some, Option-cases, List, [], ◌∷◌, Text, Bytes, codes,
  if◌then◌else◌, arith, text_eq, ℕ_eq,
}
use read_rpc.Prelude.HashMap.{HashMap, IsMap, lookup, lookup-nil}
use read_rpc.Prelude.Outcome.{ok, ◌>>=◌, ok_or}
use read_rpc.Views.{AccountId}
use read_rpc.Blocks.{starts_with}
use read_rpc.Blocks.Matching.{starts_with-encode}
use read_rpc.Database.{
  Row, DataKey, data_key_eq, newest, is_at, Pool, PostgresDbManager, get_shard_connection,
  fetch_one,
}
use read_rpc.Database.History.{
  present, last_entry, history_of, IsTable, found_row, entry_found, newest-last_entry,
}
use read_rpc.Database.Reads.{
  Codec, latest_blocks, latest_rows, every_key, collect_items, get_state, get_state_by_key_prefix,
  get_account_state, get_state_key_value,
}
use read_rpc.Database.Whole.{IsEncoded, collect_items-IsMap, collect_items-kept, last_of-kept}

module _ (codec : Codec) where
  -- The value of a key of an account's state at a height: that of the last entry at the height or
  -- below, if it is no deletion.
  abbrev pub value_at : Pool → AccountId → ℕ → Bytes → Option Bytes
  value_at pool account_id h key =
      present (last_entry (history_of pool.state_changes_data (account_id, codec.hex.encode key)) h)

  -- A database that answers for an account: it is connected and executes the queries, its primary
  -- keys are unique, and the keys of the state are in hexadecimal.
  pub record Serves (db : PostgresDbManager) (account_id : AccountId) (pool : Pool) : Type 0 where
    pub connected : lookup (db.account_id_to_shard_id account_id) db.shards_pool ≡ some pool
    pub executes : (n : ℕ) → pool.execute n ≡ ok tt
    pub table : IsTable pool.state_changes_data
    pub encoded : IsEncoded codec pool.state_changes_data

  selected :
      (account_id : AccountId) (like : Text → Bool) (h : ℕ) (rows : List (Row DataKey))
      → IsTable rows
      → IsEncoded codec rows
      → (state : HashMap Bytes Bytes) × (collect_items codec (latest_rows account_id like h rows) []
          ≡ ok state)
        × IsMap state
        × ((key : Bytes)
            → lookup key state ≡ (
                if like (codec.hex.encode key)
                then present (last_entry (history_of rows (account_id, codec.hex.encode key)) h)
                else none))
  unfolding latest_rows
  selected account_id like h rows table encoded =
      let (state, collected) =
        collect_items-kept codec account_id (latest_blocks account_id like h rows) rows []
          encoded in
      (
        state,
        collected.0,
        collect_items-IsMap codec (latest_rows account_id like h rows) [] state tt collected.0,
        λ key.
            collected.1 key
            ∙ ground (
              arith,
              lookup-nil {V = Bytes} key,
              last_of-kept account_id like h rows (codec.hex.encode key) table,
            ),
      )

  -- For a database that serves an account, the query for its state, with or without a prefix,
  -- succeeds with a map, which holds under each key with the prefix the value of the last entry for
  -- the key at the height or below, absent after a deletion, and nothing under any other key.
  pub get_account_state-value :
      (db : PostgresDbManager) (account_id : AccountId) (pool : Pool) (h : ℕ) (prefix : Bytes)
      → Serves db account_id pool
      → (state : HashMap Bytes Bytes) × (get_account_state codec db account_id h prefix ≡ ok state)
        × IsMap state
        × ((key : Bytes)
            → lookup key state
              ≡ (if starts_with prefix key then value_at pool account_id h key else none))
  unfolding get_account_state get_state get_state_by_key_prefix starts_with get_shard_connection
  get_account_state-value db account_id pool h [] serves =
      let (state, collected, map, holds) =
        selected account_id every_key h pool.state_changes_data serves.table serves.encoded in
      (state, rw (serves.connected, serves.executes 2) collected, map, holds)
  get_account_state-value db account_id pool h (p ∷ ps) serves =
      let (state, collected, map, holds) =
        selected account_id (starts_with (codec.hex.encode (p ∷ ps))) h pool.state_changes_data
          serves.table serves.encoded in
      (
        state,
        rw (serves.connected, serves.executes 3) collected,
        map,
        λ key. holds key ∙ rw (starts_with-encode codec.hex (p ∷ ps) key) refl,
      )

  abbrev pub with_key : Bytes → Option Bytes → Option (Bytes × Bytes)
  with_key key none = none
  with_key key (some value) = some (key, value)

  abbrev error_of : Option (Row DataKey) → Text
  error_of none = codes "no rows returned by a query that expected to return at least one row"
  error_of (some row) = codes "unexpected null; try decoding as an `Option`"

  -- For a database that serves an account, the query for one key finds the value of the last entry
  -- for the key at the height or below, and is an error if there is none.
  pub get_state_key_value-value :
      (db : PostgresDbManager) (account_id : AccountId) (pool : Pool) (h : ℕ) (key : Bytes)
      → Serves db account_id pool
      → (e : Text) × (get_state_key_value codec db account_id h key
          ≡ ok_or (with_key key (value_at pool account_id h key)) e)
  unfolding get_state_key_value get_shard_connection
  get_state_key_value-value db account_id pool h key serves =
      let row = newest (is_at (account_id, codec.hex.encode key) h) pool.state_changes_data in
      (
        error_of row,
        rw (serves.connected, serves.executes 3)
            (by_newest row
              (newest-last_entry pool.state_changes_data (account_id, codec.hex.encode key) h)),
      )
    where
      by_newest :
          (row : Option (Row DataKey)) {entry : Option (Option Bytes)}
          → entry_found (found_row row) ≡ entry
          → (fetch_one row >>= λ found. ok (key, found.1))
            ≡ ok_or (with_key key (present entry)) (error_of row)
      by_newest none e = ground (arith, ap present e)
      by_newest (some row) e = ground (arith, ap present e, Option-cases row.data_value)
