-- ===== src/Database.antt =====
-- database/src/postgres: the tables of the state of the accounts. A table is the list of its rows;
-- the SQL that the source sends is read as Postgres documents it. Each shard has a database of its
-- own. A query goes through only if the database executes it with the number of values that are
-- bound to it, which is a parameter. The text of a hash and of an account is the value itself.
pub mod History
pub mod Reads
pub mod Whole
pub mod State
pub mod Saves
pub mod Stored
pub mod Groups
pub mod Indexed
pub mod Kept
pub mod Served
pub mod Pages
pub mod Meta
pub mod Receipts
use read_rpc.Prelude.{
  ℕ, ◌*◌, Bool, true, ◌&&◌, ◌||◌, Option, none, some, List, [], ◌∷◌, ◌++◌, ◌==◌, Text, Bytes, codes,
  Eq, eqb, ltb, leb, length, if◌then◌else◌, text_dec, text_eq, ℕ_eq,
}
use read_rpc.Prelude.Decimal.{u64_to_string}
use read_rpc.Prelude.HashMap.{HashMap, lookup, insert}
use read_rpc.Prelude.Outcome.{Result, ok, err, ok_or, ◌>>=◌, ◌>>◌}
use read_rpc.Views.{CryptoHash, AccountId, ShardId}

-- A row of a table of state changes. `key` has the columns of the primary key but the height.
pub record Row (K : Type 0) : Type 0 where
  pub key : K
  pub block_height : ℕ
  pub block_hash : CryptoHash
  pub data_value : Option Bytes

-- `account_id, data_key`
abbrev pub DataKey : Type 0
DataKey = AccountId × Text

unfoldable pub data_key_dec : Discrete DataKey
unfolding text_dec
data_key_dec = hlevel text_dec

instance abbrev pub data_key_eq : Eq DataKey
data_key_eq = record { dec = data_key_dec }

module _ {K : Type 0} ⦃e : Eq K⦄ where
  -- The same primary key.
  unfoldable pub conflicts : Row K → Row K → Bool
  conflicts new row = eqb new.key row.key && new.block_height == row.block_height

  -- `ON CONFLICT (…) DO UPDATE SET data_value = EXCLUDED.data_value`: the hash stays.
  unfoldable pub upsert_row : Row K → List (Row K) → List (Row K)
  upsert_row new [] = new ∷ []
  upsert_row new (row ∷ rows) =
      let rest = upsert_row new rows in
      if conflicts new row then record row { data_value = new.data_value } ∷ rows else row ∷ rest

  unfoldable pub upsert_rows : List (Row K) → List (Row K) → List (Row K)
  upsert_rows [] rows = rows
  upsert_rows (new ∷ news) rows = upsert_rows news (upsert_row new rows)

  unfoldable pub conflicts_with : Row K → List (Row K) → Bool
  conflicts_with new [] = Bool.false
  conflicts_with new (row ∷ rows) = conflicts new row || conflicts_with new rows

  unfoldable pub has_conflict : List (Row K) → Bool
  has_conflict [] = Bool.false
  has_conflict (row ∷ rows) = conflicts_with row rows || has_conflict rows

  -- One `INSERT`: with no row it is no SQL, and it may not write one row twice.
  unfoldable pub insert_rows : List (Row K) → List (Row K) → Result (List (Row K))
  insert_rows [] rows = err (codes "syntax error at or near \"ON\"")
  insert_rows (new ∷ news) rows =
      if has_conflict (new ∷ news)
      then err (codes "ON CONFLICT DO UPDATE command cannot affect row a second time")
      else ok (upsert_rows (new ∷ news) rows)

module _ {K : Type 0} where
  abbrev pub higher : Row K → Option (Row K) → Option (Row K)
  higher row none = some row
  higher row (some other) = if ltb row.block_height other.block_height then some other else some row

  -- `WHERE … ORDER BY block_height DESC LIMIT 1`
  unfoldable pub newest : (Row K → Bool) → List (Row K) → Option (Row K)
  newest p [] = none
  newest p (row ∷ rows) = let rest = newest p rows in if p row then higher row rest else rest

module _ {K : Type 0} ⦃e : Eq K⦄ where
  -- The columns of the key have the values that are asked for, and `block_height <= $n`.
  abbrev pub is_at : K → ℕ → Row K → Bool
  is_at key block_height row = eqb key row.key && leb row.block_height block_height

-- The database of a shard.
pub record Pool : Type 0 where
  pub execute : ℕ → Result {0} Unit
  pub state_changes_data : List (Row DataKey)
  pub state_changes_access_key : List (Row DataKey)
  pub state_changes_contract : List (Row AccountId)
  pub state_changes_account : List (Row AccountId)

-- `PostgresDBManager`, as far as the state of the accounts goes.
pub record PostgresDbManager : Type 0 where
  pub account_id_to_shard_id : AccountId → ShardId
  pub shards_pool : HashMap ShardId Pool

abbrev pub no_connection : ShardId → Text
no_connection shard_id =
    codes "Database connection for Shard_" ++ u64_to_string shard_id ++ codes " not found"

unfoldable pub get_shard_connection : PostgresDbManager → AccountId → Result Pool
get_shard_connection db account_id =
    let shard_id = db.account_id_to_shard_id account_id in
    ok_or (lookup shard_id db.shards_pool) (no_connection shard_id)

-- A row that is found is read as one whose value is there: `NULL` is no `Vec<u8>`.
abbrev pub fetch_one : {K : Type 0} → Option (Row K) → Result (Row K × Bytes)
fetch_one none = err (codes "no rows returned by a query that expected to return at least one row")
fetch_one (some row) = elim row.data_value [
  | none ↦ err (codes "unexpected null; try decoding as an `Option`")
  | some value ↦ ok (row, value)
]
