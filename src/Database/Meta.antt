-- ===== src/Database/Meta.antt =====
-- database/src/postgres and database/src/base/state_indexer.rs: the database of blocks, chunks, epochs
-- and heights that all shards share. A table with a primary key is a map from it. A number is stored
-- as it is, and read back; `serde_json` is a parameter.
pub mod Chunks
pub mod Placed
use read_rpc.Prelude.{
  ℕ, ◌*◌, Bool, not, ◌&&◌, Option, none, some, List, [], ◌∷◌, ◌==◌, ◌≡◌, Text, Bytes, codes, Eq,
  filter, is_empty, length, if◌then◌else◌, text_eq, ℕ_eq, ℕ_discrete,
}
use read_rpc.Prelude.HashMap.{HashMap, lookup, insert}
use read_rpc.Prelude.Outcome.{Result, ok, err, panic, ok_or, ◌>>=◌, ◌>>◌}
use read_rpc.Prelude.Exec.{Exec, join_all}
use read_rpc.Views.{CryptoHash, ShardId, EpochValidatorInfo}

-- `block_height, shard_id`: `BlockHeightShardId`
abbrev pub BlockHeightShardId : Type 0
BlockHeightShardId = ℕ × ShardId

-- Where a chunk of a block stands: its shard, and the height of the block that includes it first.
abbrev pub ChunkPlace : Type 0
ChunkPlace = ShardId × ℕ

abbrev pub Chunks : Type 0
Chunks = HashMap CryptoHash ChunkPlace

-- `chunk_hash, block_height`
abbrev pub ChunkKey : Type 0
ChunkKey = CryptoHash × ℕ

unfoldable pub chunk_key_dec : Discrete ChunkKey
unfolding ℕ_discrete
chunk_key_dec = hlevel ℕ_discrete

instance abbrev pub chunk_key_eq : Eq ChunkKey
chunk_key_eq = record { dec = chunk_key_dec }

pub record ValidatorsRow : Type 0 where
  pub epoch_height : ℕ
  pub epoch_start_height : ℕ
  pub epoch_end_height : ℕ
  pub validators_info : Bytes

pub record EpochValidatorsInfo : Type 0 where
  pub epoch_id : CryptoHash
  pub epoch_height : ℕ
  pub epoch_start_height : ℕ
  pub validators_info : EpochValidatorInfo

pub record MetaDb : Type 0 where
  pub execute : ℕ → Result {0} Unit
  pub blocks : HashMap CryptoHash ℕ
  pub chunks : HashMap CryptoHash BlockHeightShardId
  pub chunks_duplicate : HashMap ChunkKey ChunkPlace
  pub validators : HashMap CryptoHash ValidatorsRow
  pub meta : HashMap Text ℕ

abbrev pub committed : (MetaDb → MetaDb) → MetaDb → Result {0} Unit → Result {0} Unit × MetaDb
committed change db (ok _) = (ok tt, change db)
committed change db (err e) = (err e, db)
committed change db (panic p) = (panic p, db)

-- A command with so many bound values.
abbrev pub command : ℕ → (MetaDb → MetaDb) → Exec MetaDb Unit
command n change db = committed change db (db.execute n)

abbrev pub no_rows : Text
no_rows = codes "no rows returned by a query that expected to return at least one row"

-- `ON CONFLICT DO NOTHING`
unfoldable pub insert_new : {K V : Type 0} ⦃e : Eq K⦄ → K → V → HashMap K V → HashMap K V
insert_new key row table = elim (lookup key table) [ some _ ↦ table | none ↦ insert key row table ]

unfoldable pub insert_unique :
    Chunks → HashMap CryptoHash BlockHeightShardId → HashMap CryptoHash BlockHeightShardId
insert_unique [] table = table
insert_unique ((chunk_hash, (shard_id, height_included)) ∷ chunks) table =
    insert_unique chunks (insert_new chunk_hash (height_included, shard_id) table)

unfoldable pub insert_duplicates :
    ℕ → Chunks → HashMap ChunkKey ChunkPlace → HashMap ChunkKey ChunkPlace
insert_duplicates block_height [] table = table
insert_duplicates block_height ((chunk_hash, place) ∷ chunks) table =
    insert_duplicates block_height chunks (insert_new (chunk_hash, block_height) place table)

abbrev pub is_included : ℕ → CryptoHash × ChunkPlace → Bool
is_included block_height chunk = chunk.1.1 == block_height

unfoldable pub save_chunks_unique : ℕ → Chunks → Exec MetaDb Unit
save_chunks_unique block_height chunks db =
    let unique_chunks = filter (is_included block_height) chunks in
    if is_empty unique_chunks
    then (ok tt, db)
    else command (3 * length unique_chunks)
        (λ db. record db { chunks = insert_unique unique_chunks db.chunks }) db

-- The duplicates are counted, but all chunks are written.
unfoldable pub save_chunks_duplicate : ℕ → Chunks → Exec MetaDb Unit
save_chunks_duplicate block_height chunks db =
    let chunks_duplicate = filter (λ chunk. not (is_included block_height chunk)) chunks in
    if is_empty chunks_duplicate
    then (ok tt, db)
    else command (4 * length chunks)
        (λ db. record db {
          chunks_duplicate = insert_duplicates block_height chunks db.chunks_duplicate;
        })
        db

unfoldable pub save_block : ℕ → CryptoHash → Exec MetaDb Unit
save_block block_height block_hash =
    command 2 λ db. record db { blocks = insert_new block_hash block_height db.blocks }

unfoldable pub save_chunks : ℕ → Chunks → Exec MetaDb Unit
save_chunks block_height chunks =
    join_all
      (save_chunks_unique block_height chunks ∷ save_chunks_duplicate block_height chunks ∷ [])

unfoldable pub save_block_with_chunks : ℕ → CryptoHash → Chunks → Exec MetaDb Unit
save_block_with_chunks block_height block_hash chunks =
    join_all (save_block block_height block_hash ∷ save_chunks block_height chunks ∷ [])

unfoldable pub update_meta : Text → ℕ → Exec MetaDb Unit
update_meta indexer_id block_height =
    command 2 λ db. record db { meta = insert indexer_id block_height db.meta }

-- `WHERE block_height = $1 AND shard_id = $2 LIMIT 1`
unfoldable pub find_stored : ℕ → ShardId → HashMap ChunkKey ChunkPlace → Option BlockHeightShardId
find_stored block_height shard_id [] = none
find_stored block_height shard_id ((key, place) ∷ rows) =
    if key.1 == block_height && place.0 == shard_id
    then some (place.1, place.0)
    else find_stored block_height shard_id rows

-- `WHERE epoch_end_height = $1 LIMIT 1`
unfoldable pub find_epoch_end :
    ℕ → HashMap CryptoHash ValidatorsRow → Option (CryptoHash × ValidatorsRow)
find_epoch_end block_height [] = none
find_epoch_end block_height ((epoch_id, row) ∷ rows) =
    if row.epoch_end_height == block_height
    then some (epoch_id, row)
    else find_epoch_end block_height rows

module _ (db : MetaDb) where
  unfoldable pub get_block_height_by_hash : CryptoHash → Result ℕ
  get_block_height_by_hash block_hash = do db.execute 1; ok_or (lookup block_hash db.blocks) no_rows

  unfoldable pub get_block_by_chunk_hash : CryptoHash → Result BlockHeightShardId
  get_block_by_chunk_hash chunk_hash = do db.execute 1; ok_or (lookup chunk_hash db.chunks) no_rows

  unfoldable pub get_block_by_height_and_shard_id : ℕ → ShardId → Result BlockHeightShardId
  get_block_by_height_and_shard_id block_height shard_id = do
    db.execute 2
    ok_or (find_stored block_height shard_id db.chunks_duplicate) no_rows

  unfoldable pub get_last_processed_block_height : Text → Result ℕ
  get_last_processed_block_height indexer_id = do
    db.execute 1
    ok_or (lookup indexer_id db.meta) no_rows

-- `serde_json`, of validators
pub record ValidatorsJson : Type 0 where
  pub to_value : EpochValidatorInfo → Result Bytes
  pub from_value : Bytes → Result EpochValidatorInfo
  pub from_value-to_value :
      (info : EpochValidatorInfo) (value : Bytes)
      → to_value info ≡ ok value
      → from_value value ≡ ok info

module _ (json : ValidatorsJson) where
  abbrev with_validators :
      ℕ
      → Result (HashMap CryptoHash ValidatorsRow → HashMap CryptoHash ValidatorsRow)
      → Exec MetaDb Unit
  with_validators n (ok change) db =
      command n (λ db. record db { validators = change db.validators }) db
  with_validators n (err e) db = (err e, db)
  with_validators n (panic p) db = (panic p, db)

  unfoldable pub save_validators :
      CryptoHash → ℕ → ℕ → EpochValidatorInfo → CryptoHash → Exec MetaDb Unit
  save_validators epoch_id epoch_height epoch_start_height validators_info epoch_end_block_hash db =
      with_validators 5
        (do
          epoch_end_block_height ← get_block_height_by_hash db epoch_end_block_hash
          value ← json.to_value validators_info
          ok (
              insert_new epoch_id (record {
                epoch_height = epoch_height;
                epoch_start_height = epoch_start_height;
                epoch_end_height = epoch_end_block_height;
                validators_info = value;
              })))
        db

  module _ (db : MetaDb) where
    abbrev epoch_validators : CryptoHash → ValidatorsRow → Result EpochValidatorsInfo
    epoch_validators epoch_id row = do
      validators_info ← json.from_value row.validators_info
      ok (record {
        epoch_id = epoch_id;
        epoch_height = row.epoch_height;
        epoch_start_height = validators_info.epoch_start_height;
        validators_info = validators_info;
      })

    unfoldable pub get_validators_by_epoch_id : CryptoHash → Result EpochValidatorsInfo
    get_validators_by_epoch_id epoch_id = do
      db.execute 1
      row ← ok_or (lookup epoch_id db.validators) no_rows
      epoch_validators epoch_id row

    unfoldable pub get_validators_by_end_block_height : ℕ → Result EpochValidatorsInfo
    get_validators_by_end_block_height block_height = do
      db.execute 1
      found ← ok_or (find_epoch_end block_height db.validators) no_rows
      epoch_validators found.0 found.1
