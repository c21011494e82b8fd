-- ===== src/Network/Saved.antt =====
-- database/src/postgres and rpc-server/src/modules/network/methods.rs: the validators of an epoch that
-- the state indexer saves are those that the server answers.
use read_rpc.Prelude.{
  ℕ, ◌≡◌, ◌≢◌, refl, ap, ◌∙◌, none, some, ◌==◌, inr, [], ◌∷◌, Bytes, if◌then◌else◌, arith, ℕ_eq,
}
use read_rpc.Prelude.HashMap.{HashMap, lookup, insert, lookup-insert}
use read_rpc.Prelude.Outcome.{ok}
use read_rpc.Views.{CryptoHash, EpochValidatorInfo, BlockId, block_id}
use read_rpc.Lru.{LruCrate}
use read_rpc.Blocks.{CacheBlock}
use read_rpc.Blocks.Latest.{or_else}
use read_rpc.Blocks.Finality.{final_cache_block}
use read_rpc.Blocks.Fetch.{Sources, ServerContext, fetch_block_from_cache_or_get}
use read_rpc.Database.Meta.{
  ValidatorsRow, ValidatorsJson, EpochValidatorsInfo, MetaDb, insert_new, find_epoch_end,
  save_validators, get_block_height_by_hash, get_validators_by_epoch_id,
  get_validators_by_end_block_height, committed,
}
use read_rpc.Database.Meta.Chunks.{insert_new_lem}
use read_rpc.Database.Meta.Placed.{Executes}
use read_rpc.Network.{EpochReader, Node, of_epoch, of_block, validators, validators_call}

find_epoch_end-insert :
    (h : ℕ) (id : CryptoHash) (row : ValidatorsRow) (t : HashMap CryptoHash ValidatorsRow)
    → lookup id t ≡ none
    → find_epoch_end h (insert id row t)
      ≡ or_else (find_epoch_end h t) (if row.epoch_end_height == h then some (id, row) else none)
unfolding find_epoch_end insert lookup
find_epoch_end-insert h id row [] new = ground arith
find_epoch_end-insert h id row (r ∷ t) new = ground (arith, find_epoch_end-insert h id row t)

module _ (json : ValidatorsJson) where
  -- The meta database as the server's source of validators.
  abbrev pub epochs : MetaDb → EpochReader
  epochs db = record {
    get_validators_by_epoch_id = get_validators_by_epoch_id json db;
    get_validators_by_end_block_height = get_validators_by_end_block_height json db;
  }

  abbrev row_of : ℕ → ℕ → ℕ → Bytes → ValidatorsRow
  row_of epoch_height start end value = record {
    epoch_height = epoch_height;
    epoch_start_height = start;
    epoch_end_height = end;
    validators_info = value;
  }

  save_lem :
      (db : MetaDb) (id end_hash : CryptoHash) (epoch_height start end : ℕ)
      (info : EpochValidatorInfo) (value : Bytes)
      → Executes db
      → json.to_value info ≡ ok value
      → lookup end_hash db.blocks ≡ some end
      → lookup id db.validators ≡ none
      → save_validators json id epoch_height start info end_hash db ≡ (
        ok tt,
        record db { validators = insert id (row_of epoch_height start end value) db.validators },
      )
  unfolding save_validators get_block_height_by_hash
  save_lem db id end_hash epoch_height start end info value executes encoded ended new =
      rw (executes 1, ended, encoded)
        (ap
            (committed
              (λ db. record db {
                validators = insert_new id (row_of epoch_height start end value) db.validators;
              })
              db)
            (executes 5)
          ∙ ap (λ (t : HashMap CryptoHash ValidatorsRow). (ok tt, record db { validators = t }))
              (insert_new_lem id (row_of epoch_height start end value) db.validators new))

  abbrev answered : CryptoHash → ℕ → EpochValidatorInfo → EpochValidatorsInfo
  answered id epoch_height info = record {
    epoch_id = id;
    epoch_height = epoch_height;
    epoch_start_height = info.epoch_start_height;
    validators_info = info;
  }

  -- What is read of a database with the row of an epoch.
  reads :
      (db : MetaDb) (id : CryptoHash) (epoch_height start end : ℕ) (info : EpochValidatorInfo)
      (value : Bytes)
      → Executes db
      → json.from_value value ≡ ok info
      → lookup id db.validators ≡ some (row_of epoch_height start end value)
      → find_epoch_end end db.validators ≡ some (id, row_of epoch_height start end value)
      → (get_validators_by_epoch_id json db id ≡ ok (answered id epoch_height info))
        × (get_validators_by_end_block_height json db end ≡ ok (answered id epoch_height info))
  unfolding get_validators_by_epoch_id get_validators_by_end_block_height
  reads db id epoch_height start end info value executes read by_id by_end =
      (rw (executes 1, by_id, read) refl, rw (executes 1, by_end, read) refl)

  module _ (l : LruCrate ℕ CacheBlock) (size_of_val : CacheBlock → ℕ) (sources : Sources)
      {Ordered : Type 0} (node : Node Ordered) (epoch_length : ℕ) where
    -- When the validators of an epoch are saved with the hash of the epoch's last block in a
    -- database that executes every command, this succeeds, and the server then answers them: for
    -- the epoch, if it is not that of the final block, and for the last block, if the server finds
    -- it. The last block is stored, and neither that epoch nor one that ends at that height was.
    pub save_validators-answered :
        (db : MetaDb) (id end_hash : CryptoHash) (epoch_height start end : ℕ)
        (info : EpochValidatorInfo) (value : Bytes) (context : ServerContext l size_of_val)
        (last : BlockId) (block : CacheBlock)
        → Executes db
        → json.to_value info ≡ ok value
        → lookup end_hash db.blocks ≡ some end
        → lookup id db.validators ≡ none
        → find_epoch_end end db.validators ≡ none
        → (final_cache_block context.server.blocks_info).epoch_id ≢ id
        → (fetch_block_from_cache_or_get l size_of_val sources (block_id last) context).0 ≡ ok block
        → block.block_height ≡ end
        → let after = save_validators json id epoch_height start info end_hash db in
          let answers =
            validators l size_of_val sources (epochs after.1) node epoch_length context in
          (after.0 ≡ ok tt)
          × ((answers (of_epoch id)).0 ≡ ok (inr info))
          × ((answers (of_block last)).0 ≡ ok (inr info))
    unfolding validators validators_call
    save_validators-answered db id end_hash epoch_height start end info value context last block
          executes encoded ended new no_end past found at =
        let row = row_of epoch_height start end value in
        let read = json.from_value-to_value info value encoded in
        let saved =
          save_lem db id end_hash epoch_height start end info value executes encoded ended new in
        let by_id : lookup id (insert id row db.validators) ≡ some row =
          ground (arith, lookup-insert id id row db.validators) in
        let by_end : find_epoch_end end (insert id row db.validators) ≡ some (id, row) =
          find_epoch_end-insert end id row db.validators new ∙ ground (arith, no_end) in
        let (epoch_read, end_read) =
          reads (record db { validators = insert id row db.validators }) id epoch_height start end
            info value executes read by_id by_end in
        rw saved (refl, ground (arith, past, epoch_read), rw (found, at, end_read) refl)
