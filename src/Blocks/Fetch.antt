-- ===== src/Blocks/Fetch.antt =====
-- rpc-server/src/modules/blocks/utils.rs and methods.rs: the block that a request refers to, from
-- the latest blocks, the cache of blocks, the database and S3. `RpcBlockError` is here its one
-- variant that these functions make, `UnknownBlock`, with its message. Metrics are left out.
use read_rpc.Prelude.{ℕ, Option, none, some, ◌++◌, ◌==◌, Text, codes, ltb, if◌then◌else◌, ℕ_eq}
use read_rpc.Prelude.Decimal.{u64_to_string}
use read_rpc.Prelude.Outcome.{Result, ok, err, panic, ◌>>=◌, ◌>>◌}
use read_rpc.Prelude.Exec.{Exec}
use read_rpc.Views.{
  CryptoHash, ShardId, BlockView, IndexerShard, Finality, height, hash, BlockReference, block_id,
  finality, sync_checkpoint,
}
use read_rpc.Lru.{LruCrate, put, get}
use read_rpc.Blocks.{CacheBlock, cache_block}
use read_rpc.Blocks.Finality.{
  final_cache_block, final_block_view, optimistic_cache_block, optimistic_block_view,
}
use read_rpc.Blocks.Follow.{Server}

-- The database, S3 and the text that `{:?}` makes of a hash, as the server sees them.
pub record Sources : Type 0 where
  pub get_block_height_by_hash : CryptoHash → Result ℕ
  pub get_block_by_height_and_shard_id : ℕ → ShardId → Result (ℕ × ShardId)
  pub get_block_by_chunk_hash : CryptoHash → Result (ℕ × ShardId)
  pub fetch_block : ℕ → Result BlockView
  pub fetch_shard : ℕ → ShardId → Result IndexerShard
  pub debug_hash : CryptoHash → Text

module _ (l : LruCrate ℕ CacheBlock) (size_of_val : CacheBlock → ℕ) where
  -- `ServerContext`, as far as blocks are concerned.
  pub record ServerContext : Type 0 where
    pub server : Server l size_of_val
    pub genesis_block_cache : CacheBlock

  unfoldable pub check_block_height : ServerContext → ℕ → Result {0} Unit
  check_block_height context block_height =
      let optimistic = (optimistic_cache_block context.server.blocks_info).block_height in
      let genesis = context.genesis_block_cache.block_height in
      if ltb block_height genesis
      then err (
          codes "Requested block height "
          ++ u64_to_string block_height
          ++ codes " is to low, genesis block height is "
          ++ u64_to_string genesis)
      else if ltb optimistic block_height
      then err (
          codes "Requested block height "
          ++ u64_to_string block_height
          ++ codes " is to high, optimistic block height is "
          ++ u64_to_string optimistic)
      else ok tt

  -- `map_err` with a message of its own.
  abbrev pub or_error : {A : Type 0} → Text → Result A → Result A
  or_error e (ok a) = ok a
  or_error e (err _) = err e
  or_error e (panic p) = panic p

  module _ (sources : Sources) where
    unfoldable pub block_at : ServerContext → ℕ → Result BlockView
    block_at context block_height =
        let info = context.server.blocks_info in
        if block_height == (final_cache_block info).block_height
        then ok (final_block_view info)
        else if block_height == (optimistic_cache_block info).block_height
        then ok (optimistic_block_view info)
        else or_error (codes "BLOCK HEIGHT: " ++ u64_to_string block_height)
            (sources.fetch_block block_height)

    unfoldable pub fetch_block : ServerContext → BlockReference → Result BlockView
    fetch_block context (block_id (height block_height)) =
        check_block_height context block_height >> block_at context block_height
    fetch_block context (block_id (hash block_hash)) =
        or_error (codes "BLOCK: " ++ sources.debug_hash block_hash)
          (sources.get_block_height_by_hash block_hash)
        >>= block_at context
    fetch_block context (finality Finality.none) =
        if context.server.is_not_working
        then err (codes "Finality::None is not supported by read-rpc")
        else ok (optimistic_block_view context.server.blocks_info)
    fetch_block context (finality Finality.final) = ok (final_block_view context.server.blocks_info)
    fetch_block context (finality Finality.doom_slug) =
        ok (final_block_view context.server.blocks_info)
    fetch_block context (sync_checkpoint _) =
        block_at context context.genesis_block_cache.block_height

    -- What `fetch_block_from_cache_or_get` finds without fetching a block.
    unfoldable pub block_in_memory : ServerContext → BlockReference → Result (Option CacheBlock)
    block_in_memory context (block_id (height block_height)) = do
      check_block_height context block_height
      ok (get l size_of_val block_height context.server.blocks_cache)
    block_in_memory context (block_id (hash block_hash)) = do
      block_height ← sources.get_block_height_by_hash block_hash
      ok (get l size_of_val block_height context.server.blocks_cache)
    block_in_memory context (finality Finality.none) =
        if context.server.is_not_working
        then ok (some (final_cache_block context.server.blocks_info))
        else ok (some (optimistic_cache_block context.server.blocks_info))
    block_in_memory context (finality Finality.final) =
        ok (some (final_cache_block context.server.blocks_info))
    block_in_memory context (finality Finality.doom_slug) =
        ok (some (final_cache_block context.server.blocks_info))
    block_in_memory context (sync_checkpoint _) = ok (some context.genesis_block_cache)

    abbrev pub put_block : CacheBlock → ServerContext → ServerContext
    put_block block context = record context {
      server = record context.server {
        blocks_cache = put l size_of_val block.block_height block context.server.blocks_cache;
      };
    }

    -- The block that is not in memory is fetched and put into the cache of blocks.
    abbrev pub get_and_keep : Result BlockView → Exec ServerContext CacheBlock
    get_and_keep (ok view) context = (ok (cache_block view), put_block (cache_block view) context)
    get_and_keep (err e) context = (err e, context)
    get_and_keep (panic p) context = (panic p, context)

    unfoldable pub fetch_block_from_cache_or_get : BlockReference → Exec ServerContext CacheBlock
    fetch_block_from_cache_or_get block_reference context =
        elim (block_in_memory context block_reference) [
          | ok (some block) ↦ (ok block, context)
          | ok none ↦ get_and_keep (fetch_block context block_reference) context
          | err e ↦ (err e, context)
          | panic p ↦ (panic p, context)
        ]
