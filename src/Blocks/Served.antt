-- ===== src/Blocks/Served.antt =====
-- rpc-server/src/modules/blocks/utils.rs: which block a request is answered with.
use mathlib.Core.Path.{subst}
use read_rpc.Prelude.{
  ℕ, ◌+◌, ◌^◌, ◌≡◌, ◌≤◌, ◌<◌, ◌↔◌, refl, Option, none, some, Bytes, if◌then◌else◌, ℕ_eq, text_eq,
  u64_mod, arith, ap, sym, ◌∙◌,
}
use read_rpc.Prelude.HashMap.{lookup}
use read_rpc.Prelude.Outcome.{Result, ok, err, panic, ok-injective}
use read_rpc.Views.{AccountId, BlockView, Finality, height, BlockReference, block_id, finality}
use read_rpc.Lru.{LruCrate, LruMemoryCache, put, get}
use read_rpc.Lru.Size.{IsSized}
use read_rpc.Lru.Reads.{put-IsSized, get-put_ne, get-put_same}
use read_rpc.Blocks.{CacheBlock, cache_block, starts_with, changes_in_block_account_map}
use read_rpc.Blocks.Finality.{
  optimistic_cache_block, optimistic_block_changes, optimistic_state_changes_in_block,
}
use read_rpc.Blocks.Follow.{Server}
use read_rpc.Blocks.Moves.{IsFollowing}
use read_rpc.Blocks.Latest.{last_about, data_value, state_changes_last}
use read_rpc.Blocks.Fetch.{
  get_and_keep, Sources, ServerContext, check_block_height, block_at, fetch_block, block_in_memory,
  fetch_block_from_cache_or_get,
}

module _ (l : LruCrate ℕ CacheBlock) (size_of_val : CacheBlock → ℕ) where
  -- For every server that meets the invariant, the state changes that are read of the optimistic
  -- block hold under each key with the prefix the last change of that block to that key of the
  -- account, absent if that change deletes it, and nothing under any other key.
  pub optimistic_state_changes_last :
      (s : Server l size_of_val) (id : AccountId) (prefix key : Bytes)
      → IsFollowing l size_of_val s
      → lookup key (optimistic_state_changes_in_block s.blocks_info id prefix) ≡ (
          if starts_with prefix key
          then last_about (data_value key) id (optimistic_block_changes s.blocks_info)
          else none)
  unfolding changes_in_block_account_map
  optimistic_state_changes_last s id prefix key h =
      rw h.changes (state_changes_last (optimistic_block_changes s.blocks_info) id prefix key)

  -- A height is let through exactly if it is neither below the genesis block nor above the
  -- optimistic block.
  pub check_block_height-range :
      (context : ServerContext l size_of_val) (block_height : ℕ)
      → (check_block_height l size_of_val context block_height ≡ ok tt) ↔ (
          (context.genesis_block_cache.block_height ≤ block_height)
          × (block_height ≤ (optimistic_cache_block context.server.blocks_info).block_height))
  unfolding check_block_height
  check_block_height-range context block_height =
      (λ h. (ground arith, ground arith), λ h. ground arith)

  -- Every block in the cache of blocks stands under its own height.
  abbrev pub IsKeyed : LruMemoryCache l size_of_val → Type 0
  IsKeyed c = (h : ℕ) (b : CacheBlock) → get l size_of_val h c ≡ some b → b.block_height ≡ h

  -- S3 answers with a block of the height that it is asked for.
  abbrev pub IsByHeight : Sources → Type 0
  IsByHeight sources =
      (h : ℕ) (view : BlockView) → sources.fetch_block h ≡ ok view → view.header.height ≡ h

  block_at-height :
      (sources : Sources) (context : ServerContext l size_of_val) (h : ℕ) (view : BlockView)
      → IsFollowing l size_of_val context.server
      → IsByHeight sources
      → block_at l size_of_val sources context h ≡ ok view
      → view.header.height ≡ h
  unfolding block_at cache_block
  block_at-height sources context h view following by_height found = ground (
    arith,
    ap (λ (b : CacheBlock). b.block_height) following.final.header,
    ap (λ (b : CacheBlock). b.block_height) following.optimistic.header,
    by_height h view,
  )

  get_and_keep-height :
      (sources : Sources) (context : ServerContext l size_of_val) (h : ℕ) (b : CacheBlock)
      (r : Result BlockView)
      → ((view : BlockView) → r ≡ ok view → view.header.height ≡ h)
      → (get_and_keep l size_of_val sources r context).0 ≡ ok b
      → b.block_height ≡ h
  unfolding cache_block
  get_and_keep-height sources context h b (ok view) by_height found =
      ap (λ (c : CacheBlock). c.block_height) (sym (ok-injective found)) ∙ by_height view refl
  get_and_keep-height sources context h b (err e) by_height found = absurd cc
  get_and_keep-height sources context h b (panic p) by_height found = absurd cc

  -- A request by height that is answered is answered with the block of that height, which is
  -- neither below the genesis block nor above the optimistic block; the server meets its invariant,
  -- every block in the cache stands under its own height, and S3 answers by height.
  pub fetch_block_from_cache_or_get-height :
      (sources : Sources) (context : ServerContext l size_of_val) (h : ℕ) (b : CacheBlock)
      → IsFollowing l size_of_val context.server
      → IsKeyed context.server.blocks_cache
      → IsByHeight sources
      → (fetch_block_from_cache_or_get l size_of_val sources (block_id (height h)) context).0 ≡ ok b
      → (b.block_height ≡ h)
        × (context.genesis_block_cache.block_height ≤ h)
        × (h ≤ (optimistic_cache_block context.server.blocks_info).block_height)
  unfolding fetch_block_from_cache_or_get block_in_memory fetch_block check_block_height cache_block
  fetch_block_from_cache_or_get-height sources context h b following keyed by_height found =
      ground (
        arith,
        keyed h b,
        get_and_keep-height sources context h b (block_at l size_of_val sources context h)
            (λ view found. block_at-height sources context h view following by_height found),
      )

  put-IsKeyed :
      (h : ℕ) (block : CacheBlock) (c : LruMemoryCache l size_of_val)
      → block.block_height ≡ h
      → IsSized l size_of_val c
      → l.cap c.inner < 2 ^ 63
      → c.max_size + size_of_val block < u64_mod
      → IsKeyed c
      → IsKeyed (put l size_of_val h block c)
  put-IsKeyed h block c at_height sized small fits keyed j b found = elim (ℕ_eq.dec j h) [
    | yes same ↦
        ap (λ (b : CacheBlock). b.block_height)
          (get-put_same l size_of_val h block c sized small fits b
            (subst (λ j. get l size_of_val j (put l size_of_val h block c) ≡ some b) same found))
        ∙ at_height
        ∙ sym same
    | no other ↦ keyed j b (get-put_ne l size_of_val h block c sized small fits j b other found)
  ]

  -- A request, whatever it refers to and whatever it is answered, leaves every block of the cache
  -- under its own height and the cache within its bound, if that is so before, its capacity is
  -- below 2^63, and its bound with the size of a block is below 2^64.
  pub fetch_block_from_cache_or_get-IsKeyed :
      (sources : Sources) (context : ServerContext l size_of_val) (r : BlockReference)
      → IsSized l size_of_val context.server.blocks_cache
      → l.cap context.server.blocks_cache.inner < 2 ^ 63
      → ((b : CacheBlock) → context.server.blocks_cache.max_size + size_of_val b < u64_mod)
      → IsKeyed context.server.blocks_cache
      → let after = (fetch_block_from_cache_or_get l size_of_val sources r context).1 in
        IsKeyed after.server.blocks_cache × IsSized l size_of_val after.server.blocks_cache
  unfolding fetch_block_from_cache_or_get
  fetch_block_from_cache_or_get-IsKeyed sources context r sized small fits keyed =
      by_memory (block_in_memory l size_of_val sources context r)
    where
      Good : Result CacheBlock × ServerContext l size_of_val → Type 0
      Good (_, after) =
          IsKeyed after.server.blocks_cache × IsSized l size_of_val after.server.blocks_cache

      kept : (answer : Result BlockView) → Good (get_and_keep l size_of_val sources answer context)
      kept (ok view) =
          let block = cache_block view in
          let cache = context.server.blocks_cache in
          (
            put-IsKeyed block.block_height block cache refl sized small (fits block) keyed,
            put-IsSized l size_of_val block.block_height block cache sized small (fits block),
          )
      kept (err e) = (keyed, sized)
      kept (panic p) = (keyed, sized)

      by_memory :
          (m : Result (Option CacheBlock))
          → Good (elim m [
            | ok (some block) ↦ (ok block, context)
            | ok none ↦
                get_and_keep l size_of_val sources
                  (fetch_block l size_of_val sources context r)
                  context
            | err e ↦ (err e, context)
            | panic p ↦ (panic p, context)
          ])
      by_memory (ok (some block)) = (keyed, sized)
      by_memory (ok none) = kept (fetch_block l size_of_val sources context r)
      by_memory (err e) = (keyed, sized)
      by_memory (panic p) = (keyed, sized)

  -- For a request by finality that `fetch_block` answers, the answer from memory is the header of
  -- the same block, and nothing is fetched or cached. The server meets its invariant.
  pub fetch_block-finality :
      (sources : Sources) (context : ServerContext l size_of_val) (f : Finality) (view : BlockView)
      → IsFollowing l size_of_val context.server
      → fetch_block l size_of_val sources context (finality f) ≡ ok view
      → fetch_block_from_cache_or_get l size_of_val sources (finality f) context
        ≡ (ok (cache_block view), context)
  unfolding fetch_block_from_cache_or_get block_in_memory fetch_block
  fetch_block-finality sources context Finality.none view following found =
      ground (arith, following.optimistic.header, ap cache_block)
  fetch_block-finality sources context Finality.doom_slug view following found =
      ground (arith, following.final.header, ap cache_block)
  fetch_block-finality sources context Finality.final view following found =
      ground (arith, following.final.header, ap cache_block)
