-- ===== src/Tests/Server.antt =====
-- rpc-server/src/utils.rs and modules/blocks: a server that follows a short chain, and what it serves.
use mathlib.Core.Path.{subst}
use read_rpc.Prelude.{
  ℕ, ◌≡◌, ◌≤◌, refl, false, List, [], ◌∷◌, leb, codes, arith, get_or, All, map, some, ℕ_eq,
  ℕ_discrete, text_eq,
}
use read_rpc.Prelude.Exec.{each}
use read_rpc.Prelude.HashMap.{lookup}
use read_rpc.Prelude.Outcome.{ok, err}
use read_rpc.Views.{
  BlockView, StreamerMessage, EpochValidatorInfo, StateChangeWithCauseView, data_update,
  data_deletion, Finality, block_id, height, finality,
}
use read_rpc.Lru.{LruMemoryCache, get}
use read_rpc.Lru.Size.{IsSized}
use read_rpc.Blocks.{
  CacheBlock, cache_block, new_from_block_view, new_from_streamer_message,
  changes_in_block_account_map,
}
use read_rpc.Blocks.Finality.{
  Fetched, optimistic_cache_block, fetch_latest, get_final_block, i64_try_from,
}
use read_rpc.Blocks.Follow.{
  Server, start, started, Round, from_lake, from_redis, optimistic, run, run_all, optimistic_round,
  LakeStream, update_final_block_regularly_from_lake,
}
use read_rpc.Blocks.Moves.{IsFollowing}
use read_rpc.Blocks.Moves.Start.{start-IsFollowing}
use read_rpc.Blocks.Followed.{
  run_all-IsFollowing, run_all-heights, optimistic_round-working, Answered,
}
use read_rpc.Blocks.Tasks.{each-run, lake_round, update_final_block_regularly_from_lake-ends}
use read_rpc.Blocks.Fetch.{
  block_in_memory, block_at, Sources, ServerContext, check_block_height, fetch_block,
  fetch_block_from_cache_or_get,
}
use read_rpc.Blocks.Served.{
  IsKeyed, fetch_block_from_cache_or_get-height, fetch_block_from_cache_or_get-IsKeyed,
  fetch_block-finality,
}
use read_rpc.Tests.Crate.{crate}
use read_rpc.Tests.Fixtures.{alice, header, shard_with}

abbrev pub size : CacheBlock → ℕ
size b = 1

abbrev pub view : ℕ → BlockView
view h = record { header = header h; chunks = [] }

abbrev pub epoch : EpochValidatorInfo
epoch = record { epoch_height = 1; epoch_start_height = 1; current_validators = [] }

abbrev pub changed : List StateChangeWithCauseView
changed =
    record { cause = 0; value = data_update alice (1 ∷ 2 ∷ []) (9 ∷ []) }
    ∷ record { cause = 0; value = data_deletion alice (1 ∷ 2 ∷ []) }
    ∷ []

abbrev pub message : ℕ → StreamerMessage
message h = record { block = view h; shards = shard_with [] [] changed ∷ [] }

abbrev empty : LruMemoryCache crate size
empty = record { inner = record { items = []; cap = 10 }; current_size = 0; max_size = 5 }

abbrev latest : Fetched
latest = record { final_block = view 5; optimistic_block = view 6; validators = epoch }

abbrev server : Server crate size
server = started crate size 70 empty latest

server_starts : start crate size (ok (view 5)) (ok (view 6)) (ok epoch) 70 empty ≡ ok server
unfolding start fetch_latest get_final_block i64_try_from
server_starts = refl

server-IsFollowing : IsFollowing crate size server
server-IsFollowing =
    start-IsFollowing crate size (ok (view 5)) (ok (view 6)) (ok epoch) 70 empty server
      server_starts

abbrev rounds : List (Round crate size)
rounds =
    optimistic (ok (message 8))
    ∷ from_lake (ok epoch) (message 6)
    ∷ from_redis (ok 71) (ok (message 7)) (err (codes "no answer"))
    ∷ optimistic (err (codes "no answer"))
    ∷ []

run_all-IsFollowing_example : IsFollowing crate size (run_all crate size rounds server)
run_all-IsFollowing_example =
    run_all-IsFollowing crate size (ok (view 5)) (ok (view 6)) (ok epoch) 70 empty server rounds
      server_starts (omega arith, (omega arith, (omega arith, (tt, tt))))

run_all-heights_example :
    (server.blocks_info.final_block.block_cache.block_height
      ≤ (run_all crate size rounds server).blocks_info.final_block.block_cache.block_height)
    × (server.blocks_info.optimistic_block.block_cache.block_height
        ≤ (run_all crate size rounds server).blocks_info.optimistic_block.block_cache.block_height)
run_all-heights_example =
    run_all-heights crate size server rounds server-IsFollowing
      (omega arith, (omega arith, (omega arith, (tt, tt))))

optimistic_round-working_example :
    (optimistic_round crate size (ok (message 8)) server).1.is_not_working ≡ (
      let info = (optimistic_round crate size (ok (message 8)) server).1.blocks_info in
      leb info.optimistic_block.block_cache.block_height info.final_block.block_cache.block_height)
optimistic_round-working_example =
    optimistic_round-working crate size (ok (message 8)) server server-IsFollowing (omega arith) tt

each-run_example : each rounds (run crate size) server ≡ (ok tt, run_all crate size rounds server)
each-run_example =
    each-run crate size rounds server server-IsFollowing
      (omega arith, (omega arith, (omega arith, (tt, tt)))) (tt, (tt, ((tt, tt, tt), (tt, tt))))

-- A stream of a block of the epoch and of one whose epoch the node cannot answer, whose sender fails.
abbrev stream : LakeStream
stream = record {
  messages = (ok epoch, message 6) ∷ (err (codes "no answer"), message 7) ∷ [];
  sender = err (codes "no access");
  join_error = λ p. p;
}

stream_replies :
    (s : LakeStream) → some stream ≡ some s → All (λ message. Answered message.0) s.messages
stream_replies s same =
    subst (λ o. All (λ message. Answered message.0) (get_or o stream).messages) same (tt, (tt, tt))

update_final_block_regularly_from_lake-ends_example :
    update_final_block_regularly_from_lake crate size (λ height. some stream) server ≡ (
      err (codes "no access"),
      run_all crate size (map (lake_round crate size) stream.messages) server,
    )
update_final_block_regularly_from_lake-ends_example =
    update_final_block_regularly_from_lake-ends crate size (λ height. some stream) server
      stream_replies

-- A server after block 8, with a block in its cache.
abbrev pub cached : LruMemoryCache crate size
cached = record {
  inner = record { items = (3, cache_block (view 3)) ∷ []; cap = 10 };
  current_size = 1;
  max_size = 5;
}

abbrev pub later : Server crate size
later = record {
  blocks_info = record {
    final_block = new_from_block_view (view 5);
    optimistic_block = new_from_streamer_message (message 8);
    optimistic_changes = changes_in_block_account_map (new_from_streamer_message (message 8));
    current_validators = epoch;
    current_protocol_version = 70;
  };
  blocks_cache = cached;
  latest_final = 5;
  latest_optimistic = 8;
  is_not_working = false;
  seen_protocol_version = 70;
}

pub later-IsFollowing : IsFollowing crate size later
unfolding new_from_block_view new_from_streamer_message cache_block
later-IsFollowing = record {
  final = record { header = refl; shown = refl; signed = omega arith };
  optimistic = record { header = refl; shown = refl; signed = omega arith };
  changes = refl;
}

abbrev pub context : ServerContext crate size
context = record { server = later; genesis_block_cache = cache_block (view 1) }

abbrev pub sources : Sources
sources = record {
  get_block_height_by_hash = λ h. err (codes "unknown hash");
  get_block_by_height_and_shard_id = λ h id. err (codes "unknown chunk");
  get_block_by_chunk_hash = λ h. err (codes "unknown chunk");
  fetch_block = λ h. ok (view h);
  fetch_shard = λ h id. ok (shard_with [] [] changed);
  debug_hash = λ h. codes "hash";
}

pub sources-IsByHeight :
    (h : ℕ) (v : BlockView) → sources.fetch_block h ≡ ok v → v.header.height ≡ h
sources-IsByHeight h v found = cc

pub cached-IsKeyed : IsKeyed crate size cached
unfolding get lookup cache_block
cached-IsKeyed h b found = ground arith

cached-IsSized : IsSized crate size cached
unfolding lookup
cached-IsSized = record {
  unique = (refl, tt);
  exact = refl;
  within = omega arith;
  roomy = omega arith;
  positive = omega arith;
}

-- Block 4 is not in memory.
pub fetch_4 :
    (fetch_block_from_cache_or_get crate size sources (block_id (height 4)) context).0
    ≡ ok (cache_block (view 4))
unfolding fetch_block_from_cache_or_get block_in_memory fetch_block block_at check_block_height get
    lookup new_from_block_view new_from_streamer_message cache_block ℕ_discrete
fetch_4 = refl

fetch_block_from_cache_or_get-height_example :
    ((cache_block (view 4)).block_height ≡ 4)
    × (context.genesis_block_cache.block_height ≤ 4)
    × (4 ≤ (optimistic_cache_block context.server.blocks_info).block_height)
fetch_block_from_cache_or_get-height_example =
    fetch_block_from_cache_or_get-height crate size sources context 4 (cache_block (view 4))
      later-IsFollowing cached-IsKeyed sources-IsByHeight fetch_4

fetch_block_from_cache_or_get-IsKeyed_example :
    let after =
      (fetch_block_from_cache_or_get crate size sources (block_id (height 4)) context).1 in
    IsKeyed crate size after.server.blocks_cache × IsSized crate size after.server.blocks_cache
fetch_block_from_cache_or_get-IsKeyed_example =
    fetch_block_from_cache_or_get-IsKeyed crate size sources context (block_id (height 4))
      cached-IsSized (omega arith) (λ b. omega arith) cached-IsKeyed

fetch_optimistic : fetch_block crate size sources context (finality Finality.none) ≡ ok (view 8)
unfolding fetch_block new_from_streamer_message
fetch_optimistic = refl

fetch_block-finality_example :
    fetch_block_from_cache_or_get crate size sources (finality Finality.none) context
    ≡ (ok (cache_block (view 8)), context)
fetch_block-finality_example =
    fetch_block-finality crate size sources context Finality.none (view 8) later-IsFollowing
      fetch_optimistic
