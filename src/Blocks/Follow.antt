-- ===== src/Blocks/Follow.antt =====
-- rpc-server/src/utils.rs: how the server follows the chain. Two tasks run for ever: one takes the
-- final blocks, from the lake or once a second from Redis, one the optimistic blocks. A round of a
-- task is one step; the tasks share no field that one writes in the middle of a round, but the
-- final height, which the optimistic task only reads. The gauges of the latest heights are part of
-- the state since the rounds read them; the other metrics are left out. An `i64` is its 64 bits.
use read_rpc.Prelude.{
  ℕ, ◌+◌, ◌%◌, Bool, true, false, not, ◌&&◌, List, [], ◌∷◌, ltb, leb, ◌==◌, if◌then◌else◌, codes,
  u64_mod, ℕ_eq, Option, Text,
}
use read_rpc.Prelude.Outcome.{Result, ok, err, panic, expect, to_option}
use read_rpc.Prelude.Exec.{Exec, pure, lift, gets, update, if_ok, each, ◌>>=◌, ◌>>◌}
use read_rpc.Views.{BlockView, EpochValidatorInfo, StreamerMessage}
use read_rpc.Lru.{LruCrate, LruMemoryCache, put}
use read_rpc.Blocks.{CacheBlock, cache_block, BlockInfo, new_from_streamer_message}
use read_rpc.Blocks.Finality.{
  BlocksInfoByFinality, Fetched, i64_mod, i64_try_from, new_blocks_info, fetch_latest,
  update_final_block, update_optimistic_block, update_current_epoch_info,
  update_current_protocol_version, final_cache_block, optimistic_cache_block,
}

-- `<` on signed words: the sign bit counts the other way round.
unfoldable pub ltb_i64 : ℕ → ℕ → Bool
ltb_i64 a b = ltb ((a + i64_mod) % u64_mod) ((b + i64_mod) % u64_mod)

unfoldable pub leb_i64 : ℕ → ℕ → Bool
leb_i64 a b = leb ((a + i64_mod) % u64_mod) ((b + i64_mod) % u64_mod)

-- What `near_lake_framework::streamer` gives for a configuration: the messages of the stream, each with
-- what the node answers if it is of a new epoch, how the task of the sender ends, and the text of the
-- `JoinError` that a panic of this task becomes.
pub record LakeStream : Type 0 where
  pub messages : List (Result EpochValidatorInfo × StreamerMessage)
  pub sender : Result (Unit {0})
  pub join_error : Text → Text

-- `build` is the builder of the framework.
unfoldable pub lake_config : (ℕ → Option LakeStream) → ℕ → Result LakeStream
lake_config build start_block_height =
    expect (build start_block_height) (codes "Failed to build LakeConfig")

unfoldable pub join_sender : LakeStream → Result (Unit {0})
join_sender stream = elim stream.sender [
  | ok _ ↦ ok tt
  | err e ↦ err e
  | panic p ↦ err (stream.join_error p)
]

module _ (l : LruCrate ℕ CacheBlock) (size_of_val : CacheBlock → ℕ) where
  -- `seen_protocol_version` is the local variable of the task that takes the final blocks.
  pub record Server : Type 0 where
    pub blocks_info : BlocksInfoByFinality
    pub blocks_cache : LruMemoryCache l size_of_val
    pub latest_final : ℕ
    pub latest_optimistic : ℕ
    pub is_not_working : Bool
    pub seen_protocol_version : ℕ

  unfoldable pub started : ℕ → LruMemoryCache l size_of_val → Fetched → Server
  started version blocks_cache f = record {
    blocks_info = new_blocks_info f.final_block f.optimistic_block f.validators version;
    blocks_cache =
        put l size_of_val f.final_block.header.height (cache_block f.final_block) blocks_cache;
    latest_final = f.final_block.header.height;
    latest_optimistic = f.optimistic_block.header.height;
    is_not_working = false;
    seen_protocol_version = version;
  }

  -- `BlocksInfoByFinality::new`, on the answers of the node: any error ends the program.
  unfoldable pub start :
      Result BlockView
      → Result BlockView
      → Result EpochValidatorInfo
      → ℕ
      → LruMemoryCache l size_of_val
      → Result Server
  start final_answer optimistic_answer validators_answer version blocks_cache =
      elim (fetch_latest final_answer optimistic_answer validators_answer) [
        | ok f ↦ ok (started version blocks_cache f)
        | err e ↦ panic (codes "Error to get final block info")
        | panic p ↦ panic p
      ]

  -- A method of the block infos, within the server.
  abbrev pub on_blocks_info : Exec BlocksInfoByFinality Unit → Exec Server Unit
  on_blocks_info m s = let (r, info) = m s.blocks_info in (r, record s { blocks_info = info })

  -- A new epoch is asked about first; if that fails, the block is not taken.
  unfoldable pub check_epoch : Result EpochValidatorInfo → CacheBlock → Exec Server Unit
  check_epoch answer block s =
      if (final_cache_block s.blocks_info).epoch_id == block.epoch_id
      then (ok tt, s)
      else on_blocks_info (update_current_epoch_info answer) s

  unfoldable pub take_final_block : BlockInfo → Exec Server Unit
  take_final_block block = do
    update λ s. record s {
      blocks_info = update_final_block block s.blocks_info;
      blocks_cache =
          put l size_of_val block.block_cache.block_height block.block_cache s.blocks_cache;
    }
    height ← lift (i64_try_from block.block_cache.block_height)
    update λ s. record s { latest_final = height }

  unfoldable pub handle_streamer_message :
      Result EpochValidatorInfo → StreamerMessage → Exec Server Unit
  handle_streamer_message answer message s =
      let block = new_from_streamer_message message in
      if ltb_i64 s.latest_final block.block_cache.block_height
      then (check_epoch answer block.block_cache >> take_final_block block) s
      else (ok tt, s)

  -- A round of the task that takes the final blocks from the lake: an error is only logged.
  unfoldable pub final_round_lake : Result EpochValidatorInfo → StreamerMessage → Exec Server Unit
  final_round_lake answer message =
      if_ok (handle_streamer_message answer message) (λ _. pure tt) (pure tt)

  -- `update_final_block_regularly_from_lake`: the stream starts at the height of the optimistic block.
  -- Its handlers run one after another, then the task ends as the sender of the stream does.
  unfoldable pub update_final_block_regularly_from_lake : (ℕ → Option LakeStream) → Exec Server Unit
  update_final_block_regularly_from_lake build = do
    height ← gets (λ s. (optimistic_cache_block s.blocks_info).block_height)
    stream ← lift (lake_config build height)
    each stream.messages (λ message. final_round_lake message.0 message.1)
    lift (join_sender stream)

  -- The part of a round that looks at the protocol version in Redis.
  unfoldable pub check_protocol_version : ℕ → Exec Server Unit
  check_protocol_version version s = if version == s.seen_protocol_version then (ok tt, s) else (
    ok tt,
    record s {
      blocks_info = update_current_protocol_version version s.blocks_info;
      seen_protocol_version = version;
    },
  )

  -- A round of the task that takes the final blocks from Redis: errors are only logged.
  unfoldable pub final_round_redis :
      Result ℕ → Result StreamerMessage → Result EpochValidatorInfo → Exec Server Unit
  final_round_redis version message answer =
      if_ok (lift version) check_protocol_version (pure tt)
      >> if_ok (lift message) (final_round_lake answer) (pure tt)

  unfoldable pub take_optimistic_block : StreamerMessage → Exec Server Unit
  take_optimistic_block message s =
      let block = new_from_streamer_message message in
      if ltb_i64 s.latest_optimistic block.block_cache.block_height
      then (do
        update λ s. record s { blocks_info = update_optimistic_block block s.blocks_info }
        height ← lift (
            expect (to_option (i64_try_from block.block_cache.block_height))
              (codes "Invalid optimistic block height"))
        update λ s. record s { latest_optimistic = height })
          s
      else (ok tt, s)

  -- `set_not_working` and `set_working`, under a test.
  abbrev pub set_if : Bool → Bool → Server → Server
  set_if test val s = record s { is_not_working = if test then val else s.is_not_working }

  -- The optimistic block is served only while it is ahead of the final one.
  unfoldable pub check_working : Exec Server Unit
  check_working = do
    update λ s. set_if (leb_i64 s.latest_optimistic s.latest_final && not s.is_not_working) true s
    update λ s. set_if (ltb_i64 s.latest_final s.latest_optimistic && s.is_not_working) false s

  -- A round of `update_optimistic_block_regularly`.
  unfoldable pub optimistic_round : Result StreamerMessage → Exec Server Unit
  optimistic_round message = if_ok (lift message) take_optimistic_block (pure tt) >> check_working

  -- The rounds of the tasks, in any order, with what came from outside.
  pub data Round : Type 0 where
    from_lake : Result EpochValidatorInfo → StreamerMessage → Round
    from_redis : Result ℕ → Result StreamerMessage → Result EpochValidatorInfo → Round
    optimistic : Result StreamerMessage → Round

  unfoldable pub run : Round → Exec Server Unit
  run (from_lake answer message) = final_round_lake answer message
  run (from_redis version message answer) = final_round_redis version message answer
  run (optimistic message) = optimistic_round message

  unfoldable pub run_all : List Round → Server → Server
  run_all [] s = s
  run_all (r ∷ rs) s = run_all rs (run r s).1
