-- ===== src/Blocks/Followed.antt =====
-- rpc-server/src/utils.rs: what holds of the server after any rounds of its two tasks, in any order.
use read_rpc.Prelude.{
  ℕ, ◌≡◌, ◌≤◌, ◌<◌, refl, inl, inr, List, leb, Bool-cases, ℕ_eq, u64_mod, arith, All,
}
use read_rpc.Prelude.Outcome.{Result, ok, err, panic}
use read_rpc.Views.{BlockView, EpochValidatorInfo, StreamerMessage}
use read_rpc.Lru.{LruCrate, LruMemoryCache}
use read_rpc.Blocks.{CacheBlock, cache_block, new_from_streamer_message}
use read_rpc.Blocks.Follow.{
  ltb_i64, leb_i64, Server, start, take_optimistic_block, check_working, optimistic_round, Round,
  optimistic, run_all,
}
use read_rpc.Blocks.Moves.{ltb_i64-lt, i64_try_from_ok, IsFollowing, HasWords}
use read_rpc.Blocks.Moves.Steps.{take_optimistic_block-Moves, run_all-Moves}
use read_rpc.Blocks.Moves.Start.{start-IsFollowing}

-- A call that comes back, with a value or an error.
abbrev pub Answered : {A : Type 0} → Result A → Type 0
Answered (panic p) = ⊥
Answered _ = Unit

module _ (l : LruCrate ℕ CacheBlock) (size_of_val : CacheBlock → ℕ) where
  -- Whatever rounds the two tasks run after a start that succeeds, in whatever order and with
  -- whatever answers, as long as heights are 64-bit words: both latest blocks are kept with their
  -- own headers, each gauge shows the height of its block, below 2^63, and the optimistic changes
  -- are those of the optimistic block.
  pub run_all-IsFollowing :
      (final_answer optimistic_answer : Result BlockView)
      (validators_answer : Result EpochValidatorInfo) (version : ℕ)
      (blocks_cache : LruMemoryCache l size_of_val) (s : Server l size_of_val)
      (rs : List (Round l size_of_val))
      → start l size_of_val final_answer optimistic_answer validators_answer version blocks_cache
        ≡ ok s
      → All (HasWords l size_of_val) rs
      → IsFollowing l size_of_val (run_all l size_of_val rs s)
  run_all-IsFollowing final_answer optimistic_answer validators_answer version blocks_cache s rs
        started_with words =
      (run_all-Moves l size_of_val rs s
        (start-IsFollowing l size_of_val final_answer optimistic_answer validators_answer version
          blocks_cache s started_with)
        words).following

  -- The heights of the latest final and of the latest optimistic block never go back, whatever
  -- rounds are run on a server that meets the invariant, as long as heights are 64-bit words.
  pub run_all-heights :
      (s : Server l size_of_val) (rs : List (Round l size_of_val))
      → IsFollowing l size_of_val s
      → All (HasWords l size_of_val) rs
      → (s.blocks_info.final_block.block_cache.block_height
          ≤ (run_all l size_of_val rs s).blocks_info.final_block.block_cache.block_height)
        × (s.blocks_info.optimistic_block.block_cache.block_height
            ≤ (run_all l size_of_val rs s).blocks_info.optimistic_block.block_cache.block_height)
  run_all-heights s rs h words =
      let moves = run_all-Moves l size_of_val rs s h words in
      let s' = run_all l size_of_val rs s in
      (
        omega (arith, h.final.shown, moves.following.final.shown, moves.final_up),
        omega (arith, h.optimistic.shown, moves.following.optimistic.shown, moves.optimistic_up),
      )

  check_working_flag :
      (s : Server l size_of_val)
      → IsFollowing l size_of_val s
      → (check_working l size_of_val s).1.is_not_working ≡ (
          let info = (check_working l size_of_val s).1.blocks_info in
          leb info.optimistic_block.block_cache.block_height
            info.final_block.block_cache.block_height)
  unfolding check_working ltb_i64 leb_i64
  check_working_flag s h = ground (
    arith,
    h.final.shown,
    h.final.signed,
    h.optimistic.shown,
    h.optimistic.signed,
    Bool-cases s.is_not_working,
  )

  pub take_optimistic_block-ok :
      (message : StreamerMessage) (s : Server l size_of_val)
      → IsFollowing l size_of_val s
      → message.block.header.height < u64_mod
      → (take_optimistic_block l size_of_val message s).0 ≡ ok tt
  unfolding take_optimistic_block new_from_streamer_message cache_block
  take_optimistic_block-ok message s h word =
      elim (Bool-cases (ltb_i64 s.latest_optimistic message.block.header.height)) [
        | inl passed ↦
            let (above, small) =
              ltb_i64-lt s.latest_optimistic message.block.header.height h.optimistic.signed word
                passed in
            rw (passed, i64_try_from_ok message.block.header.height small, take_optimistic_block)
              refl
        | inr old ↦ rw (old, take_optimistic_block) refl
      ]

  -- After a round of the optimistic task that the answer of Redis does not break off, the server
  -- says that the optimistic updating does not work exactly if the optimistic block is not ahead of
  -- the final one. The server meets the invariant before, and the block's height is a 64-bit word.
  pub optimistic_round-working :
      (message : Result StreamerMessage) (s : Server l size_of_val)
      → IsFollowing l size_of_val s
      → HasWords l size_of_val (optimistic message)
      → Answered message
      → (optimistic_round l size_of_val message s).1.is_not_working ≡ (
          let info = (optimistic_round l size_of_val message s).1.blocks_info in
          leb info.optimistic_block.block_cache.block_height
            info.final_block.block_cache.block_height)
  unfolding optimistic_round
  optimistic_round-working (ok m) s h word answered =
      let s' = (take_optimistic_block l size_of_val m s).1 in
      rw (take_optimistic_block-ok m s h word, optimistic_round)
        (check_working_flag s' (take_optimistic_block-Moves l size_of_val m s h word).following)
  optimistic_round-working (err e) s h word answered = check_working_flag s h
  optimistic_round-working (panic p) s h word answered = elim answered [ ]
