-- ===== src/Blocks/Moves/Steps.antt =====
-- rpc-server/src/utils.rs: what each step of the tasks that follow the chain does to the server.
use read_rpc.Prelude.{
  ℕ, ◌≡◌, ◌≤◌, ◌<◌, refl, inl, inr, List, [], ◌∷◌, ◌==◌, Bool-cases, ℕ_eq, u64_mod, arith, All,
}
use read_rpc.Prelude.Outcome.{Result, ok, err, panic}
use read_rpc.Prelude.Exec.{lift, pure, if_ok, ◌>>◌}
use read_rpc.Views.{EpochValidatorInfo, StreamerMessage}
use read_rpc.Lru.{LruCrate}
use read_rpc.Blocks.{CacheBlock, cache_block, new_from_streamer_message}
use read_rpc.Blocks.Finality.{
  i64_mod, update_final_block, update_optimistic_block, update_current_epoch_info,
  update_current_protocol_version, final_cache_block,
}
use read_rpc.Blocks.Follow.{
  ltb_i64, Server, check_epoch, take_final_block, handle_streamer_message, final_round_lake,
  check_protocol_version, final_round_redis, take_optimistic_block, check_working, optimistic_round,
  Round, from_lake, from_redis, optimistic, run, run_all,
}
use read_rpc.Blocks.Moves.{
  ltb_i64-lt, i64_try_from_ok, message-IsLatest, IsFollowing, Moves, Moves-trans, Moves-stay,
  Moves-continue, Moves-on_ok, HasWords,
}

module _ (l : LruCrate ℕ CacheBlock) (size_of_val : CacheBlock → ℕ) where
  check_epoch-Moves :
      (answer : Result EpochValidatorInfo) (block : CacheBlock) (s : Server l size_of_val)
      → IsFollowing l size_of_val s
      → Moves l size_of_val s (check_epoch l size_of_val answer block s).1
  unfolding check_epoch update_current_epoch_info
  check_epoch-Moves answer block s h =
      elim (Bool-cases ((final_cache_block s.blocks_info).epoch_id == block.epoch_id)) [
        | inl same ↦ rw (same, check_epoch) (Moves-stay l size_of_val s h)
        | inr new ↦ rw (new, check_epoch) (asked answer)
      ]
    where
      asked :
          (answer : Result EpochValidatorInfo)
          → Moves l size_of_val s
              (record s { blocks_info = (update_current_epoch_info answer s.blocks_info).1 })
      asked (ok v) = record {
        following = record { final = h.final; optimistic = h.optimistic; changes = h.changes };
        final_up = omega arith;
        optimistic_up = omega arith;
      }
      asked (err e) = Moves-stay l size_of_val s h
      asked (panic p) = Moves-stay l size_of_val s h

  latest_final-check_epoch :
      (answer : Result EpochValidatorInfo) (block : CacheBlock) (s : Server l size_of_val)
      → (check_epoch l size_of_val answer block s).1.latest_final ≡ s.latest_final
  unfolding check_epoch
  latest_final-check_epoch answer block s = ground arith

  take_final_block-Moves :
      (message : StreamerMessage) (s : Server l size_of_val)
      → IsFollowing l size_of_val s
      → s.latest_final ≤ message.block.header.height
      → message.block.header.height < i64_mod
      → Moves l size_of_val s
          (take_final_block l size_of_val (new_from_streamer_message message) s).1
  unfolding take_final_block update_final_block new_from_streamer_message cache_block
  take_final_block-Moves message s h up small =
      rw (i64_try_from_ok message.block.header.height small, take_final_block)
        (record {
          following = record {
            final = message-IsLatest message small;
            optimistic = h.optimistic;
            changes = h.changes;
          };
          final_up = up;
          optimistic_up = omega arith;
        })

  handle_streamer_message-Moves :
      (answer : Result EpochValidatorInfo) (message : StreamerMessage) (s : Server l size_of_val)
      → IsFollowing l size_of_val s
      → message.block.header.height < u64_mod
      → Moves l size_of_val s (handle_streamer_message l size_of_val answer message s).1
  unfolding handle_streamer_message new_from_streamer_message cache_block
  handle_streamer_message-Moves answer message s h word =
      elim (Bool-cases (ltb_i64 s.latest_final message.block.header.height)) [
        | inl passed ↦
            let (above, small) =
              ltb_i64-lt s.latest_final message.block.header.height h.final.signed word passed in
            rw (passed, handle_streamer_message)
              (after (new_from_streamer_message message).block_cache above small)
        | inr old ↦ rw (old, handle_streamer_message) (Moves-stay l size_of_val s h)
      ]
    where
      after :
          (block : CacheBlock)
          → s.latest_final < message.block.header.height
          → message.block.header.height < i64_mod
          → Moves l size_of_val s
              ((check_epoch l size_of_val answer block
                  >> take_final_block l size_of_val (new_from_streamer_message message))
                s).1
      after block above small =
          let asked = check_epoch-Moves answer block s h in
          let (r, s') = check_epoch l size_of_val answer block s in
          Moves-continue l size_of_val r
            (λ _. take_final_block l size_of_val (new_from_streamer_message message)) asked
            (λ _.
              take_final_block-Moves message s' asked.following
                (omega (arith, above, latest_final-check_epoch answer block s)) small)

  final_round_lake-Moves :
      (answer : Result EpochValidatorInfo) (message : StreamerMessage) (s : Server l size_of_val)
      → IsFollowing l size_of_val s
      → message.block.header.height < u64_mod
      → Moves l size_of_val s (final_round_lake l size_of_val answer message s).1
  unfolding final_round_lake
  final_round_lake-Moves answer message s h word =
      let (r, s') = handle_streamer_message l size_of_val answer message s in
      let handled = handle_streamer_message-Moves answer message s h word in
      Moves-on_ok l size_of_val r (λ _. pure tt) handled
        (λ _. Moves-stay l size_of_val s' handled.following)

  check_protocol_version-Moves :
      (version : ℕ) (s : Server l size_of_val)
      → IsFollowing l size_of_val s
      → Moves l size_of_val s (check_protocol_version l size_of_val version s).1
  unfolding check_protocol_version update_current_protocol_version
  check_protocol_version-Moves version s h =
      elim (Bool-cases (version == s.seen_protocol_version)) [
        | inl same ↦ rw (same, check_protocol_version) (Moves-stay l size_of_val s h)
        | inr new ↦
            rw (new, check_protocol_version)
              (record {
                following = record {
                  final = h.final;
                  optimistic = h.optimistic;
                  changes = h.changes;
                };
                final_up = omega arith;
                optimistic_up = omega arith;
              })
      ]

  pub take_optimistic_block-Moves :
      (message : StreamerMessage) (s : Server l size_of_val)
      → IsFollowing l size_of_val s
      → message.block.header.height < u64_mod
      → Moves l size_of_val s (take_optimistic_block l size_of_val message s).1
  unfolding take_optimistic_block update_optimistic_block new_from_streamer_message cache_block
  take_optimistic_block-Moves message s h word =
      elim (Bool-cases (ltb_i64 s.latest_optimistic message.block.header.height)) [
        | inl passed ↦
            let (above, small) =
              ltb_i64-lt s.latest_optimistic message.block.header.height h.optimistic.signed word
                passed in
            rw (passed, i64_try_from_ok message.block.header.height small, take_optimistic_block)
              (record {
                following = record {
                  final = h.final;
                  optimistic = message-IsLatest message small;
                  changes = refl;
                };
                final_up = omega arith;
                optimistic_up = omega arith;
              })
        | inr old ↦ rw (old, take_optimistic_block) (Moves-stay l size_of_val s h)
      ]

  check_working-Moves :
      (s : Server l size_of_val)
      → IsFollowing l size_of_val s
      → Moves l size_of_val s (check_working l size_of_val s).1
  unfolding check_working
  check_working-Moves s h = record {
    following = record { final = h.final; optimistic = h.optimistic; changes = h.changes };
    final_up = omega arith;
    optimistic_up = omega arith;
  }

  final_round_redis-Moves :
      (version : Result ℕ) (message : Result StreamerMessage) (answer : Result EpochValidatorInfo)
      (s : Server l size_of_val)
      → IsFollowing l size_of_val s
      → HasWords l size_of_val (from_redis version message answer)
      → Moves l size_of_val s (final_round_redis l size_of_val version message answer s).1
  unfolding final_round_redis
  final_round_redis-Moves version message answer s h word =
      let (r, s') = if_ok (lift version) (check_protocol_version l size_of_val) (pure tt) s in
      let looked : Moves l size_of_val s s' =
        Moves-on_ok l size_of_val version (check_protocol_version l size_of_val)
          (Moves-stay l size_of_val s h) (λ v. check_protocol_version-Moves v s h) in
      Moves-continue l size_of_val r
        (λ _. if_ok (lift message) (final_round_lake l size_of_val answer) (pure tt)) looked
        (λ _. block message s' looked.following word)
    where
      block :
          (message : Result StreamerMessage) (s : Server l size_of_val)
          → IsFollowing l size_of_val s
          → HasWords l size_of_val (from_redis version message answer)
          → Moves l size_of_val s
              (if_ok (lift message) (final_round_lake l size_of_val answer) (pure tt) s).1
      block (ok m) s h word = final_round_lake-Moves answer m s h word
      block (err e) s h word = Moves-stay l size_of_val s h
      block (panic p) s h word = Moves-stay l size_of_val s h

  optimistic_round-Moves :
      (message : Result StreamerMessage) (s : Server l size_of_val)
      → IsFollowing l size_of_val s
      → HasWords l size_of_val (optimistic message)
      → Moves l size_of_val s (optimistic_round l size_of_val message s).1
  unfolding optimistic_round
  optimistic_round-Moves (ok m) s h word =
      let (r, s') = take_optimistic_block l size_of_val m s in
      let taken = take_optimistic_block-Moves m s h word in
      Moves-continue l size_of_val r (λ _. check_working l size_of_val) taken
        (λ _. check_working-Moves s' taken.following)
  optimistic_round-Moves (err e) s h word = check_working-Moves s h
  optimistic_round-Moves (panic p) s h word = Moves-stay l size_of_val s h

  pub run-Moves :
      (r : Round l size_of_val) (s : Server l size_of_val)
      → IsFollowing l size_of_val s
      → HasWords l size_of_val r
      → Moves l size_of_val s (run l size_of_val r s).1
  unfolding run
  run-Moves (from_lake answer message) s h word = final_round_lake-Moves answer message s h word
  run-Moves (from_redis version message answer) s h word =
      final_round_redis-Moves version message answer s h word
  run-Moves (optimistic message) s h word = optimistic_round-Moves message s h word

  pub run_all-Moves :
      (rs : List (Round l size_of_val)) (s : Server l size_of_val)
      → IsFollowing l size_of_val s
      → All (HasWords l size_of_val) rs
      → Moves l size_of_val s (run_all l size_of_val rs s)
  unfolding run_all
  run_all-Moves [] s h words = Moves-stay l size_of_val s h
  run_all-Moves (r ∷ rs) s h words =
      let first = run-Moves r s h words.0 in
      Moves-trans l size_of_val first
        (run_all-Moves rs (run l size_of_val r s).1 first.following words.1)
