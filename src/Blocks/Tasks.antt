-- ===== src/Blocks/Tasks.antt =====
-- rpc-server/src/utils.rs: how the tasks that follow the chain go on after errors, and how they end.
use read_rpc.Prelude.{ℕ, ◌≡◌, refl, Option, some, none, List, [], ◌∷◌, map, codes, arith, All, ℕ_eq}
use read_rpc.Prelude.Outcome.{Result, ok, err, panic}
use read_rpc.Prelude.Exec.{each}
use read_rpc.Views.{EpochValidatorInfo, StreamerMessage}
use read_rpc.Lru.{LruCrate}
use read_rpc.Blocks.{CacheBlock}
use read_rpc.Blocks.Finality.{i64_try_from, update_current_epoch_info, optimistic_cache_block}
use read_rpc.Blocks.Follow.{
  Server, check_epoch, take_final_block, handle_streamer_message, final_round_lake,
  check_protocol_version, final_round_redis, check_working, optimistic_round, Round, from_lake,
  from_redis, optimistic, run, run_all, LakeStream, lake_config, join_sender,
  update_final_block_regularly_from_lake,
}
use read_rpc.Blocks.Moves.{IsFollowing, HasWords}
use read_rpc.Blocks.Moves.Steps.{run-Moves}
use read_rpc.Blocks.Followed.{Answered, take_optimistic_block-ok}

module _ (l : LruCrate ℕ CacheBlock) (size_of_val : CacheBlock → ℕ) where
  final_round_lake-ok :
      (answer : Result EpochValidatorInfo) (message : StreamerMessage) (s : Server l size_of_val)
      → Answered answer
      → (final_round_lake l size_of_val answer message s).0 ≡ ok tt
  unfolding final_round_lake handle_streamer_message check_epoch take_final_block i64_try_from
      update_current_epoch_info
  final_round_lake-ok answer message s answered = ground arith

  check_protocol_version-ok :
      (version : ℕ) (s : Server l size_of_val)
      → (check_protocol_version l size_of_val version s).0 ≡ ok tt
  unfolding check_protocol_version
  check_protocol_version-ok version s = ground arith

  -- All the calls of a round come back.
  abbrev pub IsAnswered : Round l size_of_val → Type 0
  IsAnswered (from_lake answer message) = Answered answer
  IsAnswered (from_redis version message answer) =
      Answered version × Answered message × Answered answer
  IsAnswered (optimistic message) = Answered message

  run-ok :
      (r : Round l size_of_val) (s : Server l size_of_val)
      → IsFollowing l size_of_val s
      → HasWords l size_of_val r
      → IsAnswered r
      → (run l size_of_val r s).0 ≡ ok tt
  unfolding run final_round_redis optimistic_round check_working
  run-ok (from_lake answer message) s h word answered =
      final_round_lake-ok answer message s answered
  run-ok (from_redis (ok v) (ok m) answer) s h word answered =
      rw (check_protocol_version-ok v s, final_round_redis)
        (final_round_lake-ok answer m (check_protocol_version l size_of_val v s).1 answered.2)
  run-ok (from_redis (ok v) (err e) answer) s h word answered =
      rw (check_protocol_version-ok v s, final_round_redis) refl
  run-ok (from_redis (err e) (ok m) answer) s h word answered =
      final_round_lake-ok answer m s answered.2
  run-ok (from_redis (err e) (err e') answer) s h word answered = refl
  run-ok (from_redis (panic p) _ answer) s h word answered = elim answered.0 [ ]
  run-ok (from_redis _ (panic p) answer) s h word answered = elim answered.1 [ ]
  run-ok (optimistic (ok m)) s h word answered =
      rw (take_optimistic_block-ok l size_of_val m s h word, optimistic_round) refl
  run-ok (optimistic (err e)) s h word answered = refl
  run-ok (optimistic (panic p)) s h word answered = elim answered [ ]

  -- Where rounds of the tasks run one after another, in any order, and the first that fails would be
  -- the last, all of them run, whatever errors the calls outside answer in them: the sequence succeeds
  -- and leaves the state that the rounds leave if their results are ignored. None of the calls panics,
  -- the server meets the invariant before, and heights are 64-bit words.
  pub each-run :
      (rs : List (Round l size_of_val)) (s : Server l size_of_val)
      → IsFollowing l size_of_val s
      → All (HasWords l size_of_val) rs
      → All IsAnswered rs
      → each rs (run l size_of_val) s ≡ (ok tt, run_all l size_of_val rs s)
  unfolding each run_all
  each-run [] s h words answered = refl
  each-run (r ∷ rs) s h words answered =
      let s' = (run l size_of_val r s).1 in
      rw (run-ok r s h words.0 answered.0, each)
        (each-run rs s' (run-Moves l size_of_val r s h words.0).following words.1 answered.1)

  abbrev pub lake_round : Result EpochValidatorInfo × StreamerMessage → Round l size_of_val
  lake_round message = from_lake message.0 message.1

  each-lake_round :
      (messages : List (Result EpochValidatorInfo × StreamerMessage)) (s : Server l size_of_val)
      → All (λ message. Answered message.0) messages
      → each messages (λ message. final_round_lake l size_of_val message.0 message.1) s
        ≡ (ok tt, run_all l size_of_val (map lake_round messages) s)
  unfolding each run_all run
  each-lake_round [] s answered = refl
  each-lake_round (m ∷ messages) s answered =
      rw (final_round_lake-ok m.0 m.1 s answered.0, each)
        (each-lake_round messages (final_round_lake l size_of_val m.0 m.1 s).1 answered.1)

  -- The task that takes final blocks from the lake panics at once, before it changes anything, if the
  -- configuration of the lake cannot be built. Otherwise it handles every message of the stream that
  -- starts at the height of the optimistic block, whatever the node answers but for panics, and then
  -- ends as the sender of the stream does, with its error, or the error that a panic of it becomes.
  pub update_final_block_regularly_from_lake-ends :
      (build : ℕ → Option LakeStream) (s : Server l size_of_val)
      → ((stream : LakeStream)
          → build (optimistic_cache_block s.blocks_info).block_height ≡ some stream
          → All (λ message. Answered message.0) stream.messages)
      → update_final_block_regularly_from_lake l size_of_val build s
        ≡ elim (build (optimistic_cache_block s.blocks_info).block_height) [
          | none ↦ (panic (codes "Failed to build LakeConfig"), s)
          | some stream ↦ (
            elim stream.sender [
              | ok _ ↦ ok tt
              | err e ↦ err e
              | panic p ↦ err (stream.join_error p)
            ],
            run_all l size_of_val (map lake_round stream.messages) s,
          )
        ]
  unfolding update_final_block_regularly_from_lake lake_config join_sender
  update_final_block_regularly_from_lake-ends build s answered =
      by_stream (build (optimistic_cache_block s.blocks_info).block_height) refl
    where
      by_stream :
          (found : Option LakeStream)
          → build (optimistic_cache_block s.blocks_info).block_height ≡ found
          → update_final_block_regularly_from_lake l size_of_val build s ≡ elim found [
            | none ↦ (panic (codes "Failed to build LakeConfig"), s)
            | some stream ↦ (
              elim stream.sender [
                | ok _ ↦ ok tt
                | err e ↦ err e
                | panic p ↦ err (stream.join_error p)
              ],
              run_all l size_of_val (map lake_round stream.messages) s,
            )
          ]
      by_stream none e = rw e refl
      by_stream (some stream) e = rw (e, each-lake_round stream.messages s (answered stream e)) refl
