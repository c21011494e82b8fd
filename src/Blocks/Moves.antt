-- ===== src/Blocks/Moves.antt =====
-- rpc-server/src/utils.rs: the invariant of the server that follows the chain, and what a step of a
-- task does to it, with one rule for each way to build a step.
pub mod Steps
pub mod Start
use read_rpc.Prelude.{
  ℕ, ◌≡◌, ◌≤◌, ◌<◌, refl, ◌⊎◌, inl, inr, Bool, true, false, List, [], ◌∷◌, ltb, leb, ◌==◌,
  Bool-cases, ℕ_eq, u64_mod, arith, All, ap, ◌^◌, ◌≢◌, Text,
}
use read_rpc.Prelude.Outcome.{Result, ok, err, panic}
use read_rpc.Prelude.Exec.{Exec, continue, lift, on_ok, pure, update, if_ok, ◌>>=◌, ◌>>◌}
use read_rpc.Views.{BlockView, EpochValidatorInfo, StreamerMessage}
use read_rpc.Lru.{LruCrate, LruMemoryCache}
use read_rpc.Blocks.{
  CacheBlock, cache_block, BlockInfo, new_from_streamer_message, new_from_block_view,
  changes_in_block_account_map, record_changes,
}
use read_rpc.Blocks.Finality.{
  BlocksInfoByFinality, Fetched, i64_mod, i64_try_from, get_final_block, fetch_latest,
  new_blocks_info, update_final_block, update_optimistic_block, update_current_epoch_info,
  update_current_protocol_version, final_cache_block,
}
use read_rpc.Blocks.Follow.{
  ltb_i64, leb_i64, Server, started, start, check_epoch, take_final_block, handle_streamer_message,
  final_round_lake, check_protocol_version, final_round_redis, take_optimistic_block, check_working,
  optimistic_round, Round, from_lake, from_redis, optimistic, run, run_all,
}

-- A signed comparison that a height passes says that it fits 63 bits and is above the other one.
pub ltb_i64-lt :
    (a h : ℕ) → a < i64_mod → h < u64_mod → ltb_i64 a h ≡ true → (a < h) × (h < i64_mod)
unfolding ltb_i64
ltb_i64-lt a h small word passed = (ground arith, ground arith)

pub i64_try_from_ok : (h : ℕ) → h < i64_mod → i64_try_from h ≡ ok h
unfolding i64_try_from
i64_try_from_ok h small = ground arith

-- A block is kept with its own header, and its height is the one that the gauge shows.
pub record IsLatest (block : BlockInfo) (height : ℕ) : Type 0 where
  pub header : block.block_cache ≡ cache_block block.block_view
  pub shown : height ≡ block.block_cache.block_height
  pub signed : height < i64_mod

pub message-IsLatest :
    (message : StreamerMessage)
    → message.block.header.height < i64_mod
    → IsLatest (new_from_streamer_message message) message.block.header.height
unfolding new_from_streamer_message cache_block
message-IsLatest message small = record { header = refl; shown = refl; signed = small }

pub view-IsLatest :
    (view : BlockView)
    → view.header.height < i64_mod
    → IsLatest (new_from_block_view view) view.header.height
unfolding new_from_block_view cache_block
view-IsLatest view small = record { header = refl; shown = refl; signed = small }

module _ (l : LruCrate ℕ CacheBlock) (size_of_val : CacheBlock → ℕ) where
  pub record IsFollowing (s : Server l size_of_val) : Type 0 where
    pub final : IsLatest s.blocks_info.final_block s.latest_final
    pub optimistic : IsLatest s.blocks_info.optimistic_block s.latest_optimistic
    pub changes :
        s.blocks_info.optimistic_changes
        ≡ changes_in_block_account_map s.blocks_info.optimistic_block

  -- What a step does: it keeps the invariant and moves neither height back.
  pub record Moves (s s' : Server l size_of_val) : Type 0 where
    pub following : IsFollowing s'
    pub final_up : s.latest_final ≤ s'.latest_final
    pub optimistic_up : s.latest_optimistic ≤ s'.latest_optimistic

  pub Moves-trans : {a b c : Server l size_of_val} → Moves a b → Moves b c → Moves a c
  Moves-trans m n = record {
    following = n.following;
    final_up = omega (arith, m.final_up, n.final_up);
    optimistic_up = omega (arith, m.optimistic_up, n.optimistic_up);
  }

  pub Moves-stay : (s : Server l size_of_val) → IsFollowing s → Moves s s
  Moves-stay s h = record { following = h; final_up = omega arith; optimistic_up = omega arith }

  module _ {A : Type 0} where
    pub Moves-continue :
        (r : Result A) (f : A → Exec (Server l size_of_val) Unit) {s s' : Server l size_of_val}
        → Moves s s'
        → ((a : A) → Moves s' (f a s').1)
        → Moves s (continue r f s').1
    Moves-continue (ok a) f m h = Moves-trans m (h a)
    Moves-continue (err e) f m h = m
    Moves-continue (panic p) f m h = m

    pub Moves-on_ok :
        (r : Result A) (f : A → Exec (Server l size_of_val) Unit) {s s' : Server l size_of_val}
        → Moves s s'
        → ((a : A) → Moves s' (f a s').1)
        → Moves s (on_ok r f (pure tt) s').1
    Moves-on_ok (ok a) f m h = Moves-trans m (h a)
    Moves-on_ok (err e) f m h = m
    Moves-on_ok (panic p) f m h = m

  -- The heights of the blocks that come in are `u64`s.
  abbrev pub HasWords : Round l size_of_val → Type 0
  HasWords (from_lake answer message) = message.block.header.height < u64_mod
  HasWords (from_redis version (ok message) answer) = message.block.header.height < u64_mod
  HasWords (from_redis version _ answer) = Unit
  HasWords (optimistic (ok message)) = message.block.header.height < u64_mod
  HasWords (optimistic _) = Unit
