-- ===== src/Blocks/Moves/Start.antt =====
-- rpc-server/src/modules/blocks/mod.rs: the server that `BlocksInfoByFinality::new` makes.
use mathlib.Core.Path.{subst}
use read_rpc.Prelude.{ℕ, ◌≡◌, ◌<◌, refl, ℕ_eq, arith, ap, codes}
use read_rpc.Prelude.Outcome.{Result, ok, err, panic, ok-injective, ◌>>=◌}
use read_rpc.Views.{BlockView, EpochValidatorInfo}
use read_rpc.Lru.{LruCrate, LruMemoryCache}
use read_rpc.Blocks.{CacheBlock, new_from_block_view, changes_in_block_account_map, record_changes}
use read_rpc.Blocks.Finality.{
  Fetched, i64_mod, i64_try_from, get_final_block, fetch_latest, new_blocks_info,
}
use read_rpc.Blocks.Follow.{Server, started, start}
use read_rpc.Blocks.Moves.{view-IsLatest, IsFollowing}

get_final_block_small :
    (answer : Result BlockView) (block : BlockView)
    → get_final_block answer ≡ ok block
    → block.header.height < i64_mod
unfolding get_final_block i64_try_from
get_final_block_small (ok b) block h = ground arith
get_final_block_small (err e) block h = absurd cc
get_final_block_small (panic p) block h = absurd cc

fetch_latest_small :
    (final_answer optimistic_answer : Result BlockView)
    (validators_answer : Result EpochValidatorInfo) (f : Fetched)
    → fetch_latest final_answer optimistic_answer validators_answer ≡ ok f
    → (f.final_block.header.height < i64_mod) × (f.optimistic_block.header.height < i64_mod)
unfolding fetch_latest
fetch_latest_small final_answer optimistic_answer validators_answer f h =
    let parts =
      both (get_final_block final_answer) (get_final_block optimistic_answer) validators_answer h in
    (
      get_final_block_small final_answer f.final_block parts.0,
      get_final_block_small optimistic_answer f.optimistic_block parts.1,
    )
  where
    both :
        (a b : Result BlockView) (v : Result EpochValidatorInfo)
        → (do
          final_block ← a
          optimistic_block ← b
          validators ← v
          ok (record {
            final_block = final_block;
            optimistic_block = optimistic_block;
            validators = validators;
          }))
          ≡ ok f
        → (a ≡ ok f.final_block) × (b ≡ ok f.optimistic_block)
    both (ok a) (ok b) (ok v) h = (
      ap (λ (g : Fetched). ok g.final_block) (ok-injective h),
      ap (λ (g : Fetched). ok g.optimistic_block) (ok-injective h),
    )
    both _ _ _ h = absurd cc

module _ (l : LruCrate ℕ CacheBlock) (size_of_val : CacheBlock → ℕ) where
  started-IsFollowing :
      (version : ℕ) (blocks_cache : LruMemoryCache l size_of_val) (f : Fetched)
      → f.final_block.header.height < i64_mod
      → f.optimistic_block.header.height < i64_mod
      → IsFollowing l size_of_val (started l size_of_val version blocks_cache f)
  unfolding started new_blocks_info new_from_block_view changes_in_block_account_map record_changes
  started-IsFollowing version blocks_cache f final_small optimistic_small = record {
    final = view-IsLatest f.final_block final_small;
    optimistic = view-IsLatest f.optimistic_block optimistic_small;
    changes = refl;
  }

  pub start-IsFollowing :
      (final_answer optimistic_answer : Result BlockView)
      (validators_answer : Result EpochValidatorInfo) (version : ℕ)
      (blocks_cache : LruMemoryCache l size_of_val) (s : Server l size_of_val)
      → start l size_of_val final_answer optimistic_answer validators_answer version blocks_cache
        ≡ ok s
      → IsFollowing l size_of_val s
  unfolding start
  start-IsFollowing final_answer optimistic_answer validators_answer version blocks_cache s h =
      by_fetched (fetch_latest final_answer optimistic_answer validators_answer) refl h
    where
      by_fetched :
          (r : Result Fetched)
          → fetch_latest final_answer optimistic_answer validators_answer ≡ r
          → elim r as (λ _. Result (Server l size_of_val)) [
            | ok f ↦ ok (started l size_of_val version blocks_cache f)
            | err e ↦ panic (codes "Error to get final block info")
            | panic p ↦ panic p
          ]
            ≡ ok s
          → IsFollowing l size_of_val s
      by_fetched (ok f) e h =
          let small = fetch_latest_small final_answer optimistic_answer validators_answer f e in
          subst (IsFollowing l size_of_val) (ok-injective h)
            (started-IsFollowing version blocks_cache f small.0 small.1)
      by_fetched (err _) e h = absurd (cc)
      by_fetched (panic _) e h = absurd (cc)
