-- ===== src/Tests/Meta.antt =====
-- database/src/postgres: a block with a chunk of its own and one of the block before.
use read_rpc.Prelude.{◌≡◌, refl, inr, none, some, [], ◌∷◌, ℕ_eq, ℕ_discrete}
use read_rpc.Prelude.HashMap.{IsMap, lookup}
use read_rpc.Prelude.Outcome.{ok}
use read_rpc.Views.{CryptoHash, ShardId, hash}
use read_rpc.Blocks.Chunks.{block_shard_id, chunk_hash, chunk_place}
use read_rpc.Database.Meta.{Chunks, MetaDb, save_block_with_chunks}
use read_rpc.Database.Meta.Chunks.{included_at, height_included}
use read_rpc.Database.Meta.Placed.{with_meta, save_block_with_chunks-place}
use read_rpc.Tests.Crate.{crate}
use read_rpc.Tests.Server.{size, context, sources}

abbrev db : MetaDb
db = record {
  execute = λ n. ok tt;
  blocks = (1004, 4) ∷ [];
  chunks = (30, (4, 0)) ∷ (31, (4, 1)) ∷ [];
  chunks_duplicate = [];
  validators = [];
  meta = [];
}

-- Shard 0 has a new chunk in block 5, shard 1 the one of block 4.
abbrev chunks : Chunks
chunks = (40, (0, 5)) ∷ (31, (1, 4)) ∷ []

chunks-IsMap : IsMap chunks
unfolding lookup ℕ_discrete
chunks-IsMap = (refl, (refl, tt))

new_block : lookup 1005 db.blocks ≡ none
unfolding lookup ℕ_discrete
new_block = refl

save_block_with_chunks-place_example :
    let after = save_block_with_chunks 5 1005 chunks db in
    let place = chunk_place crate size (with_meta after.1 sources) context in
    (after.0 ≡ ok tt)
    × ((s : ShardId)
        → place (block_shard_id (hash 1005) s)
          ≡ ok (inr (included_at 5 (height_included s chunks), s)))
    × ((g : CryptoHash) (s : ShardId)
        → lookup g chunks ≡ some (s, 5)
        → lookup g db.chunks ≡ none
        → place (chunk_hash g) ≡ ok (inr (5, s)))
unfolding lookup
save_block_with_chunks-place_example =
    save_block_with_chunks-place crate size sources db 5 1005 chunks context (λ n. refl)
      chunks-IsMap new_block (λ g. refl)
