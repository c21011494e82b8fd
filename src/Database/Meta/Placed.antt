-- ===== src/Database/Meta/Placed.antt =====
-- database/src/postgres and rpc-server/src/modules/blocks/methods.rs: the chunks of a block that the
-- state indexer saves are found by the server where they are stored.
use read_rpc.Prelude.{
  ℕ, ◌*◌, ◌≡◌, refl, sym, ap, ◌∙◌, true, Bool-cases, not, inl, inr, Option, none, some, [], ◌∷◌,
  filter, is_empty, length, get_or, if◌then◌else◌, arith, ℕ_eq,
}
use read_rpc.Prelude.HashMap.{HashMap, IsMap, lookup, lookup-insert}
use read_rpc.Prelude.Outcome.{Result, ok, err, panic, ok_or, ◌>>=◌}
use read_rpc.Prelude.Exec.{Exec, join_all}
use read_rpc.Views.{CryptoHash, ShardId, hash}
use read_rpc.Lru.{LruCrate}
use read_rpc.Blocks.{CacheBlock}
use read_rpc.Blocks.Fetch.{Sources, ServerContext}
use read_rpc.Blocks.Chunks.{Answer, block_shard_id, chunk_hash, chunk_place}
use read_rpc.Database.Meta.{
  BlockHeightShardId, ChunkPlace, Chunks, ChunkKey, chunk_key_eq, MetaDb, no_rows, committed,
  insert_new, insert_unique, insert_duplicates, find_stored, is_included, save_block,
  save_chunks_unique, save_chunks_duplicate, save_chunks, save_block_with_chunks,
  get_block_height_by_hash, get_block_by_chunk_hash, get_block_by_height_and_shard_id,
}
use read_rpc.Database.Meta.Chunks.{
  included_at, height_included, placed, IsNew, insert_new_lem, find_stored-insert_duplicates,
  find_stored-new, lookup-insert_unique, lookup-own, included_at-own,
}

-- The meta database as the server's source of places.
abbrev pub with_meta : MetaDb → Sources → Sources
with_meta db sources = record sources {
  get_block_height_by_hash = get_block_height_by_hash db;
  get_block_by_height_and_shard_id = get_block_by_height_and_shard_id db;
  get_block_by_chunk_hash = get_block_by_chunk_hash db;
}

abbrev pub Executes : MetaDb → Type 0
Executes db = (n : ℕ) → db.execute n ≡ ok tt

join_both :
    {S : Type 0} (first second : Exec S Unit) (s s' s'' : S)
    → first s ≡ (ok tt, s')
    → second s' ≡ (ok tt, s'')
    → join_all (first ∷ second ∷ []) s ≡ (ok tt, s'')
unfolding join_all
join_both first second s s' s'' e e' = rw (e, e') refl

empty_lacks :
    {V : Type 0} {v : V} (g : CryptoHash) (m : HashMap CryptoHash V)
    → is_empty m ≡ true
    → lookup g m ≡ some v
    → ⊥
unfolding lookup
empty_lacks g [] empty found = cc
empty_lacks g (c ∷ m) empty found = cc

stored_block :
    (block_hash : CryptoHash) (h : ℕ) (blocks : HashMap CryptoHash ℕ)
    → lookup block_hash blocks ≡ none
    → lookup block_hash (insert_new block_hash h blocks) ≡ some h
stored_block block_hash h blocks new =
    ap (λ (t : HashMap CryptoHash ℕ). lookup block_hash t) (insert_new_lem block_hash h blocks new)
    ∙ ground (arith, lookup-insert block_hash block_hash h blocks)

found_or :
    (executed : Result {0} Unit) (r : Option BlockHeightShardId) (h : ℕ) (s : ShardId)
    → executed ≡ ok tt
    → elim (executed >>= λ _. ok_or r no_rows) as (λ _. Answer (ℕ × ShardId)) [
      | ok found ↦ ok (inr found)
      | err _ ↦ ok (inr (h, s))
      | panic p ↦ panic p
    ]
      ≡ ok (inr (get_or r (h, s)))
found_or (ok _) none h s done = refl
found_or (ok _) (some found) h s done = refl
found_or (err e) r h s done = absurd cc
found_or (panic p) r h s done = absurd cc

module _ (h : ℕ) (block_hash : CryptoHash) (chunks : Chunks) where
  abbrev uniques : MetaDb → HashMap CryptoHash BlockHeightShardId
  uniques db =
      if is_empty (filter (is_included h) chunks)
      then db.chunks
      else insert_unique (filter (is_included h) chunks) db.chunks

  abbrev duplicates : MetaDb → HashMap ChunkKey ChunkPlace
  duplicates db =
      if is_empty (filter (λ chunk. not (is_included h chunk)) chunks)
      then db.chunks_duplicate
      else insert_duplicates h chunks db.chunks_duplicate

  saved : MetaDb → MetaDb
  saved db = record db {
    blocks = insert_new block_hash h db.blocks;
    chunks = uniques db;
    chunks_duplicate = duplicates db;
  }

  unique_lem :
      (db : MetaDb)
      → Executes db
      → save_chunks_unique h chunks db ≡ (ok tt, record db { chunks = uniques db })
  unfolding save_chunks_unique
  unique_lem db executes = elim (Bool-cases (is_empty (filter (is_included h) chunks))) [
    | inl empty ↦ rw empty refl
    | inr full ↦ rw full (
        ap
          (committed
            (λ db. record db { chunks = insert_unique (filter (is_included h) chunks) db.chunks })
            db)
          (executes (3 * length (filter (is_included h) chunks))))
  ]

  duplicate_lem :
      (db : MetaDb)
      → Executes db
      → save_chunks_duplicate h chunks db ≡ (ok tt, record db { chunks_duplicate = duplicates db })
  unfolding save_chunks_duplicate
  duplicate_lem db executes =
      elim (Bool-cases (is_empty (filter (λ chunk. not (is_included h chunk)) chunks))) [
        | inl empty ↦ rw empty refl
        | inr full ↦ rw full (
            ap
              (committed
                (λ db. record db {
                  chunks_duplicate = insert_duplicates h chunks db.chunks_duplicate;
                })
                db)
              (executes (4 * length chunks)))
      ]

  save_lem :
      (db : MetaDb)
      → Executes db
      → save_block_with_chunks h block_hash chunks db ≡ (ok tt, saved db)
  unfolding save_block_with_chunks save_block save_chunks saved
  save_lem db executes =
      let blocks_saved : MetaDb = record db { blocks = insert_new block_hash h db.blocks } in
      let chunks_saved : MetaDb = record blocks_saved { chunks = uniques db } in
      join_both (save_block h block_hash) (save_chunks h chunks) db blocks_saved (saved db)
        (ap (committed (λ db. record db { blocks = insert_new block_hash h db.blocks }) db)
          (executes 2))
        (join_both (save_chunks_unique h chunks) (save_chunks_duplicate h chunks) blocks_saved
          chunks_saved (saved db) (unique_lem blocks_saved executes)
          (duplicate_lem chunks_saved executes))

  module _ (db : MetaDb) where
    stored_place :
        (s : ShardId)
        → IsNew h db.chunks_duplicate
        → IsMap chunks
        → get_or (find_stored h s (duplicates db)) (h, s)
          ≡ (included_at h (height_included s chunks), s)
    stored_place s new distinct =
        elim (Bool-cases (is_empty (filter (λ chunk. not (is_included h chunk)) chunks))) [
          | inl own ↦
              rw (own, find_stored-new h s db.chunks_duplicate new)
                (ap (λ i. (i, s)) (sym (included_at-own h s chunks own)))
          | inr full ↦
              rw
                (
                  full,
                  find_stored-insert_duplicates h s chunks db.chunks_duplicate distinct
                      (λ g known. new g),
                  find_stored-new h s db.chunks_duplicate new,
                )
                (by_place (height_included s chunks))
        ]
      where
        by_place : (found : Option ℕ) → get_or (placed s found) (h, s) ≡ (included_at h found, s)
        by_place none = refl
        by_place (some i) = refl

    own_place :
        (g : CryptoHash) (s : ShardId)
        → lookup g chunks ≡ some (s, h)
        → lookup g db.chunks ≡ none
        → lookup g (uniques db) ≡ some (h, s)
    own_place g s found new = elim (Bool-cases (is_empty (filter (is_included h) chunks))) [
      | inl empty ↦
          absurd
            (empty_lacks g (filter (is_included h) chunks) empty (lookup-own h g s chunks found))
      | inr full ↦ rw full (
          lookup-insert_unique g (filter (is_included h) chunks) db.chunks
          ∙ ground (arith, new, lookup-own h g s chunks found))
    ]

module _ (l : LruCrate ℕ CacheBlock) (size_of_val : CacheBlock → ℕ) (sources : Sources) where
  -- When a database that executes every command saves a block with its chunks, it succeeds, and
  -- afterwards the server resolves a chunk by the hash of the block and a shard: to the height that
  -- includes the chunk of the shard, or to the height of the block itself if it has no chunk for the
  -- shard. It resolves the hash of a chunk that the block includes itself to the height of the block
  -- and the shard of the chunk. The chunks have different hashes, and neither the block, nor chunks
  -- of its height, nor that chunk were stored before.
  pub save_block_with_chunks-place :
      (db : MetaDb) (h : ℕ) (block_hash : CryptoHash) (chunks : Chunks)
      (context : ServerContext l size_of_val)
      → Executes db
      → IsMap chunks
      → lookup block_hash db.blocks ≡ none
      → IsNew h db.chunks_duplicate
      → let after = save_block_with_chunks h block_hash chunks db in
        let place = chunk_place l size_of_val (with_meta after.1 sources) context in
        (after.0 ≡ ok tt)
        × ((s : ShardId)
            → place (block_shard_id (hash block_hash) s)
              ≡ ok (inr (included_at h (height_included s chunks), s)))
        × ((g : CryptoHash) (s : ShardId)
            → lookup g chunks ≡ some (s, h)
            → lookup g db.chunks ≡ none
            → place (chunk_hash g) ≡ ok (inr (h, s)))
  unfolding chunk_place get_block_height_by_hash get_block_by_chunk_hash
      get_block_by_height_and_shard_id saved
  save_block_with_chunks-place db h block_hash chunks context executes distinct new_block new =
      rw (save_lem h block_hash chunks db executes) (
        refl,
        λ s.
            rw (executes 1, stored_block block_hash h db.blocks new_block)
              (found_or (db.execute 2) (find_stored h s (duplicates h block_hash chunks db)) h s
                  (executes 2)
                ∙ ap (λ p. ok (inr p)) (stored_place h block_hash chunks db s new distinct)),
        λ g s found new_chunk.
            rw (executes 1, own_place h block_hash chunks db g s found new_chunk) refl,
      )
