-- ===== src/Blocks/Chunks.antt =====
-- rpc-server/src/modules/blocks/utils.rs and methods.rs: the chunk that a request refers to. The
-- receipts that S3 has of a chunk include the local ones, which a node leaves out of its chunks.
use read_rpc.Prelude.{
  ℕ, Bool, none, some, List, [], ◌∷◌, ◌++◌, ◌⊎◌, inl, inr, Text, codes, eqb, first, filter,
  contains, not, map, text_eq, ℕ_eq,
}
use read_rpc.Prelude.Outcome.{Result, ok, err, panic, expect, ◌>>=◌}
use read_rpc.Views.{
  CryptoHash, ShardId, IndexerTransactionWithOutcome, IndexerChunkView, ChunkView, BlockId, height,
  hash,
}
use read_rpc.Lru.{LruCrate}
use read_rpc.Blocks.{CacheBlock}
use read_rpc.Blocks.Fetch.{Sources, ServerContext, check_block_height}

pub data RpcChunkError : Type 0 where
  internal_error unknown_block : Text → RpcChunkError
  unknown_chunk : CryptoHash → RpcChunkError

-- A function that may panic and answers with an error of its own or a value.
abbrev pub Answer : Type 0 → Type 0
Answer A = Result (RpcChunkError ⊎ A)

-- `?` after a `map_err`.
abbrev pub or_fail : {A B : Type 0} → (Text → RpcChunkError) → Result A → (A → Answer B) → Answer B
or_fail error (ok a) next = next a
or_fail error (err e) next = ok (inl (error e))
or_fail error (panic p) next = panic p

abbrev pub is_local : IndexerTransactionWithOutcome → Bool
is_local tx = eqb tx.transaction.signer_id tx.transaction.receiver_id

unfoldable pub converted_receipt : IndexerTransactionWithOutcome → Result CryptoHash
converted_receipt tx =
    expect (first tx.outcome.outcome.receipt_ids)
      (codes "Conversion receipt_id must be present in transaction outcome")

unfoldable pub receipts_of : List IndexerTransactionWithOutcome → Result (List CryptoHash)
receipts_of [] = ok []
receipts_of (tx ∷ txs) = do id ← converted_receipt tx; ids ← receipts_of txs; ok (id ∷ ids)

unfoldable pub chunk_view : IndexerChunkView → List CryptoHash → ChunkView
chunk_view chunk local_receipt_ids = record {
  shard_id = chunk.shard_id;
  transactions = map (λ tx. tx.transaction) chunk.transactions;
  receipts = filter (λ receipt. not (contains receipt.receipt_id local_receipt_ids)) chunk.receipts;
}

unfoldable pub fetch_chunk_from_s3 : Sources → ℕ → ShardId → Answer ChunkView
fetch_chunk_from_s3 sources block_height shard_id =
    or_fail internal_error (sources.fetch_shard block_height shard_id) λ shard. elim shard.chunk [
      | some chunk ↦ do
        local_receipt_ids ← receipts_of (filter is_local chunk.transactions)
        ok (inr (chunk_view chunk local_receipt_ids))
      | none ↦ ok (inl (internal_error (codes "Unavailable chunk")))
    ]

pub data ChunkReference : Type 0 where
  block_shard_id : BlockId → ShardId → ChunkReference
  chunk_hash : CryptoHash → ChunkReference

module _ (l : LruCrate ℕ CacheBlock) (size_of_val : CacheBlock → ℕ) (sources : Sources) where
  -- The block in which the chunk is stored, if the database knows it.
  abbrev pub stored_in : ℕ → ShardId → Answer (ℕ × ShardId)
  stored_in block_height shard_id =
      elim (sources.get_block_by_height_and_shard_id block_height shard_id) [
        | ok found ↦ ok (inr found)
        | err _ ↦ ok (inr (block_height, shard_id))
        | panic p ↦ panic p
      ]

  unfoldable pub chunk_place : ServerContext l size_of_val → ChunkReference → Answer (ℕ × ShardId)
  chunk_place context (block_shard_id (height block_height) shard_id) =
      or_fail unknown_block (check_block_height l size_of_val context block_height)
        λ _. stored_in block_height shard_id
  chunk_place context (block_shard_id (hash block_hash) shard_id) =
      or_fail (λ _. unknown_block (codes "BLOCK: " ++ sources.debug_hash block_hash))
        (sources.get_block_height_by_hash block_hash)
        λ block_height. stored_in block_height shard_id
  chunk_place context (chunk_hash chunk_id) =
      or_fail (λ _. unknown_chunk chunk_id) (sources.get_block_by_chunk_hash chunk_id)
        λ found. ok (inr found)

  unfoldable pub fetch_chunk : ServerContext l size_of_val → ChunkReference → Answer ChunkView
  fetch_chunk context chunk_reference = do
    place ← chunk_place context chunk_reference
    elim place [
      | inr (block_height, shard_id) ↦ fetch_chunk_from_s3 sources block_height shard_id
      | inl error ↦ ok (inl error)
    ]
