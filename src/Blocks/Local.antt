-- ===== src/Blocks/Local.antt =====
-- rpc-server/src/modules/blocks/utils.rs: which receipts of a chunk `fetch_chunk_from_s3` serves.
use read_rpc.Prelude.{
  ℕ, ◌≡◌, ◌≢◌, refl, inl, inr, Bool, false, Bool-cases, Option, Option-cases, none, some, List, [],
  ◌∷◌, ◌==◌, ◌&&◌, ◌||◌, not, first, filter, filter-ext, contains, map, All, arith, ℕ_eq,
}
use read_rpc.Prelude.Outcome.{ok}
use read_rpc.Views.{
  CryptoHash, ShardId, IndexerTransactionWithOutcome, IndexerChunkView, IndexerShard,
}
use read_rpc.Blocks.Fetch.{Sources}
use read_rpc.Blocks.Chunks.{
  is_local, converted_receipt, receipts_of, chunk_view, fetch_chunk_from_s3,
}

abbrev is_first : Option CryptoHash → CryptoHash → Bool
is_first none id = false
is_first (some local) id = id == local

-- A receipt that a transaction from an account to itself was converted into.
pub is_local_receipt : List IndexerTransactionWithOutcome → CryptoHash → Bool
is_local_receipt [] id = false
is_local_receipt (tx ∷ txs) id =
    is_local tx && is_first (first tx.outcome.outcome.receipt_ids) id || is_local_receipt txs id

-- Every transaction was converted into a receipt.
abbrev pub IsConverted : IndexerTransactionWithOutcome → Type 0
IsConverted tx = first tx.outcome.outcome.receipt_ids ≢ none

-- The ids that are collected, and what they decide.
record Collected (txs : List IndexerTransactionWithOutcome) : Type 0 where
  ids : List CryptoHash
  collected : receipts_of (filter is_local txs) ≡ ok ids
  decide : (id : CryptoHash) → contains id ids ≡ is_local_receipt txs id

collect : (txs : List IndexerTransactionWithOutcome) → All IsConverted txs → Collected txs
unfolding filter receipts_of converted_receipt contains is_local_receipt
collect [] h = record { ids = []; collected = refl; decide = λ id. refl }
collect (tx ∷ txs) h =
    let rest = collect txs h.1 in
    elim (Bool-cases (is_local tx)) [
      | inl local ↦ elim (Option-cases (first tx.outcome.outcome.receipt_ids)) [
        | inl missing ↦ absurd (h.0 missing)
        | inr (id, converted) ↦ record {
          ids = id ∷ rest.ids;
          collected = rw (local, converted, rest.collected, filter, receipts_of) refl;
          decide = λ j. ground (arith, local, converted, rest.decide j);
        }
      ]
      | inr other ↦ record {
        ids = rest.ids;
        collected = rw (other, filter) rest.collected;
        decide = λ j. ground (arith, other, rest.decide j);
      }
    ]

-- If S3 has the chunk and every transaction of the chunk was converted into a receipt, the chunk is
-- served with its transactions and, in order, exactly those of its receipts that are not local.
pub served_chunk :
    (sources : Sources) (block_height : ℕ) (shard_id : ShardId) (shard : IndexerShard)
    (chunk : IndexerChunkView)
    → sources.fetch_shard block_height shard_id ≡ ok shard
    → shard.chunk ≡ some chunk
    → All IsConverted chunk.transactions
    → fetch_chunk_from_s3 sources block_height shard_id
      ≡ ok (
          inr (record {
            shard_id = chunk.shard_id;
            transactions = map (λ tx. tx.transaction) chunk.transactions;
            receipts =
                filter
                  (λ receipt. not (is_local_receipt chunk.transactions receipt.receipt_id))
                  chunk.receipts;
          }))
unfolding fetch_chunk_from_s3 chunk_view
served_chunk sources block_height shard_id shard chunk found present converted =
    let c = collect chunk.transactions converted in
    rw (found, present, c.collected, fetch_chunk_from_s3)
      (rw
        (filter-ext (λ receipt. not (contains receipt.receipt_id c.ids))
          (λ receipt. not (is_local_receipt chunk.transactions receipt.receipt_id)) chunk.receipts
          (λ receipt. rw (c.decide receipt.receipt_id)))
        refl)
