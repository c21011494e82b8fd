-- ===== src/Blocks/Requests.antt =====
-- rpc-server/src/modules/blocks/utils.rs and methods.rs: the state changes of a block that a request
-- asks for, and what the changes of a block touched. `hex` is the crate of that name.
use read_rpc.Prelude.{
  ℕ, zero, suc, ◌≡◌, ◌≢◌, Bool, false, ◌&&◌, Option, none, some, List, [], ◌∷◌, ◌++◌, Text, Bytes,
  codes, Eq, eqb, if◌then◌else◌, filter, contains, map, text_dec, text_eq, ℕ_eq, ℕ_discrete,
}
use read_rpc.Prelude.Decimal.{u64_to_string}
use read_rpc.Prelude.Outcome.{Result, ok, err, panic, ◌>>=◌}
use read_rpc.Views.{
  CryptoHash, AccountId, PublicKey, StateChangeValueView, account_update, account_deletion,
  access_key_update, access_key_deletion, data_update, data_deletion, contract_code_update,
  contract_code_deletion, StateChangeWithCauseView, IndexerShard, BlockReference, finality,
  Finality,
}
use read_rpc.Lru.{LruCrate}
use read_rpc.Blocks.{CacheBlock, starts_with, state_changes_of}
use read_rpc.Blocks.Finality.{final_block_changes, optimistic_block_changes}
use read_rpc.Blocks.Fetch.{Sources, ServerContext}

-- `hex::encode`: two digits for each byte, which together tell the byte; no digit is a `_`.
pub record Hex : Type 0 where
  pub high : ℕ → ℕ
  pub low : ℕ → ℕ
  pub encode : Bytes → Text
  pub encode-nil : encode [] ≡ []
  pub encode-cons : (b : ℕ) (bs : Bytes) → encode (b ∷ bs) ≡ high b ∷ low b ∷ encode bs
  pub high_plain : (b : ℕ) → high b ≢ b'_'
  pub low_plain : (b : ℕ) → low b ≢ b'_'
  pub digits_injective : (a b : ℕ) → high a ≡ high b → low a ≡ low b → a ≡ b

pub record AccountWithPublicKey : Type 0 where
  pub account_id : AccountId
  pub public_key : PublicKey

pub data StateChangesRequestView : Type 0 where
  account_changes all_access_key_changes contract_code_changes :
      List AccountId → StateChangesRequestView
  single_access_key_changes : List AccountWithPublicKey → StateChangesRequestView
  data_changes : List AccountId → Bytes → StateChangesRequestView

-- The pattern that the first three kinds of requests share.
unfoldable pub is_account_change : StateChangeValueView → List AccountId → Bool
is_account_change (account_update id account) account_ids = contains id account_ids
is_account_change (account_deletion id) account_ids = contains id account_ids
is_account_change (access_key_update id key access_key) account_ids = contains id account_ids
is_account_change (access_key_deletion id key) account_ids = contains id account_ids
is_account_change (contract_code_update id code) account_ids = contains id account_ids
is_account_change (contract_code_deletion id) account_ids = contains id account_ids
is_account_change _ account_ids = false

unfoldable pub has_key : AccountId → PublicKey → List AccountWithPublicKey → Bool
has_key id key keys =
    contains id (map (λ k. k.account_id) keys) && contains key (map (λ k. k.public_key) keys)

unfoldable pub is_access_key_change : StateChangeValueView → List AccountWithPublicKey → Bool
is_access_key_change (access_key_update id key access_key) keys = has_key id key keys
is_access_key_change (access_key_deletion id key) keys = has_key id key keys
is_access_key_change _ keys = false

unfoldable pub has_prefix : Hex → AccountId → Bytes → List AccountId → Bytes → Bool
has_prefix hex id key account_ids key_prefix =
    contains id account_ids && starts_with (hex.encode key_prefix) (hex.encode key)

unfoldable pub is_data_change : Hex → StateChangeValueView → List AccountId → Bytes → Bool
is_data_change hex (data_update id key value) account_ids key_prefix =
    has_prefix hex id key account_ids key_prefix
is_data_change hex (data_deletion id key) account_ids key_prefix =
    has_prefix hex id key account_ids key_prefix
is_data_change hex _ account_ids key_prefix = false

unfoldable pub is_matching_change : Hex → StateChangeWithCauseView → StateChangesRequestView → Bool
is_matching_change hex change (account_changes account_ids) =
    is_account_change change.value account_ids
is_matching_change hex change (all_access_key_changes account_ids) =
    is_account_change change.value account_ids
is_matching_change hex change (contract_code_changes account_ids) =
    is_account_change change.value account_ids
is_matching_change hex change (single_access_key_changes keys) =
    is_access_key_change change.value keys
is_matching_change hex change (data_changes account_ids key_prefix) =
    is_data_change hex change.value account_ids key_prefix

-- What a change is stored under.
pub data TrieKey : Type 0 where
  account contract_code : AccountId → TrieKey
  contract_data : AccountId → Bytes → TrieKey
  access_key : AccountId → PublicKey → TrieKey

unfoldable pub trie_key_dec : Discrete TrieKey
unfolding text_dec ℕ_discrete
trie_key_dec = hlevel ℕ_discrete

instance abbrev pub trie_key_eq : Eq TrieKey
trie_key_eq = record { dec = trie_key_dec }

unfoldable pub trie_key : StateChangeValueView → TrieKey
trie_key (account_update id a) = account id
trie_key (account_deletion id) = account id
trie_key (data_update id key value) = contract_data id key
trie_key (data_deletion id key) = contract_data id key
trie_key (contract_code_update id code) = contract_code id
trie_key (contract_code_deletion id) = contract_code id
trie_key (access_key_update id key a) = access_key id key
trie_key (access_key_deletion id key) = access_key id key

pub data StateChangeKindView : Type 0 where
  account_touched contract_code_touched data_touched access_key_touched :
      AccountId → StateChangeKindView

-- Every key that a change is stored under has a kind: the `None` of the source's filter is for
-- other keys.
unfoldable pub kind : TrieKey → StateChangeKindView
kind (account id) = account_touched id
kind (contract_data id key) = data_touched id
kind (contract_code id) = contract_code_touched id
kind (access_key id key) = access_key_touched id

abbrev pub is_last : TrieKey → Option TrieKey → Bool
is_last key none = false
is_last key (some prev) = eqb prev key

-- The loop that fills `unique_trie_keys`: what it adds after the last key so far.
unfoldable pub unique_trie_keys : Option TrieKey → List TrieKey → List TrieKey
unique_trie_keys last [] = []
unique_trie_keys last (key ∷ keys) =
    let rest = unique_trie_keys (some key) keys in if is_last key last then rest else key ∷ rest

abbrev pub trie_keys : List StateChangeWithCauseView → List TrieKey
trie_keys changes = map (λ c. trie_key c.value) changes

unfoldable pub touched : List StateChangeWithCauseView → List StateChangeKindView
touched changes = map kind (unique_trie_keys none (trie_keys changes))

-- The shards from `shard_id` on, `n` of them; the first error is the answer, after all have run.
unfoldable pub fetch_shards : Sources → ℕ → ℕ → ℕ → Result (List IndexerShard)
fetch_shards sources block_height shard_id zero = ok []
fetch_shards sources block_height shard_id (suc n) = do
  shard ← sources.fetch_shard block_height shard_id
  rest ← fetch_shards sources block_height (suc shard_id) n
  ok (shard ∷ rest)

unfoldable pub fetch_shards_by_cache_block : Sources → CacheBlock → Result (List IndexerShard)
fetch_shards_by_cache_block sources block =
    elim (fetch_shards sources block.block_height 0 block.chunks_included) [
      | ok shards ↦ ok shards
      | err e ↦ err (
          codes "Failed to fetch shards for block "
          ++ u64_to_string block.block_height
          ++ codes " with error: "
          ++ e)
      | panic p ↦ panic p
    ]

module _ (l : LruCrate ℕ CacheBlock) (size_of_val : CacheBlock → ℕ) (sources : Sources) where
  unfoldable pub fetch_state_changes :
      ServerContext l size_of_val
      → CacheBlock
      → BlockReference
      → Result (List StateChangeWithCauseView)
  fetch_state_changes context block (finality Finality.none) =
      if context.server.is_not_working
      then err (codes "Failed to fetch shards! Finality::None is not supported by rpc_server")
      else ok (optimistic_block_changes context.server.blocks_info)
  fetch_state_changes context block (finality _) =
      ok (final_block_changes context.server.blocks_info)
  fetch_state_changes context block _ = do
    shards ← fetch_shards_by_cache_block sources block
    ok (state_changes_of shards)

  -- The answers have the hash of the block beside the changes; `UnknownBlock` has the error's text.
  unfoldable pub fetch_changes_in_block :
      ServerContext l size_of_val
      → CacheBlock
      → BlockReference
      → Result (CryptoHash × List StateChangeKindView)
  fetch_changes_in_block context block block_reference = do
    changes ← fetch_state_changes context block block_reference
    ok (block.block_hash, touched changes)

  unfoldable pub fetch_changes_in_block_by_type :
      Hex
      → ServerContext l size_of_val
      → CacheBlock
      → StateChangesRequestView
      → BlockReference
      → Result (CryptoHash × List StateChangeWithCauseView)
  fetch_changes_in_block_by_type hex context block request block_reference = do
    changes ← fetch_state_changes context block block_reference
    ok (block.block_hash, filter (λ change. is_matching_change hex change request) changes)
