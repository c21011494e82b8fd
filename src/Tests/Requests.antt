-- ===== src/Tests/Requests.antt =====
-- rpc-server/src/modules/blocks: chunks and state changes that are asked for.
use read_rpc.Prelude.{
  ℕ, ◌+◌, ◌/◌, ◌%◌, ◌≡◌, ◌≢◌, ◌↔◌, List, refl, true, not, ◌&&◌, inr, none, some, [], ◌∷◌, Bytes,
  Text, codes, ltb, if◌then◌else◌, contains, filter, map, arith, text_eq,
}
use read_rpc.Prelude.Outcome.{ok, err}
use read_rpc.Views.{
  IndexerChunkView, IndexerShard, data_update, access_key_deletion, StateChangeWithCauseView,
  IndexerTransactionWithOutcome, ExecutionStatusView, account_deletion,
}
use read_rpc.Blocks.{starts_with}
use read_rpc.Blocks.Fetch.{Sources}
use read_rpc.Blocks.Chunks.{fetch_chunk_from_s3}
use read_rpc.Blocks.Local.{is_local_receipt, IsConverted, served_chunk}
use read_rpc.Blocks.Requests.{
  Hex, AccountWithPublicKey, account_changes, all_access_key_changes, contract_code_changes,
  single_access_key_changes, data_changes, is_matching_change, TrieKey, trie_key_eq,
  unique_trie_keys, trie_keys,
}
use read_rpc.Blocks.Matching.{
  is_wanted, IsUnique, IsCrossed, changed_key, data_changes-prefix, account_requests,
  single_access_key-mixes, touched_keys,
}
use read_rpc.Tests.Fixtures.{alice, bob}

abbrev pub digit : ℕ → ℕ
digit d = if ltb d 10 then 48 + d else 87 + d

abbrev pub encode_bytes : Bytes → Text
encode_bytes [] = []
encode_bytes (b ∷ bs) = digit (b / 16) ∷ digit (b % 16) ∷ encode_bytes bs

pub digits_apart :
    (a b : ℕ) → digit (a / 16) ≡ digit (b / 16) → digit (a % 16) ≡ digit (b % 16) → a ≡ b
digits_apart a b h k =
    let high : a / 16 ≡ b / 16 = ground arith in
    let low : a % 16 ≡ b % 16 = ground arith in omega arith

pub digit_plain : (d : ℕ) → digit d ≢ b'_'
digit_plain d h = ground arith

abbrev pub hex : Hex
hex = record {
  high = λ b. digit (b / 16);
  low = λ b. digit (b % 16);
  encode = encode_bytes;
  encode-nil = refl;
  encode-cons = λ b bs. refl;
  high_plain = λ b. digit_plain (b / 16);
  low_plain = λ b. digit_plain (b % 16);
  digits_injective = digits_apart;
}

-- Alice sends a transaction to herself, which becomes receipt 2.
abbrev own : IndexerTransactionWithOutcome
own = record {
  transaction = record { hash = 1; signer_id = alice; receiver_id = alice };
  outcome = record {
    id = 1;
    outcome = record { receipt_ids = 2 ∷ []; status = ExecutionStatusView.success_receipt_id 2 };
  };
}

abbrev chunk : IndexerChunkView
chunk = record {
  shard_id = 0;
  transactions = own ∷ [];
  receipts =
      record { receipt_id = 2; receiver_id = alice }
      ∷ record { receipt_id = 3; receiver_id = bob }
      ∷ [];
}

abbrev shard : IndexerShard
shard = record {
  shard_id = 0;
  chunk = some chunk;
  receipt_execution_outcomes = [];
  state_changes = [];
}

abbrev sources : Sources
sources = record {
  get_block_height_by_hash = λ h. err (codes "unknown hash");
  get_block_by_height_and_shard_id = λ h id. err (codes "unknown chunk");
  get_block_by_chunk_hash = λ h. err (codes "unknown chunk");
  fetch_block = λ h. err (codes "no block");
  fetch_shard = λ h id. ok shard;
  debug_hash = λ h. codes "hash";
}

own-IsConverted : IsConverted own
own-IsConverted h = cc

served_chunk_example :
    fetch_chunk_from_s3 sources 5 0
    ≡ ok (
        inr (record {
          shard_id = chunk.shard_id;
          transactions = map (λ tx. tx.transaction) chunk.transactions;
          receipts =
              filter
                (λ receipt. not (is_local_receipt chunk.transactions receipt.receipt_id))
                chunk.receipts;
        }))
served_chunk_example = served_chunk sources 5 0 shard chunk refl refl (own-IsConverted, tt)

abbrev change : StateChangeWithCauseView
change = record { cause = 0; value = data_update alice (31 ∷ 5 ∷ []) (9 ∷ []) }

abbrev deleted : StateChangeWithCauseView
deleted = record { cause = 0; value = account_deletion alice }

data_changes-prefix_example :
    is_matching_change hex change (data_changes (alice ∷ []) (31 ∷ []))
    ≡ (contains alice (alice ∷ []) && starts_with (31 ∷ []) (31 ∷ 5 ∷ []))
data_changes-prefix_example = data_changes-prefix hex change (alice ∷ []) (31 ∷ [])

account_requests_example :
    (is_matching_change hex deleted (account_changes (alice ∷ []))
      ≡ is_wanted deleted.value (alice ∷ []))
    × (is_matching_change hex deleted (all_access_key_changes (alice ∷ []))
        ≡ is_wanted deleted.value (alice ∷ []))
    × (is_matching_change hex deleted (contract_code_changes (alice ∷ []))
        ≡ is_wanted deleted.value (alice ∷ []))
account_requests_example = account_requests hex deleted (alice ∷ [])

-- The request asks for key 7 of Alice and key 8 of Bob, the change is to key 8 of Alice.
abbrev key_deleted : StateChangeWithCauseView
key_deleted = record { cause = 0; value = access_key_deletion alice (8 ∷ []) }

abbrev asked : List AccountWithPublicKey
asked =
    record { account_id = alice; public_key = 7 ∷ [] }
    ∷ record { account_id = bob; public_key = 8 ∷ [] }
    ∷ []

single_access_key-mixes_example :
    (is_matching_change hex key_deleted (single_access_key_changes asked) ≡ true)
    ↔ IsCrossed asked (changed_key key_deleted.value)
single_access_key-mixes_example = single_access_key-mixes hex key_deleted asked

touched_keys_example :
    let keys = unique_trie_keys none (trie_keys (change ∷ change ∷ deleted ∷ [])) in
    ((k : TrieKey) → contains k keys ≡ contains k (trie_keys (change ∷ change ∷ deleted ∷ [])))
    × IsUnique keys
touched_keys_example = touched_keys (change ∷ change ∷ deleted ∷ [])
