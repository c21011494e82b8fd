-- ===== src/Blocks.antt =====
-- rpc-server/src/modules/blocks/mod.rs: the latest final and optimistic blocks that the server
-- keeps, and the changes of the optimistic block by account.
pub mod Latest
pub mod Finality
pub mod Follow
pub mod Moves
pub mod Fetch
pub mod Served
pub mod Chunks
pub mod Local
pub mod Requests
pub mod Matching
pub mod Followed
pub mod Tasks
use read_rpc.Prelude.{
  ℕ, Bool, true, false, Option, none, some, List, [], ◌∷◌, ◌++◌, ◌==◌, ◌&&◌, Bytes, codes,
  if◌then◌else◌, text_eq,
}
use read_rpc.Prelude.HashMap.{HashMap, lookup, insert, upsert}
use read_rpc.Prelude.Outcome.{Result, ok, err}
use read_rpc.Views.{
  CryptoHash, AccountId, PublicKey, AccountView, AccessKeyView, StateChangeValueView,
  account_update, account_deletion, access_key_update, access_key_deletion, data_update,
  data_deletion, contract_code_update, contract_code_deletion, StateChangeWithCauseView,
  IndexerShard, BlockView, StreamerMessage,
}

pub record CacheBlock : Type 0 where
  pub block_hash : CryptoHash
  pub block_height : ℕ
  pub block_timestamp : ℕ
  pub gas_price : ℕ
  pub latest_protocol_version : ℕ
  pub chunks_included : ℕ
  pub state_root : CryptoHash
  pub epoch_id : CryptoHash

-- `From<&BlockView> for CacheBlock`
unfoldable pub cache_block : BlockView → CacheBlock
cache_block block = record {
  block_hash = block.header.hash;
  block_height = block.header.height;
  block_timestamp = block.header.timestamp;
  gas_price = block.header.gas_price;
  latest_protocol_version = block.header.latest_protocol_version;
  chunks_included = block.header.chunks_included;
  state_root = block.header.prev_state_root;
  epoch_id = block.header.epoch_id;
}

-- `AccountChanges` and `CodeChanges`: nothing, or the new value, absent after a deletion.
pub data Changes (A : Type 0) : Type 0 where
  unchanged : Changes A
  changes : Option A → Changes A

pub record AccountChangesInBlock : Type 0 where
  pub account_changes : Changes AccountView
  pub code_changes : Changes Bytes
  pub access_key_changes : HashMap PublicKey (Option AccessKeyView)
  pub state_changes : HashMap Bytes (Option Bytes)

abbrev pub no_changes : AccountChangesInBlock
no_changes = record {
  account_changes = unchanged;
  code_changes = unchanged;
  access_key_changes = [];
  state_changes = [];
}

abbrev pub ChangesMap : Type 0
ChangesMap = HashMap AccountId AccountChangesInBlock

-- `entry(account_id).or_insert_with(AccountChangesInBlock::new)`, then an assignment.
abbrev pub change_account :
    AccountId → (AccountChangesInBlock → AccountChangesInBlock) → ChangesMap → ChangesMap
change_account account_id f m = upsert account_id f (f no_changes) m

abbrev pub set_account : Option AccountView → AccountChangesInBlock → AccountChangesInBlock
set_account account acc = record acc { account_changes = changes account }

abbrev pub set_code : Option Bytes → AccountChangesInBlock → AccountChangesInBlock
set_code code acc = record acc { code_changes = changes code }

abbrev pub set_access_key :
    PublicKey → Option AccessKeyView → AccountChangesInBlock → AccountChangesInBlock
set_access_key key access_key acc = record acc {
  access_key_changes = insert key access_key acc.access_key_changes;
}

abbrev pub set_data : Bytes → Option Bytes → AccountChangesInBlock → AccountChangesInBlock
set_data key value acc = record acc { state_changes = insert key value acc.state_changes }

-- The body of the loop over the changes.
unfoldable pub record_change : StateChangeValueView → ChangesMap → ChangesMap
record_change (account_update id account) m = change_account id (set_account (some account)) m
record_change (account_deletion id) m = change_account id (set_account none) m
record_change (contract_code_update id code) m = change_account id (set_code (some code)) m
record_change (contract_code_deletion id) m = change_account id (set_code none) m
record_change (access_key_update id key access_key) m =
    change_account id (set_access_key key (some access_key)) m
record_change (access_key_deletion id key) m = change_account id (set_access_key key none) m
record_change (data_update id key value) m = change_account id (set_data key (some value)) m
record_change (data_deletion id key) m = change_account id (set_data key none) m

unfoldable pub record_changes : List StateChangeWithCauseView → ChangesMap → ChangesMap
record_changes [] m = m
record_changes (c ∷ cs) m = record_changes cs (record_change c.value m)

pub record BlockInfo : Type 0 where
  pub block_cache : CacheBlock
  pub block_view : BlockView
  pub changes : List StateChangeWithCauseView

unfoldable pub new_from_block_view : BlockView → BlockInfo
new_from_block_view block_view = record {
  block_cache = cache_block block_view;
  block_view = block_view;
  changes = [];
}

unfoldable pub state_changes_of : List IndexerShard → List StateChangeWithCauseView
state_changes_of [] = []
state_changes_of (shard ∷ shards) = shard.state_changes ++ state_changes_of shards

unfoldable pub new_from_streamer_message : StreamerMessage → BlockInfo
new_from_streamer_message m = record {
  block_cache = cache_block m.block;
  block_view = m.block;
  changes = state_changes_of m.shards;
}

unfoldable pub changes_in_block_account_map : BlockInfo → ChangesMap
changes_in_block_account_map info = record_changes info.changes []

-- `OptimisticChanges` is its one field, `account_changes`.
unfoldable pub account_changes_in_block : ChangesMap → AccountId → Result (Option AccountView)
account_changes_in_block m id = elim (lookup id m) [
  | some acc ↦ elim acc.account_changes [
    | changes account ↦ ok account
    | unchanged ↦ err (codes "Account not updated in this block")
  ]
  | none ↦ err (codes "Account not found in this block")
]

unfoldable pub code_changes_in_block : ChangesMap → AccountId → Result (Option Bytes)
code_changes_in_block m id = elim (lookup id m) [
  | some acc ↦ elim acc.code_changes [
    | changes code ↦ ok code
    | unchanged ↦ err (codes "Code not updated in this block")
  ]
  | none ↦ err (codes "Code not found in this block")
]

unfoldable pub access_key_changes_in_block :
    ChangesMap → AccountId → PublicKey → Result (Option AccessKeyView)
access_key_changes_in_block m id key = elim (lookup id m) [
  | some acc ↦ elim (lookup key acc.access_key_changes) [
    | some access_key ↦ ok access_key
    | none ↦ err (codes "AccessKey not found in this block")
  ]
  | none ↦ err (codes "Account not found in this block")
]

unfoldable pub starts_with : Bytes → Bytes → Bool
starts_with [] key = true
starts_with (p ∷ ps) [] = false
starts_with (p ∷ ps) (c ∷ cs) = p == c && starts_with ps cs

unfoldable pub with_prefix : Bytes → HashMap Bytes (Option Bytes) → HashMap Bytes (Option Bytes)
with_prefix prefix [] = []
with_prefix prefix ((key, value) ∷ m) =
    let rest = with_prefix prefix m in
    if starts_with prefix key then insert key value rest else rest

unfoldable pub state_changes_in_block :
    ChangesMap → AccountId → Bytes → HashMap Bytes (Option Bytes)
state_changes_in_block m id prefix = elim (lookup id m) [
  | some acc ↦ with_prefix prefix acc.state_changes
  | none ↦ []
]
