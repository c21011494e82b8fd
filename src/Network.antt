-- ===== src/Network.antt =====
-- rpc-server/src/modules/network/methods.rs: validators, which come from the node for the current
-- epoch and from the database for those before. The comparison with another node behind the feature
-- shadow-data-consistency and the metrics are left out.
pub mod Saved
use read_rpc.Prelude.{
  ℕ, Option, none, some, ◌==◌, ◌⊎◌, inl, inr, Text, codes, ltb, if◌then◌else◌, ℕ_eq, text_eq,
}
use read_rpc.Prelude.Outcome.{Result, ok, err, panic}
use read_rpc.Views.{CryptoHash, EpochValidatorInfo, BlockId, block_id}
use read_rpc.Lru.{LruCrate}
use read_rpc.Blocks.{CacheBlock}
use read_rpc.Blocks.Finality.{final_cache_block}
use read_rpc.Blocks.Fetch.{Sources, ServerContext, fetch_block_from_cache_or_get}
use read_rpc.Database.Meta.{EpochValidatorsInfo}
use read_rpc.Queries.Call.{expected_earliest_available_block}

pub data EpochReference : Type 0 where
  of_epoch : CryptoHash → EpochReference
  of_block : BlockId → EpochReference
  latest : EpochReference

pub data RpcValidatorError : Type 0 where
  unknown_epoch validator_info_unavailable : RpcValidatorError
  internal_error : Text → RpcValidatorError

abbrev pub Answer : Type 0 → Type 0
Answer A = Result (RpcValidatorError ⊎ A)

-- What a node answers: a value, an error of its handler, or another error with its text.
pub data NodeAnswer (A : Type 0) : Type 0 where
  response : A → NodeAnswer A
  handler_error : RpcValidatorError → NodeAnswer A
  other_error : Text → NodeAnswer A

abbrev pub proxied : {A : Type 0} → NodeAnswer A → Answer A
proxied (response a) = ok (inr a)
proxied (handler_error e) = ok (inl e)
proxied (other_error text) = ok (inl (internal_error text))

-- The node, for validators and for their order, in which a list stands for the response.
pub record Node (Ordered : Type 0) : Type 0 where
  pub validators : EpochReference → NodeAnswer EpochValidatorInfo
  pub validators_ordered : Option BlockId → NodeAnswer Ordered
  pub archival_validators_ordered : Option BlockId → NodeAnswer Ordered

pub record EpochReader : Type 0 where
  pub get_validators_by_epoch_id : CryptoHash → Result EpochValidatorsInfo
  pub get_validators_by_end_block_height : ℕ → Result EpochValidatorsInfo

pub record RpcError : Type 0 where
  pub code : ℕ
  pub message : Text

abbrev not_implemented : Text → RpcError
not_implemented message = record { code = 32601; message = message }

unfoldable pub client_config : RpcError
client_config = not_implemented (
    codes
      "Method `client_config` is not implemented on this type of node. Please send a request to NEAR JSON RPC instead.")

unfoldable pub maintenance_windows : RpcError
maintenance_windows = not_implemented (
    codes
      "Method `maintenance_windows` is not implemented on this type of node. Please send a request to NEAR JSON RPC instead.")

unfoldable pub split_storage_info : RpcError
split_storage_info = not_implemented (
    codes
      "Method `split_storage_info` is not implemented on this type of node. Please send a request to NEAR JSON RPC instead.")

-- `map_err`, then the field of the row.
abbrev or_unknown : RpcValidatorError → Result EpochValidatorsInfo → Answer EpochValidatorInfo
or_unknown error (ok found) = ok (inr found.validators_info)
or_unknown error (err _) = ok (inl error)
or_unknown error (panic p) = panic p

module _ (l : LruCrate ℕ CacheBlock) (size_of_val : CacheBlock → ℕ) (sources : Sources)
    (reader : EpochReader) {Ordered : Type 0} (node : Node Ordered) (epoch_length : ℕ) where
  abbrev pub Context : Type 0
  Context = ServerContext l size_of_val

  abbrev pub ended_at : Result CacheBlock → Answer EpochValidatorInfo
  ended_at (ok block) =
      or_unknown validator_info_unavailable
        (reader.get_validators_by_end_block_height block.block_height)
  ended_at (err _) = ok (inl unknown_epoch)
  ended_at (panic p) = panic p

  -- An answer and the cache of blocks after it.
  unfoldable pub validators_call : Context → EpochReference → Answer EpochValidatorInfo × Context
  validators_call context (of_epoch id) =
      (or_unknown unknown_epoch (reader.get_validators_by_epoch_id id), context)
  validators_call context (of_block id) =
      let (found, context') =
        fetch_block_from_cache_or_get l size_of_val sources (block_id id) context in
      (ended_at found, context')
  validators_call context latest = (ok (inl unknown_epoch), context)

  unfoldable pub validators : Context → EpochReference → Answer EpochValidatorInfo × Context
  validators context latest = (proxied (node.validators latest), context)
  validators context (of_epoch id) =
      if (final_cache_block context.server.blocks_info).epoch_id == id
      then (proxied (node.validators (of_epoch id)), context)
      else validators_call context (of_epoch id)
  validators context (of_block id) = validators_call context (of_block id)

  abbrev ordered_at : Context → BlockId → Result CacheBlock → Answer Ordered
  ordered_at context id (ok block) =
      let final_height = (final_cache_block context.server.blocks_info).block_height in
      if ltb (expected_earliest_available_block final_height epoch_length) block.block_height
      then proxied (node.validators_ordered (some id))
      else proxied (node.archival_validators_ordered (some id))
  ordered_at context id (err _) = proxied (node.validators_ordered (some id))
  ordered_at context id (panic p) = panic p

  unfoldable pub validators_ordered : Context → Option BlockId → Answer Ordered × Context
  validators_ordered context none = (proxied (node.validators_ordered none), context)
  validators_ordered context (some id) =
      let (found, context') =
        fetch_block_from_cache_or_get l size_of_val sources (block_id id) context in
      (ordered_at context' id found, context')
