-- ===== src/Blocks/Finality.antt =====
-- rpc-server/src/modules/blocks/mod.rs: `BlocksInfoByFinality`, the latest final and optimistic
-- blocks, the validators and the protocol version. A lock guards each field in the source; a method
-- takes the locks it needs once, so each method is one step here.
use read_rpc.Prelude.{ℕ, ◌^◌, Option, List, [], Bytes, ltb, if◌then◌else◌, codes}
use read_rpc.Prelude.HashMap.{HashMap}
use read_rpc.Prelude.Outcome.{Result, ok, err, panic, ◌>>=◌, ◌>>◌}
use read_rpc.Prelude.Exec.{Exec}
use read_rpc.Views.{
  AccountId, PublicKey, AccountView, AccessKeyView, BlockView, EpochValidatorInfo,
  StateChangeWithCauseView,
}
use read_rpc.Blocks.{
  CacheBlock, BlockInfo, ChangesMap, new_from_block_view, changes_in_block_account_map,
  account_changes_in_block, code_changes_in_block, access_key_changes_in_block,
  state_changes_in_block,
}

-- `CurrentValidatorInfo`, `CurrentProtocolVersion` and `OptimisticChanges` are their one field.
pub record BlocksInfoByFinality : Type 0 where
  pub final_block : BlockInfo
  pub optimistic_block : BlockInfo
  pub optimistic_changes : ChangesMap
  pub current_validators : EpochValidatorInfo
  pub current_protocol_version : ℕ

-- What `new` makes of the answers that it waits for; `version` is the constant PROTOCOL_VERSION.
unfoldable pub new_blocks_info :
    BlockView → BlockView → EpochValidatorInfo → ℕ → BlocksInfoByFinality
new_blocks_info final_block optimistic_block validators version = record {
  final_block = new_from_block_view final_block;
  optimistic_block = new_from_block_view optimistic_block;
  optimistic_changes = [];
  current_validators = validators;
  current_protocol_version = version;
}

abbrev pub i64_mod : ℕ
i64_mod = 2 ^ 63

-- `i64::try_from(n)?` on a `u64`.
unfoldable pub i64_try_from : ℕ → Result ℕ
i64_try_from n =
    if ltb n i64_mod then ok n else err (codes "out of range integral type conversion attempted")

-- rpc-server/src/utils.rs: what `get_final_block` makes of the node's answer. It sets a gauge to the
-- block's height, which has to be an `i64`.
unfoldable pub get_final_block : Result BlockView → Result BlockView
get_final_block answer = do block ← answer; i64_try_from block.header.height; ok block

-- The answers that `new` waits for, together.
pub record Fetched : Type 0 where
  pub final_block : BlockView
  pub optimistic_block : BlockView
  pub validators : EpochValidatorInfo

unfoldable pub fetch_latest :
    Result BlockView → Result BlockView → Result EpochValidatorInfo → Result Fetched
fetch_latest final_answer optimistic_answer validators_answer = do
  final_block ← get_final_block final_answer
  optimistic_block ← get_final_block optimistic_answer
  validators ← validators_answer
  ok (record {
    final_block = final_block;
    optimistic_block = optimistic_block;
    validators = validators;
  })

unfoldable pub update_final_block : BlockInfo → BlocksInfoByFinality → BlocksInfoByFinality
update_final_block block_info s = record s { final_block = block_info }

unfoldable pub update_optimistic_block : BlockInfo → BlocksInfoByFinality → BlocksInfoByFinality
update_optimistic_block block_info s = record s {
  optimistic_changes = changes_in_block_account_map block_info;
  optimistic_block = block_info;
}

-- `answer` is what the node says of its latest epoch.
unfoldable pub update_current_epoch_info :
    Result EpochValidatorInfo → Exec BlocksInfoByFinality Unit
update_current_epoch_info (ok validators) s = (ok tt, record s { current_validators = validators })
update_current_epoch_info (err e) s = (err e, s)
update_current_epoch_info (panic p) s = (panic p, s)

unfoldable pub update_current_protocol_version : ℕ → BlocksInfoByFinality → BlocksInfoByFinality
update_current_protocol_version version s = record s { current_protocol_version = version }

abbrev pub final_block_changes : BlocksInfoByFinality → List StateChangeWithCauseView
final_block_changes s = s.final_block.changes

abbrev pub final_cache_block : BlocksInfoByFinality → CacheBlock
final_cache_block s = s.final_block.block_cache

abbrev pub final_block_view : BlocksInfoByFinality → BlockView
final_block_view s = s.final_block.block_view

abbrev pub optimistic_block_changes : BlocksInfoByFinality → List StateChangeWithCauseView
optimistic_block_changes s = s.optimistic_block.changes

abbrev pub optimistic_cache_block : BlocksInfoByFinality → CacheBlock
optimistic_cache_block s = s.optimistic_block.block_cache

abbrev pub optimistic_block_view : BlocksInfoByFinality → BlockView
optimistic_block_view s = s.optimistic_block.block_view

abbrev pub optimistic_account_changes_in_block :
    BlocksInfoByFinality → AccountId → Result (Option AccountView)
optimistic_account_changes_in_block s id = account_changes_in_block s.optimistic_changes id

abbrev pub optimistic_code_changes_in_block :
    BlocksInfoByFinality → AccountId → Result (Option Bytes)
optimistic_code_changes_in_block s id = code_changes_in_block s.optimistic_changes id

abbrev pub optimistic_access_key_changes_in_block :
    BlocksInfoByFinality → AccountId → PublicKey → Result (Option AccessKeyView)
optimistic_access_key_changes_in_block s id key =
    access_key_changes_in_block s.optimistic_changes id key

abbrev pub optimistic_state_changes_in_block :
    BlocksInfoByFinality → AccountId → Bytes → HashMap Bytes (Option Bytes)
optimistic_state_changes_in_block s id prefix =
    state_changes_in_block s.optimistic_changes id prefix

abbrev pub validators : BlocksInfoByFinality → EpochValidatorInfo
validators s = s.current_validators

abbrev pub current_epoch_start_height : BlocksInfoByFinality → ℕ
current_epoch_start_height s = s.current_validators.epoch_start_height
