-- ===== src/Queries/Runner.antt =====
-- rpc-server/src/modules/queries/contract_runner/mod.rs: how a view call is run. The virtual machine
-- and its cache of compiled contracts are near_vm_runner's; a contract that fails there says why.
use read_rpc.Prelude.{
  ℕ, Bool, true, false, Option, none, some, List, [], ◌++◌, ◌==◌, Text, Bytes, codes, leb,
  if◌then◌else◌, ℕ_eq, text_eq,
}
use read_rpc.Prelude.HashMap.{HashMap, extend}
use read_rpc.Prelude.Outcome.{Result, ok, err, panic, unwrap_or}
use read_rpc.Views.{
  CryptoHash, AccountId, AccountView, unknown_account, invalid_account, contract_execution_error,
  internal_error,
}
use read_rpc.Lru.{LruCrate, LruMemoryCache, put, get}
use read_rpc.Blocks.{CacheBlock}
use read_rpc.Blocks.Finality.{BlocksInfoByFinality, final_cache_block, validators}
use read_rpc.CodeStorage.{CodeStorage, init}
use read_rpc.Queries.{Answer, answered, failed, panicked, ◌>>=◌, or_fail, Reader, passed}

pub record Contract : Type 0 where
  pub contract_code : Option Bytes
  pub hash : CryptoHash

unfoldable pub new_contract : Option Bytes → CryptoHash → Contract
new_contract code hash = record { contract_code = code; hash = hash }

-- `VMContext`, without the fields that are constants of a view call.
pub record VmContext : Type 0 where
  pub current_account_id : AccountId
  pub signer_account_id : AccountId
  pub predecessor_account_id : AccountId
  pub input : Bytes
  pub block_height : ℕ
  pub block_timestamp : ℕ
  pub epoch_height : ℕ
  pub account_balance : ℕ
  pub account_locked_balance : ℕ
  pub storage_usage : ℕ
  pub prepaid_gas : ℕ
  pub random_seed : Bytes

pub data ReturnData : Type 0 where
  value : Bytes → ReturnData
  receipt_index : ℕ → ReturnData
  nothing : ReturnData

pub record VmOutcome : Type 0 where
  pub aborted : Option Text
  pub logs : List Text
  pub return_data : ReturnData

-- `config` stands for the configuration of a protocol version.
pub record Vm : Type 1 where
  pub Config : Type 0
  pub get_config : ℕ → Config
  pub create_random_seed : ℕ → CryptoHash → Bytes
  pub get_contract_cache_key : CryptoHash → Config → CryptoHash
  pub has : CryptoHash → Result Bool
  pub run : Contract → Text → VmContext → CodeStorage → Config → Result VmOutcome

pub record RunContractResponse : Type 0 where
  pub result : Bytes
  pub logs : List Text

abbrev pub CodeCrate : Type 1
CodeCrate = LruCrate CryptoHash Bytes

module _ (info : BlocksInfoByFinality) (reader : Reader) (block : CacheBlock) where
  unfoldable pub epoch_height_and_validators_with_balances : Answer (ℕ × HashMap AccountId ℕ)
  epoch_height_and_validators_with_balances =
      if (final_cache_block info).epoch_id == block.epoch_id
      then (let current = validators info in
          answered (current.epoch_height, extend current.current_validators []))
      else (do
        found ←
            or_fail (λ _. internal_error (codes "Failed to get epoch info"))
              (reader.get_validators_by_epoch_id block.epoch_id)
        answered (found.0, extend found.1.current_validators []))

  abbrev pub account_and_epoch : AccountId → Answer (AccountView × ℕ × HashMap AccountId ℕ)
  account_and_epoch account_id = do
    found ←
        or_fail (λ _. unknown_account account_id block.block_height block.block_hash)
          (reader.get_account account_id block.block_height)
    epoch ← epoch_height_and_validators_with_balances
    answered (found.value, epoch.0, epoch.1)

  module _ (vm : Vm) (l : CodeCrate) (size_of_val : Bytes → ℕ) where
    -- The cache of contract codes comes back beside the answer.
    abbrev pub WithCache : Type 0 → Type 0
    WithCache A = Answer A × LruMemoryCache l size_of_val

    abbrev and_keep : CryptoHash → Answer Bytes → LruMemoryCache l size_of_val → WithCache Contract
    and_keep code_hash (answered code) cache =
        (answered (new_contract (some code) code_hash), put l size_of_val code_hash code cache)
    and_keep code_hash (failed e) cache = (failed e, cache)
    and_keep code_hash (panicked p) cache = (panicked p, cache)

    -- The code of a contract: none if it is compiled already, or from the cache, or from the database.
    unfoldable pub contract_code :
        AccountId → CryptoHash → CryptoHash → LruMemoryCache l size_of_val → WithCache Contract
    contract_code account_id code_hash key cache = elim (unwrap_or (vm.has key) false) [
      | ok true ↦ (answered (new_contract none code_hash), cache)
      | ok false ↦ elim (get l size_of_val code_hash cache) [
        | some code ↦ (answered (new_contract (some code) code_hash), cache)
        | none ↦
            and_keep code_hash
              (or_fail (λ _. invalid_account account_id block.block_height block.block_hash)
                  (reader.get_contract_code account_id block.block_height)
                >>= λ code. answered code.value)
              cache
      ]
      | err e ↦ (failed (internal_error e), cache)
      | panic p ↦ (panicked p, cache)
    ]

    abbrev pub context_of : AccountId → Bytes → AccountView → ℕ → ℕ → VmContext
    context_of account_id args account epoch_height max_gas_burnt = record {
      current_account_id = account_id;
      signer_account_id = account_id;
      predecessor_account_id = account_id;
      input = args;
      block_height = block.block_height;
      block_timestamp = block.block_timestamp;
      epoch_height = epoch_height;
      account_balance = account.amount;
      account_locked_balance = account.locked;
      storage_usage = account.storage_usage;
      prepaid_gas = max_gas_burnt;
      random_seed = vm.create_random_seed block.latest_protocol_version block.state_root;
    }

    abbrev returned : ReturnData → Bytes
    returned (value buf) = buf
    returned _ = []

    unfoldable pub run_response : VmOutcome → Answer RunContractResponse
    run_response outcome = elim outcome.aborted [
      | some error ↦ failed (
          contract_execution_error (codes "wasm execution failed with error: " ++ error)
            block.block_height block.block_hash)
      | none ↦ answered (record { result = returned outcome.return_data; logs = outcome.logs })
    ]

    -- The rest of the call, once the contract is found.
    unfoldable pub run_found :
        AccountId
        → Text
        → VmContext
        → HashMap AccountId ℕ
        → HashMap Bytes (Option Bytes)
        → Bool
        → Contract
        → Answer RunContractResponse
    run_found account_id method_name context stakes optimistic_data prefetch_state contract = do
      code_storage ←
          passed (
            init reader.storage account_id block.block_height stakes optimistic_data prefetch_state)
      outcome ← passed (
          vm.run contract method_name context code_storage
            (vm.get_config block.latest_protocol_version))
      run_response outcome

    abbrev with_contract :
        WithCache Contract → (Contract → Answer RunContractResponse) → WithCache RunContractResponse
    with_contract (found, cache) run = (found >>= run, cache)

    unfoldable pub run_contract :
        AccountId
        → Text
        → Bytes
        → ℕ
        → HashMap Bytes (Option Bytes)
        → ℕ
        → LruMemoryCache l size_of_val
        → WithCache RunContractResponse
    run_contract account_id method_name args max_gas_burnt optimistic_data limit cache =
        elim (account_and_epoch account_id) [
          | answered (account, epoch_height, stakes) ↦
              let key =
                vm.get_contract_cache_key account.code_hash
                  (vm.get_config block.latest_protocol_version) in
              with_contract (contract_code account_id account.code_hash key cache) (
                run_found account_id method_name
                  (context_of account_id args account epoch_height max_gas_burnt) stakes
                  optimistic_data (leb account.storage_usage limit))
          | failed e ↦ (failed e, cache)
          | panicked p ↦ (panicked p, cache)
        ]
