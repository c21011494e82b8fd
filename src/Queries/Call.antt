-- ===== src/Queries/Call.antt =====
-- rpc-server/src/modules/queries/methods.rs: `query` and `query_call`, which find the block of a
-- request and dispatch it to a view, to a contract or to a node. The comparison with another node
-- behind the feature shadow-data-consistency and the metrics are left out.
use read_rpc.Prelude.{
  ℕ, ◌%◌, ◌*◌, Bool, true, false, Option, [], Text, Bytes, ltb, if◌then◌else◌, sub_u64, u64_mod,
  ℕ_eq, text_eq,
}
use read_rpc.Prelude.HashMap.{HashMap}
use read_rpc.Prelude.Outcome.{Result, ok, err, panic}
use read_rpc.Views.{
  AccountId, BlockReference, finality, Finality, QueryRequest, view_account, view_code,
  view_access_key, view_state, call_function, view_access_key_list, RpcQueryRequest, call_result,
  RpcQueryResponse, RpcQueryError, unknown_block, internal_error,
}
use read_rpc.Lru.{LruCrate, LruMemoryCache}
use read_rpc.Blocks.{CacheBlock}
use read_rpc.Blocks.Finality.{
  BlocksInfoByFinality, final_cache_block, optimistic_state_changes_in_block,
}
use read_rpc.Blocks.Fetch.{Sources, ServerContext, fetch_block_from_cache_or_get}
use read_rpc.Queries
use read_rpc.Queries.{Answer, answered, failed, panicked, ◌>>=◌, Reader, respond}
use read_rpc.Queries.Runner.{Vm, CodeCrate, RunContractResponse, run_contract}

-- What a node answers: a response, an error of its handler, or another error with its text.
pub data NodeAnswer : Type 0 where
  response : RpcQueryResponse → NodeAnswer
  handler_error : RpcQueryError → NodeAnswer
  other_error : Text → NodeAnswer

pub record Node : Type 0 where
  pub call : RpcQueryRequest → NodeAnswer
  pub archival_call : RpcQueryRequest → NodeAnswer

unfoldable pub proxied : NodeAnswer → Answer RpcQueryResponse
proxied (response r) = answered r
proxied (handler_error e) = failed e
proxied (other_error text) = failed (internal_error text)

-- What a node of now still has: five epochs back from the final block.
unfoldable pub expected_earliest_available_block : ℕ → ℕ → ℕ
expected_earliest_available_block final_height epoch_length =
    sub_u64 final_height (5 * epoch_length % u64_mod)

module _ (l : LruCrate ℕ CacheBlock) (size_of_block : CacheBlock → ℕ) (code_crate : CodeCrate)
    (size_of_code : Bytes → ℕ) where
  -- `ServerContext`, as far as queries are concerned.
  pub record QueryContext : Type 0 where
    pub chain : ServerContext l size_of_block
    pub contract_code_cache : LruMemoryCache code_crate size_of_code
    pub epoch_length : ℕ
    pub max_gas_burnt : ℕ
    pub prefetch_state_size_limit : ℕ

  abbrev pub blocks_info : QueryContext → BlocksInfoByFinality
  blocks_info context = context.chain.server.blocks_info

  -- An answer and the caches after it.
  abbrev pub Handled : Type 0
  Handled = Answer RpcQueryResponse × QueryContext

  module _ (sources : Sources) (reader : Reader) (node : Node) (vm : Vm) where
    abbrev call_response : CacheBlock → Answer RunContractResponse → Answer RpcQueryResponse
    call_response block called = called >>= λ r. answered (record {
      kind = call_result r.result r.logs;
      block_height = block.block_height;
      block_hash = block.block_hash;
    })

    unfoldable pub function_call :
        QueryContext → CacheBlock → AccountId → Text → Bytes → Bool → Handled
    function_call context block account_id method_name args is_optimistic =
        let maybe_optimistic_data : HashMap Bytes (Option Bytes) =
          if is_optimistic
          then optimistic_state_changes_in_block (blocks_info context) account_id []
          else [] in
        let (called, cache) =
          run_contract (blocks_info context) reader block vm code_crate size_of_code account_id
            method_name args context.max_gas_burnt maybe_optimistic_data
            context.prefetch_state_size_limit context.contract_code_cache in
        (call_response block called, record context { contract_code_cache = cache })

    -- A proof is asked of the node, or of the archival node if the block is too old.
    unfoldable pub view_state_proofs :
        QueryContext → CacheBlock → RpcQueryRequest → Answer RpcQueryResponse
    view_state_proofs context block request =
        let final_height = (final_cache_block (blocks_info context)).block_height in
        if ltb (expected_earliest_available_block final_height context.epoch_length)
          block.block_height
        then proxied (node.call request)
        else proxied (node.archival_call request)

    -- The match on the request, at its block.
    unfoldable pub dispatch :
        QueryContext → CacheBlock → RpcQueryRequest → QueryRequest → Bool → Handled
    dispatch context block request (view_account account_id) is_optimistic =
        (Queries.view_account (blocks_info context) reader block account_id is_optimistic, context)
    dispatch context block request (view_code account_id) is_optimistic =
        (Queries.view_code (blocks_info context) reader block account_id is_optimistic, context)
    dispatch context block request (view_access_key account_id public_key) is_optimistic = (
      Queries.view_access_key (blocks_info context) reader block account_id public_key
          is_optimistic,
      context,
    )
    dispatch context block request (view_state account_id prefix true) is_optimistic =
        (view_state_proofs context block request, context)
    dispatch context block request (view_state account_id prefix false) is_optimistic = (
      Queries.view_state (blocks_info context) reader block context.prefetch_state_size_limit
          account_id prefix is_optimistic,
      context,
    )
    dispatch context block request (call_function account_id method_name args) is_optimistic =
        function_call context block account_id method_name args is_optimistic
    dispatch context block request (view_access_key_list account_id) is_optimistic =
        (Queries.view_access_keys_list (blocks_info context) reader block account_id, context)

    abbrev pub on_block :
        Result CacheBlock → RpcQueryRequest → QueryContext → (CacheBlock → Handled) → Handled
    on_block (ok block) request context go = go block
    on_block (err _) request context go = (failed (unknown_block request.block_reference), context)
    on_block (panic p) request context go = (panicked p, context)

    unfoldable pub query_call : QueryContext → RpcQueryRequest → Bool → Handled
    query_call context request is_optimistic =
        let (found, chain) =
          fetch_block_from_cache_or_get l size_of_block sources request.block_reference
            context.chain in
        let context' = record context { chain = chain } in
        on_block found request context'
          (λ block. dispatch context' block request request.request is_optimistic)

    -- `query` by the block reference of its request.
    unfoldable pub query_at : QueryContext → RpcQueryRequest → BlockReference → Handled
    query_at context request (finality Finality.none) =
        if context.chain.server.is_not_working
        then (proxied (node.call request), context)
        else query_call context request true
    query_at context request _ = query_call context request false

    unfoldable pub query : QueryContext → RpcQueryRequest → Handled
    query context request = query_at context request request.block_reference
