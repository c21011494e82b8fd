-- ===== src/Queries/Answers.antt =====
-- rpc-server/src/modules/queries/methods.rs: the block that a query is answered for, the node that
-- is asked for proofs, and what the views of the optimistic block leave out.
use read_rpc.Prelude.{
  ℕ, ◌+◌, ◌*◌, ◌^◌, ◌<◌, ◌≤◌, ◌≡◌, refl, ◌∙◌, Bool, true, false, [], ◌&&◌, Bytes, leb, ltb,
  if◌then◌else◌, sub_u64, arith, text_eq, ℕ_eq,
}
use read_rpc.Prelude.Outcome.{Result, ok, err, panic}
use read_rpc.Views.{
  height, block_id, QueryRequest, view_account, view_code, view_access_key, view_state,
  call_function, view_access_key_list, RpcQueryRequest, RpcQueryResponse, call_result,
}
use read_rpc.Lru.{LruCrate}
use read_rpc.Blocks.{CacheBlock}
use read_rpc.Blocks.Finality.{
  BlocksInfoByFinality, final_cache_block, optimistic_cache_block,
  optimistic_state_changes_in_block,
}
use read_rpc.Blocks.Fetch.{Sources, fetch_block_from_cache_or_get}
use read_rpc.Blocks.Moves.{IsFollowing}
use read_rpc.Blocks.Served.{IsKeyed, IsByHeight, fetch_block_from_cache_or_get-height}
use read_rpc.Queries
use read_rpc.Queries.{Answer, answered, panicked, ◌>>=◌, or_fail, Reader}
use read_rpc.Queries.Runner.{Vm, CodeCrate, run_contract}
use read_rpc.Queries.Call.{
  Node, proxied, expected_earliest_available_block, QueryContext, function_call, view_state_proofs,
  dispatch, on_block, query_call, query_at, query,
}
use read_rpc.Queries.Heights.{
  IsFor, same_height, respond-IsFor, view_account-IsFor, view_code-IsFor, view_access_key-IsFor,
  view_state-IsFor, view_access_keys_list-IsFor,
}

-- A request for the state with its proof.
abbrev pub asks_proof : QueryRequest → Bool
asks_proof (view_state id prefix include_proof) = include_proof
asks_proof _ = false

module _ (l : LruCrate ℕ CacheBlock) (size_of_block : CacheBlock → ℕ) (code_crate : CodeCrate)
    (size_of_code : Bytes → ℕ) (sources : Sources) (reader : Reader) (node : Node) (vm : Vm) where
  abbrev Context : Type 0
  Context = QueryContext l size_of_block code_crate size_of_code

  abbrev blocks_of : Context → BlocksInfoByFinality
  blocks_of context = context.chain.server.blocks_info

  dispatch-IsFor :
      (context : Context) (block : CacheBlock) (request : RpcQueryRequest) (r : QueryRequest)
      (is_optimistic : Bool)
      → asks_proof r ≡ false
      → IsFor block
          (dispatch l size_of_block code_crate size_of_code sources reader node vm context block
            request r is_optimistic).0
  unfolding dispatch function_call
  dispatch-IsFor context block request (view_account id) opt no_proof =
      view_account-IsFor (blocks_of context) reader block id opt
  dispatch-IsFor context block request (view_code id) opt no_proof =
      view_code-IsFor (blocks_of context) reader block id opt
  dispatch-IsFor context block request (view_access_key id key) opt no_proof =
      view_access_key-IsFor (blocks_of context) reader block id key opt
  dispatch-IsFor context block request (view_state id prefix true) opt no_proof = absurd cc
  dispatch-IsFor context block request (view_state id prefix false) opt no_proof =
      view_state-IsFor (blocks_of context) reader block context.prefetch_state_size_limit id prefix
        opt
  dispatch-IsFor context block request (call_function id name args) opt no_proof =
      respond-IsFor (blocks_of context) reader block
        (run_contract (blocks_of context) reader block vm code_crate size_of_code id name args
          context.max_gas_burnt
          (if opt then optimistic_state_changes_in_block (blocks_of context) id [] else [])
          context.prefetch_state_size_limit context.contract_code_cache).0
        (λ r. call_result r.result r.logs)
  dispatch-IsFor context block request (view_access_key_list id) opt no_proof =
      view_access_keys_list-IsFor (blocks_of context) reader block id

  -- A query by height that is answered, and asks for no proof, is answered for the block of that
  -- height, which is neither below the genesis block nor above the optimistic block. The server
  -- meets its invariant, every block in the cache stands under its own height, and S3 answers by
  -- height.
  pub query-height :
      (context : Context) (h : ℕ) (r : QueryRequest) (answer : RpcQueryResponse)
      → asks_proof r ≡ false
      → IsFollowing l size_of_block context.chain.server
      → IsKeyed l size_of_block context.chain.server.blocks_cache
      → IsByHeight l size_of_block sources
      → (query l size_of_block code_crate size_of_code sources reader node vm context
          (record { block_reference = block_id (height h); request = r })).0
        ≡ answered answer
      → (answer.block_height ≡ h)
        × (context.chain.genesis_block_cache.block_height ≤ h)
        × (h ≤ (optimistic_cache_block context.chain.server.blocks_info).block_height)
  unfolding query query_at query_call
  query-height context h r answer no_proof following keyed by_height answers =
      by_block
        (fetch_block_from_cache_or_get l size_of_block sources (block_id (height h))
          context.chain).0
        refl answers
    where
      after : Context
      after = record context {
        chain =
            (fetch_block_from_cache_or_get l size_of_block sources (block_id (height h))
              context.chain).1;
      }

      request : RpcQueryRequest
      request = record { block_reference = block_id (height h); request = r }

      by_block :
          (found : Result CacheBlock)
          → (fetch_block_from_cache_or_get l size_of_block sources
              (block_id (height h))
              context.chain).0
            ≡ found
          → (on_block l size_of_block code_crate size_of_code sources reader node vm found request
              after
              (λ block.
                dispatch l size_of_block code_crate size_of_code sources reader node vm after block
                  request r false)).0
            ≡ answered answer
          → (answer.block_height ≡ h)
            × (context.chain.genesis_block_cache.block_height ≤ h)
            × (h ≤ (optimistic_cache_block context.chain.server.blocks_info).block_height)
      by_block (ok block) found answers =
          let (at, above, below) =
            fetch_block_from_cache_or_get-height l size_of_block sources context.chain h block
              following keyed by_height found in
          (
            same_height block _ answer (dispatch-IsFor after block request r false no_proof) answers
                ∙ at,
            above,
            below,
          )
      by_block (err e) found answers = absurd cc
      by_block (panic p) found answers = absurd cc

  -- A proof of the state is asked of the node exactly if the chain is five epochs long and the
  -- block is less than five epochs below the final block. On a shorter chain the subtraction wraps
  -- round, and every proof is asked of the archival node. The heights and the five epochs are below
  -- 2^63.
  pub view_state_proofs-node :
      (context : Context) (block : CacheBlock) (request : RpcQueryRequest)
      → (final_cache_block context.chain.server.blocks_info).block_height < 2 ^ 63
      → block.block_height < 2 ^ 63
      → 5 * context.epoch_length < 2 ^ 63
      → let final_height = (final_cache_block context.chain.server.blocks_info).block_height in
        view_state_proofs l size_of_block code_crate size_of_code sources reader node vm context
          block request
        ≡ (if leb (5 * context.epoch_length) final_height
              && ltb final_height (block.block_height + 5 * context.epoch_length)
            then proxied (node.call request)
            else proxied (node.archival_call request))
  unfolding view_state_proofs expected_earliest_available_block sub_u64
  view_state_proofs-node context block request fh bh eh = ground arith
