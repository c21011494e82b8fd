-- ===== src/Tests/Queries.antt =====
-- rpc-server/src/modules/queries/methods.rs: the server of the other tests over a small database.
use read_rpc.Prelude.{
  ℕ, ◌≡◌, ◌≢◌, ◌≤◌, ◌*◌, ◌+◌, ◌&&◌, refl, arith, true, false, none, some, List, [], ◌∷◌, Bytes,
  codes, leb, ltb, if◌then◌else◌, text_eq, text_dec, ℕ_eq, ℕ_discrete, filter,
}
use read_rpc.Prelude.HashMap.{IsMap, lookup}
use read_rpc.Prelude.Outcome.{ok, err}
use read_rpc.Views.{
  AccountView, StateChangeWithCauseView, account_update, access_key_deletion, StreamerMessage,
  height, block_id, RpcQueryRequest, view_state, view_access_key_list, access_key_list,
  unknown_account, unknown_access_key, no_contract_code,
}
use read_rpc.Lru.{get}
use read_rpc.Blocks.Fetch.{
  fetch_block_from_cache_or_get, block_in_memory, fetch_block, block_at, check_block_height,
}
use read_rpc.Blocks.{
  CacheBlock, cache_block, new_from_block_view, new_from_streamer_message,
  changes_in_block_account_map, starts_with,
}
use read_rpc.Blocks.Finality.{
  optimistic_block_changes, optimistic_state_changes_in_block, optimistic_cache_block,
  final_cache_block,
}
use read_rpc.Blocks.Follow.{Server}
use read_rpc.Blocks.Moves.{IsFollowing}
use read_rpc.Blocks.Latest.{last_about, data_value, account_value, code_value, access_key_value}
use read_rpc.Database.{get_shard_connection, data_key_dec, data_key_eq}
use read_rpc.Database.History.{last_entry, history_of}
use read_rpc.Database.Reads.{
  get_account_access_keys, latest_rows, latest_blocks, collect_access_keys,
}
use read_rpc.Database.State.{value_at}
use read_rpc.CodeStorage.{CodeStorage, init, storage_get}
use read_rpc.CodeStorage.Postgres.{reader}
use read_rpc.Queries
use read_rpc.Queries.{Answer, answered, Reader, StateItem, current, optimistic_view_state, respond}
use read_rpc.Queries.Runner.{Vm}
use read_rpc.Queries.Views.{
  postgres_reader, change_or, optimistic_view_state-value, storage_get-view_state,
  optimistic_views_last,
}
use read_rpc.Queries.Call.{
  Node, other_error, proxied, QueryContext, view_state_proofs, dispatch, query_call, query_at,
  query,
}
use read_rpc.Queries.Answers.{query-height, view_state_proofs-node}
use read_rpc.Tests.Crate.{crate}
use read_rpc.Tests.Fixtures.{alice, bob, shard_with}
use read_rpc.Tests.Server.{
  size, view, epoch, later, later-IsFollowing, context, sources, sources-IsByHeight, cached-IsKeyed,
}
use read_rpc.Tests.Database.{codec, pool, db, alice-Serves}

abbrev stored : Reader
stored = postgres_reader codec (λ n. n) (λ id. err (codes "unknown epoch")) db

abbrev block : CacheBlock
block = cache_block (view 8)

optimistic_view_state-value_example :
    (items : List StateItem) × (optimistic_view_state later.blocks_info stored block alice (1 ∷ [])
      ≡ answered items)
    × IsMap items
    × ((key : Bytes)
        → lookup key items ≡ (
            if starts_with (1 ∷ []) key
            then current
                (last_about (data_value key) alice (optimistic_block_changes later.blocks_info))
                (value_at codec pool alice block.block_height key)
            else none))
optimistic_view_state-value_example =
    optimistic_view_state-value crate size codec (λ n. n) (λ id. err (codes "unknown epoch")) db
      later block alice pool (1 ∷ []) later-IsFollowing alice-Serves

value_8 : value_at codec pool alice 8 (1 ∷ []) ≡ some (9 ∷ [])
unfolding last_entry history_of data_key_dec text_dec ℕ_discrete
value_8 = refl

value-not_empty : value_at codec pool alice 8 (1 ∷ []) ≢ some []
value-not_empty e = ground (arith, value_8)

storage_get-view_state_example :
    (items : List StateItem) × (storage : CodeStorage) × (optimistic_view_state later.blocks_info
        stored block alice []
      ≡ answered items)
    × (init
          (reader codec (λ n. n) db)
          alice
          block.block_height
          []
          (optimistic_state_changes_in_block later.blocks_info alice [])
          true
        ≡ ok storage)
    × (storage_get (reader codec (λ n. n) db) storage (1 ∷ []) ≡ ok (lookup (1 ∷ []) items))
unfolding cache_block
storage_get-view_state_example =
    storage_get-view_state crate size codec (λ n. n) (λ id. err (codes "unknown epoch")) db later
      block alice pool [] true (1 ∷ []) later-IsFollowing alice-Serves value-not_empty

-- A server whose optimistic block makes an account for bob and deletes a key of alice.
abbrev made : AccountView
made = record { amount = 10; locked = 0; code_hash = 0; storage_usage = 0 }

abbrev makes : List StateChangeWithCauseView
makes =
    record { cause = 1; value = account_update bob made }
    ∷ record { cause = 2; value = access_key_deletion alice (4 ∷ []) }
    ∷ []

abbrev making : StreamerMessage
making = record { block = view 8; shards = shard_with [] [] makes ∷ [] }

abbrev maker : Server crate size
maker = record later {
  blocks_info = record {
    final_block = new_from_block_view (view 5);
    optimistic_block = new_from_streamer_message making;
    optimistic_changes = changes_in_block_account_map (new_from_streamer_message making);
    current_validators = epoch;
    current_protocol_version = 70;
  };
}

maker-IsFollowing : IsFollowing crate size maker
unfolding new_from_block_view new_from_streamer_message cache_block
maker-IsFollowing = record {
  final = record { header = refl; shown = refl; signed = omega arith };
  optimistic = record { header = refl; shown = refl; signed = omega arith };
  changes = refl;
}

optimistic_views_last_example :
    let info = maker.blocks_info in
    let cs = optimistic_block_changes info in
    (Queries.optimistic_view_account info stored block bob
      ≡ change_or
          (unknown_account bob block.block_height block.block_hash)
          (last_about account_value bob cs)
          (Queries.database_view_account info stored block bob))
    × (Queries.optimistic_view_code info stored block bob
        ≡ change_or
            (no_contract_code bob block.block_height block.block_hash)
            (last_about code_value bob cs)
            (Queries.database_view_code info stored block bob))
    × (Queries.optimistic_view_access_key info stored block bob (4 ∷ [])
        ≡ change_or
            (unknown_access_key (4 ∷ []) block.block_height block.block_hash)
            (last_about (access_key_value (4 ∷ [])) bob cs)
            (Queries.database_view_access_key info stored block bob (4 ∷ [])))
optimistic_views_last_example =
    optimistic_views_last crate size stored maker block bob (4 ∷ []) maker-IsFollowing

abbrev vm : Vm
vm = record {
  Config = ℕ;
  get_config = λ version. version;
  create_random_seed = λ version root. [];
  get_contract_cache_key = λ hash config. hash;
  has = λ key. ok false;
  run = λ contract method_name context storage config. err (codes "unknown method");
}

abbrev node : Node
node = record {
  call = λ request. other_error (codes "the node");
  archival_call = λ request. other_error (codes "the archival node");
}

abbrev Context : Type 0
Context = QueryContext crate size crate (λ code. 1)

-- Epochs of one block, five of which are just as long as the chain.
abbrev queries : Context
queries = record {
  chain = context;
  contract_code_cache = record {
    inner = record { items = []; cap = 10 };
    current_size = 0;
    max_size = 5;
  };
  epoch_length = 1;
  max_gas_burnt = 300;
  prefetch_state_size_limit = 100;
}

-- A block that S3 has and the cache does not, for a key that the database has at that height.
abbrev request : RpcQueryRequest
request = record { block_reference = block_id (height 4); request = view_state alice [] true }

view_state_proofs-node_example :
    let final_height = (final_cache_block queries.chain.server.blocks_info).block_height in
    view_state_proofs crate size crate
      (λ code. 1)
      sources
      stored
      node
      vm
      queries
      (cache_block (view 4))
      request
    ≡ (if leb (5 * queries.epoch_length) final_height
          && ltb final_height ((cache_block (view 4)).block_height + 5 * queries.epoch_length)
        then proxied (node.call request)
        else proxied (node.archival_call request))
unfolding cache_block new_from_block_view
view_state_proofs-node_example =
    view_state_proofs-node crate size crate (λ code. 1) sources stored node vm queries
      (cache_block (view 4)) request (omega arith) (omega arith) (omega arith)

abbrev listing : RpcQueryRequest
listing = record { block_reference = block_id (height 4); request = view_access_key_list alice }

answer_4 :
    (query crate size crate (λ code. 1) sources stored node vm queries listing).0
    ≡ answered (respond later.blocks_info stored (cache_block (view 4)) (access_key_list []))
unfolding query query_at query_call dispatch fetch_block_from_cache_or_get block_in_memory
    fetch_block block_at check_block_height get lookup new_from_block_view new_from_streamer_message
    cache_block ℕ_discrete Queries.view_access_keys_list get_account_access_keys
    get_shard_connection latest_rows latest_blocks filter collect_access_keys
answer_4 = refl

query-height_example :
    ((respond later.blocks_info stored (cache_block (view 4)) (access_key_list [])).block_height
      ≡ 4)
    × (queries.chain.genesis_block_cache.block_height ≤ 4)
    × (4 ≤ (optimistic_cache_block queries.chain.server.blocks_info).block_height)
query-height_example =
    query-height crate size crate (λ code. 1) sources stored node vm queries 4
      (view_access_key_list alice)
      (respond later.blocks_info stored (cache_block (view 4)) (access_key_list [])) refl
      later-IsFollowing cached-IsKeyed sources-IsByHeight answer_4
