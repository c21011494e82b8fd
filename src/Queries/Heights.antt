-- ===== src/Queries/Heights.antt =====
-- rpc-server/src/modules/queries/methods.rs: the block that each view answers for.
use read_rpc.Prelude.{
  ℕ, ◌≡◌, refl, sym, ap, ◌∙◌, Bool, ◌&&◌, Bytes, is_empty, ltb, if◌then◌else◌, text_eq, ℕ_eq,
}
use read_rpc.Views.{
  AccountId, PublicKey, RpcQueryResponse, unknown_account, too_large_contract_state,
  QueryResponseKind, account, contract_code, access_key, state, access_key_list,
}
use read_rpc.Blocks.{CacheBlock}
use read_rpc.Blocks.Finality.{BlocksInfoByFinality}
use read_rpc.Queries
use read_rpc.Queries.{Answer, answered, failed, panicked, ◌>>=◌, or_fail, Reader, respond}

-- An answer is for a block.
pub IsFor : CacheBlock → Answer RpcQueryResponse → Type 0
IsFor block (answered r) = (r.block_height ≡ block.block_height) × (r.block_hash ≡ block.block_hash)
IsFor block (failed e) = Unit
IsFor block (panicked p) = Unit

abbrev height_in : Answer RpcQueryResponse → ℕ
height_in (answered r) = r.block_height
height_in _ = 0

pub respond-IsFor :
    {A : Type 0} (info : BlocksInfoByFinality) (reader : Reader) (block : CacheBlock) (m : Answer A)
    (kind : A → QueryResponseKind)
    → IsFor block (m >>= λ a. answered (respond info reader block (kind a)))
unfolding IsFor
respond-IsFor info reader block (answered a) kind = (refl, refl)
respond-IsFor info reader block (failed e) kind = tt
respond-IsFor info reader block (panicked p) kind = tt

bind-IsFor :
    {A : Type 0} (block : CacheBlock) (m : Answer A) (f : A → Answer RpcQueryResponse)
    → ((a : A) → IsFor block (f a))
    → IsFor block (m >>= f)
unfolding IsFor
bind-IsFor block (answered a) f h = h a
bind-IsFor block (failed e) f h = tt
bind-IsFor block (panicked p) f h = tt

pub same_height :
    (block : CacheBlock) (a : Answer RpcQueryResponse) (answer : RpcQueryResponse)
    → IsFor block a
    → a ≡ answered answer
    → answer.block_height ≡ block.block_height
unfolding IsFor
same_height block (answered x) answer for same = ap height_in (sym same) ∙ for.0
same_height block (failed e) answer for same = absurd cc
same_height block (panicked p) answer for same = absurd cc

module _ (info : BlocksInfoByFinality) (reader : Reader) (block : CacheBlock) where
  pub view_account-IsFor :
      (id : AccountId) (opt : Bool) → IsFor block (Queries.view_account info reader block id opt)
  unfolding Queries.view_account
  view_account-IsFor id opt =
      respond-IsFor info reader block
        (if opt
          then Queries.optimistic_view_account info reader block id
          else Queries.database_view_account info reader block id)
        account

  pub view_code-IsFor :
      (id : AccountId) (opt : Bool) → IsFor block (Queries.view_code info reader block id opt)
  unfolding Queries.view_code
  view_code-IsFor id opt =
      bind-IsFor block
        (if opt
          then Queries.optimistic_view_code info reader block id
          else Queries.database_view_code info reader block id)
        _
        (λ code.
          respond-IsFor info reader block
            (if opt
              then Queries.optimistic_view_account info reader block id
              else Queries.database_view_account info reader block id)
            (λ a. contract_code code a.code_hash))

  pub view_access_key-IsFor :
      (id : AccountId) (key : PublicKey) (opt : Bool)
      → IsFor block (Queries.view_access_key info reader block id key opt)
  unfolding Queries.view_access_key
  view_access_key-IsFor id key opt =
      respond-IsFor info reader block
        (if opt
          then Queries.optimistic_view_access_key info reader block id key
          else Queries.database_view_access_key info reader block id key)
        access_key

  pub view_state-IsFor :
      (limit : ℕ) (id : AccountId) (prefix : Bytes) (opt : Bool)
      → IsFor block (Queries.view_state info reader block limit id prefix opt)
  unfolding Queries.view_state
  view_state-IsFor limit id prefix opt =
      bind-IsFor block
        (or_fail (λ _. unknown_account id block.block_height block.block_hash)
          (reader.get_account id block.block_height))
        _
        (λ found.
          respond-IsFor info reader block
            (if is_empty prefix && ltb limit found.value.storage_usage
              then failed (too_large_contract_state id block.block_height block.block_hash)
              else if opt
              then Queries.optimistic_view_state info reader block id prefix
              else Queries.database_view_state info reader block id prefix)
            state)

  pub view_access_keys_list-IsFor :
      (id : AccountId) → IsFor block (Queries.view_access_keys_list info reader block id)
  unfolding Queries.view_access_keys_list
  view_access_keys_list-IsFor id = respond-IsFor info reader block _ access_key_list
