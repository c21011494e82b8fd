-- ===== src/Queries/Views.antt =====
-- rpc-server/src/modules/queries/methods.rs over the server's latest blocks and the database: what
-- the views of the optimistic block answer.
use read_rpc.Prelude.{
  ℕ, ◌≡◌, ◌≢◌, refl, sym, ap, ◌∙◌, Bool, Bool-cases, inl, inr, Option, none, some, Option-cases,
  List, [], ◌∷◌, ◌++◌, Bytes, if◌then◌else◌, arith, text_eq, ℕ_eq,
}
use read_rpc.Prelude.HashMap.{HashMap, IsMap, lookup, insert-IsMap}
use read_rpc.Prelude.Outcome.{Result, ok, err, panic, to_option}
use read_rpc.Views.{
  CryptoHash, AccountId, PublicKey, EpochValidatorInfo, unknown_account, no_contract_code,
  unknown_access_key, RpcQueryError,
}
use read_rpc.Lru.{LruCrate}
use read_rpc.Blocks.{
  CacheBlock, ChangesMap, AccountChangesInBlock, starts_with, with_prefix, state_changes_in_block,
  account_changes_in_block, code_changes_in_block, access_key_changes_in_block, record_changes,
  changes_in_block_account_map,
}
use read_rpc.Blocks.Finality.{optimistic_block_changes, optimistic_state_changes_in_block}
use read_rpc.Blocks.Follow.{Server}
use read_rpc.Blocks.Moves.{IsFollowing}
use read_rpc.Blocks.Served.{optimistic_state_changes_last}
use read_rpc.Blocks.Latest.{
  last_about, account_value, code_value, access_key_value, data_value, account_changes_last,
  code_changes_last, access_key_changes_last,
}
use read_rpc.Database.{Pool, PostgresDbManager}
use read_rpc.Database.Reads.{
  Codec, get_account, get_contract_code, get_access_key, get_account_access_keys,
}
use read_rpc.Database.State.{Serves, value_at, get_account_state-value}
use read_rpc.CodeStorage.{CodeStorage, init, storage_get, get_state_from_db}
use read_rpc.CodeStorage.Postgres.{reader, not_empty, storage_get-value}
use read_rpc.Queries.{
  Answer, answered, failed, panicked, Reader, StateItem, current, overlay, optimistic_items,
  optimistic_view_state, database_view_account, optimistic_view_account, database_view_code,
  optimistic_view_code, database_view_access_key, optimistic_view_access_key,
}
use read_rpc.Queries.Overlaid.{items_lem}

-- `PostgresDBManager` as the reader of the queries. The epochs' validators are a table of their own.
abbrev pub postgres_reader :
    Codec
    → (ℕ → CryptoHash)
    → (CryptoHash → Result (ℕ × EpochValidatorInfo))
    → PostgresDbManager
    → Reader
postgres_reader codec hash_count validators db = record {
  storage = reader codec hash_count db;
  get_account = get_account codec db;
  get_contract_code = get_contract_code codec db;
  get_access_key = get_access_key codec db;
  get_account_access_keys = get_account_access_keys codec db;
  get_validators_by_epoch_id = validators;
}

with_prefix-IsMap :
    (prefix : Bytes) (m : HashMap Bytes (Option Bytes)) → IsMap (with_prefix prefix m)
unfolding with_prefix
with_prefix-IsMap prefix [] = tt
with_prefix-IsMap prefix ((key, value) ∷ m) = elim (Bool-cases (starts_with prefix key)) [
  | inl has ↦ rw has (insert-IsMap key value (with_prefix prefix m) (with_prefix-IsMap prefix m))
  | inr lacks ↦ rw lacks (with_prefix-IsMap prefix m)
]

state_changes_in_block-IsMap :
    (m : ChangesMap) (id : AccountId) (prefix : Bytes) → IsMap (state_changes_in_block m id prefix)
unfolding state_changes_in_block
state_changes_in_block-IsMap m id prefix = by_entry (lookup id m)
  where
    by_entry :
        (entry : Option AccountChangesInBlock)
        → IsMap {V = Option Bytes} (elim entry as (λ _. HashMap Bytes (Option Bytes)) [
          | some acc ↦ with_prefix prefix acc.state_changes
          | none ↦ []
        ])
    by_entry none = tt
    by_entry (some acc) = with_prefix-IsMap prefix acc.state_changes

-- What a change says, or else what the database answers.
abbrev pub change_or : {A : Type 0} → RpcQueryError → Option (Option A) → Answer A → Answer A
change_or error none from_database = from_database
change_or error (some none) from_database = failed error
change_or error (some (some value)) from_database = answered value

abbrev NoPanic : {A : Type 0} → Result A → Type 0
NoPanic (ok a) = Unit
NoPanic (err e) = Unit
NoPanic (panic p) = ⊥

account_changes-NoPanic :
    (m : ChangesMap) (id : AccountId) → NoPanic (account_changes_in_block m id)
unfolding account_changes_in_block
account_changes-NoPanic m id = ground (arith, Option-cases (lookup id m))

code_changes-NoPanic : (m : ChangesMap) (id : AccountId) → NoPanic (code_changes_in_block m id)
unfolding code_changes_in_block
code_changes-NoPanic m id = ground (arith, Option-cases (lookup id m))

access_key_changes-NoPanic :
    (m : ChangesMap) (id : AccountId) (key : PublicKey)
    → NoPanic (access_key_changes_in_block m id key)
unfolding access_key_changes_in_block
access_key_changes-NoPanic m id key = ground (arith, Option-cases (lookup id m))

answer-last :
    {A : Type 0} (r : Result (Option A)) (error : RpcQueryError) (from_database : Answer A)
    → NoPanic r
    → {last : Option (Option A)} → to_option r ≡ last
    → (elim r as (λ _. Answer A) [
      | ok (some value) ↦ answered value
      | ok none ↦ failed error
      | err _ ↦ from_database
      | panic p ↦ panicked p
    ])
      ≡ change_or error last from_database
answer-last (ok none) error from_database calm same =
    ap (λ last. change_or error last from_database) same
answer-last (ok (some a)) error from_database calm same =
    ap (λ last. change_or error last from_database) same
answer-last (err e) error from_database calm same =
    ap (λ last. change_or error last from_database) same
answer-last (panic p) error from_database calm same = absurd calm

module _ (l : LruCrate ℕ CacheBlock) (size_of_val : CacheBlock → ℕ) (codec : Codec)
    (hash_count : ℕ → CryptoHash) (epochs : CryptoHash → Result (ℕ × EpochValidatorInfo))
    (db : PostgresDbManager) where
  abbrev queried : Reader
  queried = postgres_reader codec hash_count epochs db

  -- The state of an account that is answered for the optimistic block: a list that holds each key
  -- once, and holds a key exactly if it starts with the prefix and has a value, which is what the
  -- last change of the optimistic block to it says, or else its value in the database at the
  -- block's height. The server meets its invariant, and the database serves the account.
  pub optimistic_view_state-value :
      (s : Server l size_of_val) (block : CacheBlock) (id : AccountId) (pool : Pool)
      (prefix : Bytes)
      → IsFollowing l size_of_val s
      → Serves codec db id pool
      → (items : List StateItem) × (optimistic_view_state s.blocks_info queried block id prefix
          ≡ answered items)
        × IsMap items
        × ((key : Bytes)
            → lookup key items ≡ (
                if starts_with prefix key
                then current
                    (last_about (data_value key) id (optimistic_block_changes s.blocks_info))
                    (value_at codec pool id block.block_height key)
                else none))
  unfolding optimistic_view_state get_state_from_db
  optimistic_view_state-value s block id pool prefix following serves =
      let (state, selected, map, holds) =
        get_account_state-value codec db id pool block.block_height prefix serves in
      let changes = optimistic_state_changes_in_block s.blocks_info id prefix in
      let listed =
        items_lem state changes map
          (state_changes_in_block-IsMap s.blocks_info.optimistic_changes id prefix) in
      (
        (overlay state changes).0 ++ optimistic_items (overlay state changes).1,
        rw selected refl,
        listed.0,
        λ key.
            listed.1 key
            ∙ ground (
              arith,
              holds key,
              optimistic_state_changes_last l size_of_val s id prefix key following,
            ),
      )

  -- What a contract that runs over the optimistic block reads under a key is what the state of its
  -- account is answered to hold there, if the key's value in the database is not an empty one. The
  -- server meets its invariant, and the database serves the account; fetching the state ahead makes
  -- no difference.
  pub storage_get-view_state :
      (s : Server l size_of_val) (block : CacheBlock) (id : AccountId) (pool : Pool)
      (validators : HashMap AccountId ℕ) (prefetch_state : Bool) (key : Bytes)
      → IsFollowing l size_of_val s
      → Serves codec db id pool
      → value_at codec pool id block.block_height key ≢ some []
      → (items : List StateItem) × (storage : CodeStorage) × (optimistic_view_state s.blocks_info
            queried block id []
          ≡ answered items)
        × (init
              (reader codec hash_count db)
              id
              block.block_height
              validators
              (optimistic_state_changes_in_block s.blocks_info id [])
              prefetch_state
            ≡ ok storage)
        × (storage_get (reader codec hash_count db) storage key ≡ ok (lookup key items))
  unfolding starts_with
  storage_get-view_state s block id pool validators prefetch_state key following serves not_void =
      let (items, viewed, map, holds) =
        optimistic_view_state-value s block id pool [] following serves in
      let (storage, made, reads) =
        storage_get-value codec hash_count db id pool block.block_height validators
          (optimistic_state_changes_in_block s.blocks_info id []) prefetch_state serves in
      (
        items,
        storage,
        viewed,
        made,
        reads key
            ∙ ap ok (
                by_change (lookup key (optimistic_state_changes_in_block s.blocks_info id []))
                  (value_at codec pool id block.block_height key) not_void
                ∙ ap (λ change. current change (value_at codec pool id block.block_height key))
                    (optimistic_state_changes_last l size_of_val s id [] key following)
                ∙ sym (holds key)),
      )
    where
      by_change :
          (change : Option (Option Bytes)) (value : Option Bytes)
          → value ≢ some []
          → elim change as (λ _. Option Bytes) [
            | some v ↦ v
            | none ↦ not_empty codec hash_count db value
          ]
            ≡ current change value
      by_change (some v) value not_void = refl
      by_change none none not_void = refl
      by_change none (some []) not_void = absurd (not_void refl)
      by_change none (some (b ∷ bs)) not_void = refl

module _ (l : LruCrate ℕ CacheBlock) (size_of_val : CacheBlock → ℕ) (source : Reader) where
  -- For a server that meets its invariant, the views of the optimistic block answer for an account,
  -- its code and each of its access keys what the last change of the optimistic block to it says,
  -- with the error for what is unknown after a deletion, and what the database answers at the
  -- block's height if no change of the block is about it.
  pub optimistic_views_last :
      (s : Server l size_of_val) (block : CacheBlock) (id : AccountId) (public_key : PublicKey)
      → IsFollowing l size_of_val s
      → let info = s.blocks_info in
        let cs = optimistic_block_changes info in
        (optimistic_view_account info source block id
          ≡ change_or
              (unknown_account id block.block_height block.block_hash)
              (last_about account_value id cs)
              (database_view_account info source block id))
        × (optimistic_view_code info source block id
            ≡ change_or
                (no_contract_code id block.block_height block.block_hash)
                (last_about code_value id cs)
                (database_view_code info source block id))
        × (optimistic_view_access_key info source block id public_key
            ≡ change_or
                (unknown_access_key public_key block.block_height block.block_hash)
                (last_about (access_key_value public_key) id cs)
                (database_view_access_key info source block id public_key))
  unfolding optimistic_view_account optimistic_view_code optimistic_view_access_key
      changes_in_block_account_map
  optimistic_views_last s block id public_key following =
      let cs = optimistic_block_changes s.blocks_info in
      let m = record_changes cs [] in
      rw following.changes (
        answer-last (account_changes_in_block m id) _ _ (account_changes-NoPanic m id)
            (account_changes_last cs id),
        answer-last (code_changes_in_block m id) _ _ (code_changes-NoPanic m id)
            (code_changes_last cs id),
        answer-last (access_key_changes_in_block m id public_key) _ _
            (access_key_changes-NoPanic m id public_key) (access_key_changes_last cs id public_key),
      )
