-- ===== src/Database/Served.antt =====
-- database/src/postgres and logic-state-indexer/src/lib.rs: a database goes on to serve an account
-- while state changes are saved, and what it reads afterwards.
use read_rpc.Prelude.{
  ℕ, zero, suc, ◌≡◌, ◌<◌, refl, sym, ap, ◌∙◌, Option, none, some, Option-cases, List, ◌==◌, leb,
  Bytes, if◌then◌else◌, arith, text_eq, ℕ_eq,
}
use read_rpc.Prelude.Outcome.{ok}
use read_rpc.Views.{CryptoHash, AccountId, ShardId, StateChangeWithCauseView}
use read_rpc.Rightsizing.{RightsizingConfig}
use read_rpc.Blocks.Latest.{or_else, last_of}
use read_rpc.StateIndexer.{StateChangesToStore, nothing, collect_changes, save_data}
use read_rpc.Database.{DataKey, data_key_eq, Pool, PostgresDbManager}
use read_rpc.Database.History.{History, present, last_entry, history_of}
use read_rpc.Database.Reads.{Codec}
use read_rpc.Database.State.{Serves, value_at}
use read_rpc.Database.Saves.{writer}
use read_rpc.Database.Stored.{history_in}
use read_rpc.Database.Indexed.{encoding, indexed_value, save_data-history}
use read_rpc.Database.Kept.{save_data-After}

-- One more entry at a height, above which there is none.
last_entry-override :
    (f g : History) (height : ℕ) (change : Option (Option Bytes))
    → ((k : ℕ) → g k ≡ or_else (if k == height then change else none) (f k))
    → ((k : ℕ) → height < k → f k ≡ none)
    → (h : ℕ) → last_entry g h ≡ or_else (if leb height h then change else none) (last_entry f h)
unfolding last_entry
last_entry-override f g height change at_k above zero = ground (arith, at_k zero, above zero)
last_entry-override f g height change at_k above (suc h) = ground (
  arith,
  at_k (suc h),
  above (suc h),
  last_entry-override f g height change at_k above h,
  Option-cases change,
  Option-cases (f (suc h)),
)

-- The last indexed change, or else what was there.
abbrev pub changed : Option (Option Bytes) → Option Bytes → Option Bytes
changed none before = before
changed (some value) before = value

present-or_else : (a b : Option (Option Bytes)) → present (or_else a b) ≡ changed a (present b)
present-or_else none b = refl
present-or_else (some a) b = refl

module _ (codec : Codec) (config : RightsizingConfig) (block_height : ℕ)
    (block_hash : CryptoHash) where
  history-served :
      (db : PostgresDbManager) (id : AccountId) (pool : Pool) (key : DataKey) (k : ℕ)
      → Serves codec db id pool
      → history_in db (db.account_id_to_shard_id id) key k
        ≡ history_of pool.state_changes_data key k
  history-served db id pool key k serves = rw (serves.connected, history_in) refl

  -- If the state changes of a block are collected and those to keys of the state are saved, a
  -- database that served an account serves it afterwards, and the value that it then has for a key
  -- of the account is, from the block's height on, what the last indexed change of the block to the
  -- key says, or as before if there is none, and as before below that height. No entry for the key
  -- was stored above the block's height.
  pub save_data-value :
      (db : PostgresDbManager) (changes : List StateChangeWithCauseView)
      (store : StateChangesToStore) (id : AccountId) (key : Bytes) (pool : Pool)
      → collect_changes (encoding codec db.account_id_to_shard_id) config changes nothing ≡ ok store
      → (save_data (writer codec) block_height block_hash store db).0 ≡ ok tt
      → Serves codec db id pool
      → ((k : ℕ)
          → block_height < k
          → history_of pool.state_changes_data (id, codec.hex.encode key) k ≡ none)
      → (pool' : Pool) × Serves codec
          (save_data (writer codec) block_height block_hash store db).1
          id
          pool'
        × ((h : ℕ)
            → value_at codec pool' id h key
              ≡ changed
                  (if leb block_height h
                    then last_of (indexed_value config id key) changes
                    else none)
                  (value_at codec pool id h key))
  save_data-value db changes store id key pool collected saved serves above =
      let db' = (save_data (writer codec) block_height block_hash store db).1 in
      let (same_shards, serving) =
        save_data-After codec block_height block_hash store db id saved in
      let (pool', serves') = serving pool serves in
      let key_of : DataKey = (id, codec.hex.encode key) in
      (
        pool',
        serves',
        λ h.
            ap present (
              last_entry-override (history_of pool.state_changes_data key_of)
                (history_of pool'.state_changes_data key_of) block_height
                (last_of (indexed_value config id key) changes)
                (λ k.
                  sym (history-served db' id pool' key_of k serves')
                  ∙ ap (λ (shard_of : AccountId → ShardId). history_in db' (shard_of id) key_of k)
                      same_shards
                  ∙ save_data-history codec db.account_id_to_shard_id block_height block_hash config
                      changes store db id key k collected saved
                  ∙ ap
                      (or_else (
                        if k == block_height
                        then last_of (indexed_value config id key) changes
                        else none))
                      (history-served db id pool key_of k serves))
                above h)
            ∙ present-or_else
                (if leb block_height h then last_of (indexed_value config id key) changes else none)
                (last_entry (history_of pool.state_changes_data key_of) h),
      )
