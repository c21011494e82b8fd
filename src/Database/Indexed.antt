-- ===== src/Database/Indexed.antt =====
-- logic-state-indexer/src/lib.rs over database/src/postgres: the changes of a block that the state
-- indexer stores are what the server reads from that block on.
use read_rpc.Prelude.{
  if_pos, if_neg, ℕ, ◌≡◌, ◌≢◌, refl, sym, ap, ◌∙◌, false, Bool-cases, inl, inr, Option, none, some,
  Option-cases, List, [], ◌∷◌, ◌==◌, Text, Bytes, eqb, eqb-true, eqb_self, codes, if◌then◌else◌,
  arith, text_eq, ℕ_eq,
}
use read_rpc.Prelude.HashMap.{lookup, values}
use read_rpc.Prelude.Outcome.{ok}
use read_rpc.Views.{
  CryptoHash, AccountId, ShardId, StateChangeValueView, data_update, data_deletion, account_update,
  StateChangeWithCauseView,
}
use read_rpc.Rightsizing.{RightsizingConfig, state_should_be_indexed}
use read_rpc.Blocks.Latest.{or_else, last_of, account_of, data_value}
use read_rpc.StateIndexer.{
  Encoding, Changes, ShardedStateChangesWithCause, StateChangesToStore, nothing, suffixed,
  data_text, collect_changes, group_by_shard, save_changes, save_data,
}
use read_rpc.StateIndexer.Keys.{suffixed-injective}
use read_rpc.StateIndexer.Last.{says_data, collect_changes-data}
use read_rpc.StateIndexer.Groups.{group_by_shard_lem}
use read_rpc.StateIndexer.Filed.{place, Filed, IsFiled, collect_changes-IsFiled}
use read_rpc.Database.{DataKey, data_key_eq, PostgresDbManager}
use read_rpc.Database.Reads.{Codec}
use read_rpc.Database.Saves.{writer}
use read_rpc.Database.Stored.{history_in, said}
use read_rpc.Database.Groups.{said_in, save_groups-history, last_of-map}

-- The state indexer's encoding, with the shard layout of the database.
abbrev pub encoding : Codec → (AccountId → ShardId) → Encoding
encoding codec account_id_to_shard_id = record {
  hex = codec.hex;
  to_vec = codec.public_key_to_vec;
  account_id_to_shard_id = account_id_to_shard_id;
}

-- The value that a change to a key of the state gives it: none, if it deletes the key.
abbrev pub new_value : StateChangeValueView → Option Bytes
new_value (data_update id key value) = some value
new_value _ = none

-- What a change says of a key of an account's state, if it is indexed.
abbrev pub indexed_value :
    RightsizingConfig → AccountId → Bytes → StateChangeWithCauseView → Option (Option Bytes)
indexed_value config id key c =
    if state_should_be_indexed config c.value
    then (if eqb (account_of c.value) id then data_value key c.value else none)
    else none

module _ (codec : Codec) (shard_of : AccountId → ShardId) (block_height : ℕ)
    (block_hash : CryptoHash) where
  abbrev key_of : AccountId → Bytes → DataKey
  key_of id key = (id, codec.hex.encode key)

  -- What is said of a key by a change to a key of the state.
  said-place :
      (id id' : AccountId) (key key' : Bytes) (value : StateChangeValueView)
      → place value ≡ some (id', key')
      → (eqb (key_of id key) (key_of id' key') ≡ false)
      → said codec block_height block_hash (key_of id key) block_height value ≡ none
  said-place id id' key key' (data_update i k v) about apart = ground (arith, about)
  said-place id id' key key' (data_deletion i k) about apart = ground (arith, about)
  said-place id id' key key' (account_update i k) about apart = refl
  said-place id id' key key' _ about apart = refl

  abbrev enc : Encoding
  enc = encoding codec shard_of

  said_self :
      (id id' : AccountId) (key key' : Bytes) (value : StateChangeValueView)
      → place value ≡ some (id', key')
      → id ≡ id'
      → key ≡ key'
      → said codec block_height block_hash (key_of id key) block_height value
        ≡ some (new_value value)
  said_self id id' key key' (data_update i k v) about ids keys = ground (
    arith,
    about,
    eqb_self (key_of i k),
    ap (λ (j : AccountId). key_of j key) ids,
    ap (key_of id) keys,
  )
  said_self id id' key key' (data_deletion i k) about ids keys = ground (
    arith,
    about,
    eqb_self (key_of i k),
    ap (λ (j : AccountId). key_of j key) ids,
    ap (key_of id) keys,
  )
  said_self id id' key key' (account_update i k) about ids keys = absurd cc
  said_self id id' key key' _ about ids keys = absurd cc

  abbrev spoken : AccountId → Bytes → ShardedStateChangesWithCause → Option (Option (List ℕ))
  spoken id key c =
      said_in codec block_height block_hash (shard_of id) (key_of id key) block_height
        (c.shard_id, c.state_change)

  abbrev kept : Option ShardedStateChangesWithCause → Option (Option (List ℕ))
  kept none = none
  kept (some c) = some (new_value c.state_change.value)

  same_key :
      (id : AccountId) (key : Bytes) (entry : Text × ShardedStateChangesWithCause)
      (filed : Filed enc entry)
      → entry.0 ≢ data_text enc id key
      → eqb (key_of id key) (key_of filed.account_id filed.key) ≡ false
  same_key id key entry filed apart =
      elim (Bool-cases (eqb (key_of id key) (key_of filed.account_id filed.key))) [
        | inl same ↦
            let equal = eqb-true (key_of id key) (key_of filed.account_id filed.key) same in
            absurd (
              apart
                (filed.under ∙ sym (ap (λ (k : DataKey). suffixed k.0 (codes "_data_") k.1) equal)))
        | inr other ↦ other
      ]

  -- One more entry of the map.
  spoken-cons :
      (id : AccountId) (key : Bytes) (entry : Text × ShardedStateChangesWithCause) (m : Changes)
      (rest : Option (Option (List ℕ)))
      → Filed enc entry
      → lookup entry.0 m ≡ none
      → rest ≡ kept (lookup (data_text enc id key) m)
      → or_else rest (spoken id key entry.1) ≡ kept (lookup (data_text enc id key) (entry ∷ m))
  unfolding lookup
  spoken-cons id key (text, c) m rest filed unique same_rest =
      by_text (text_eq.dec (data_text enc id key) text)
    where
      by_text :
          Dec (data_text enc id key ≡ text)
          → or_else rest (spoken id key c) ≡ kept (lookup (data_text enc id key) ((text, c) ∷ m))
      by_text (yes same) =
          let (ids, keys) =
            suffixed-injective codec.hex (codes "_data") id filed.account_id key filed.key
              (same ∙ filed.under) in
          rw (if_pos _ same) (
            ground (
              arith,
              same_rest,
              unique,
              ap (λ (t : Text). lookup t m) same,
              ap shard_of ids,
              filed.sharded,
              said_self id filed.account_id key filed.key c.state_change.value filed.about ids keys,
            ))
      by_text (no other) = rw (if_neg _ other) (
          ground (
            arith,
            same_rest,
            said-place id filed.account_id key filed.key c.state_change.value filed.about
                (same_key id key (text, c) filed (λ e. other (sym e))),
          ))

  last_of-values :
      (id : AccountId) (key : Bytes) (m : Changes)
      → IsFiled enc m
      → last_of (spoken id key) (values m) ≡ kept (lookup (data_text enc id key) m)
  unfolding last_of lookup
  last_of-values id key [] filed = refl
  last_of-values id key ((text, c) ∷ m) filed =
      spoken-cons id key (text, c) m (last_of (spoken id key) (values m)) filed.1.0 filed.0.0
        (last_of-values id key m (filed.0.1, filed.1.1))

  said_at :
      (key : DataKey) (k : ℕ) (value : StateChangeValueView)
      → said codec block_height block_hash key k value ≡ (
          if k == block_height
          then said codec block_height block_hash key block_height value
          else none)
  said_at key k (data_update id key' v) = ground arith
  said_at key k (data_deletion id key') = ground arith
  said_at key k (account_update id a) = ground arith
  said_at key k _ = ground arith

  spoken_at :
      (id : AccountId) (key : Bytes) (k : ℕ) (cs : List ShardedStateChangesWithCause)
      → last_of
          (λ c.
            said_in codec block_height block_hash
              (shard_of id)
              (key_of id key)
              k
              (c.shard_id, c.state_change))
          cs
        ≡ (if k == block_height then last_of (spoken id key) cs else none)
  unfolding last_of
  spoken_at id key k [] = ground arith
  spoken_at id key k (c ∷ cs) =
      ground (arith, spoken_at id key k cs, said_at (key_of id key) k c.state_change.value)

  save_changes-history :
      (m : Changes) (db : PostgresDbManager) (id : AccountId) (key : Bytes) (k : ℕ)
      → IsFiled enc m
      → (save_changes
          (writer codec)
          block_height
          block_hash
          (writer codec).save_state_changes_data
          m
          db).0
        ≡ ok tt
      → history_in
          (save_changes
            (writer codec)
            block_height
            block_hash
            (writer codec).save_state_changes_data
            m
            db).1
          (shard_of id)
          (key_of id key)
          k
        ≡ or_else
            (if k == block_height then kept (lookup (data_text enc id key) m) else none)
            (history_in db (shard_of id) (key_of id key) k)
  unfolding save_changes lookup
  save_changes-history [] db id key k filed saved = ground arith
  save_changes-history (e ∷ es) db id key k filed saved =
      let changes = values (e ∷ es) in
      save_groups-history codec block_height block_hash (group_by_shard changes) db (shard_of id)
        (key_of id key) k saved
      ∙ ap (λ said. or_else said (history_in db (shard_of id) (key_of id key) k))
          (ap (last_of (said_in codec block_height block_hash (shard_of id) (key_of id key) k))
              (group_by_shard_lem changes).0
            ∙ last_of-map (said_in codec block_height block_hash (shard_of id) (key_of id key) k)
                (λ c. (c.shard_id, c.state_change)) changes
            ∙ spoken_at id key k changes
            ∙ ap (λ said. if k == block_height then said else none)
                (last_of-values id key (e ∷ es) filed))

  module _ (config : RightsizingConfig) where
    abbrev kept_change :
        AccountId → Bytes → StateChangeWithCauseView → Option ShardedStateChangesWithCause
    kept_change id key c =
        if state_should_be_indexed config c.value
        then says_data enc config id key c.value c
        else none

    kept-kept_change :
        (id : AccountId) (key : Bytes) (c : StateChangeWithCauseView)
        → kept (kept_change id key c) ≡ indexed_value config id key c
    kept-kept_change id key c = by_value c.value refl
      where
        by_value :
            (value : StateChangeValueView)
            → c.value ≡ value
            → kept (
                if state_should_be_indexed config value
                then says_data enc config id key value c
                else none)
              ≡ (if state_should_be_indexed config value
                  then (if eqb (account_of value) id then data_value key value else none)
                  else none)
        by_value (data_update i k v) e = ground (arith, ap new_value e)
        by_value (data_deletion i k) e = ground (arith, ap new_value e)
        by_value (account_update i a) e = ground arith
        by_value _ e = ground arith

    kept-last_of :
        (id : AccountId) (key : Bytes) (changes : List StateChangeWithCauseView)
        → kept (last_of (kept_change id key) changes)
          ≡ last_of (indexed_value config id key) changes
    unfolding last_of
    kept-last_of id key [] = refl
    kept-last_of id key (c ∷ cs) = ground (
      arith,
      kept-last_of id key cs,
      kept-kept_change id key c,
      Option-cases (last_of (kept_change id key) cs),
    )

    -- After the changes to keys of the state of a block are saved, the history of each key has at
    -- the block's height the last indexed change to it, and is the same at every other height.
    pub save_data-history :
        (changes : List StateChangeWithCauseView) (store : StateChangesToStore)
        (db : PostgresDbManager) (id : AccountId) (key : Bytes) (k : ℕ)
        → collect_changes enc config changes nothing ≡ ok store
        → (save_data (writer codec) block_height block_hash store db).0 ≡ ok tt
        → history_in
            (save_data (writer codec) block_height block_hash store db).1
            (shard_of id)
            (key_of id key)
            k
          ≡ or_else
              (if k == block_height then last_of (indexed_value config id key) changes else none)
              (history_in db (shard_of id) (key_of id key) k)
    unfolding save_data
    save_data-history changes store db id key k collected saved =
        save_changes-history store.state_data db id key k
          (collect_changes-IsFiled enc config changes nothing store collected (tt, tt)) saved
        ∙ ground (
          arith,
          collect_changes-data enc config changes store id key collected,
          kept-last_of id key changes,
        )
