-- ===== src/Database/Stored.antt =====
-- database/src/postgres/state_indexer.rs and logic-state-indexer/src/lib.rs: the changes of the keys
-- of the state that are saved in groups, against the histories of the keys.
use read_rpc.Prelude.{
  ℕ, ◌≡◌, refl, sym, ap, ◌∙◌, Bool-cases, ◌&&◌, inl, inr, Option, none, some, List, [], ◌∷◌, ◌==◌,
  ◌*◌, Bytes, Eq, eqb, length, if◌then◌else◌, arith, text_eq, ℕ_eq,
}
use read_rpc.Prelude.HashMap.{lookup, insert, lookup-insert}
use read_rpc.Prelude.Outcome.{Result, ok, err, panic, ok_or, ok-injective, ◌>>=◌, ◌>>◌}
use read_rpc.Views.{
  CryptoHash, ShardId, StateChangeValueView, data_update, data_deletion, StateChangeWithCauseView,
  account_update,
}
use read_rpc.Blocks.Latest.{or_else, last_of}
use read_rpc.Database.{
  Row, DataKey, data_key_eq, Pool, PostgresDbManager, insert_rows, upsert_rows, has_conflict,
  no_connection,
}
use read_rpc.Database.History.{History, history_of, entry, history_of-upsert_rows}
use read_rpc.Database.Reads.{Codec}
use read_rpc.Database.Saves.{
  data_row, with_first, rows_of, commit, write, syntax_error, save_state_changes_data,
}

-- The history of a key in the database of a shard.
abbrev pub history_in : PostgresDbManager → ShardId → DataKey → History
history_in db shard_id key k = elim (lookup shard_id db.shards_pool) [
  | none ↦ none
  | some pool ↦ history_of pool.state_changes_data key k
]

pub insert_rows-ok :
    {K : Type 0} ⦃e : Eq K⦄ (news rows saved : List (Row K))
    → insert_rows news rows ≡ ok saved
    → saved ≡ upsert_rows news rows
unfolding insert_rows
insert_rows-ok [] rows saved h = absurd cc
insert_rows-ok (new ∷ news) rows saved h = elim (Bool-cases (has_conflict (new ∷ news))) [
  | inl twice ↦ absurd (ground (arith, rw twice at h))
  | inr once ↦ sym (ok-injective (rw once at h))
]

-- What a command that succeeds did.
pub record Written {A : Type 0} (shard_id : ShardId) (rows : Result A)
    (command : A → Pool → Result Pool) (db : PostgresDbManager) : Type 0 where
  pub news : A
  pub pool : Pool
  pub saved : Pool
  pub has_rows : rows ≡ ok news
  pub connected : lookup shard_id db.shards_pool ≡ some pool
  pub executed : command news pool ≡ ok saved
  pub after :
      (write shard_id rows command db).1
      ≡ record db { shards_pool = insert shard_id saved db.shards_pool }

pub write-ok :
    {A : Type 0} (shard_id : ShardId) (rows : Result A) (command : A → Pool → Result Pool)
    (db : PostgresDbManager)
    → (write shard_id rows command db).0 ≡ ok tt
    → Written shard_id rows command db
write-ok {A} shard_id rows command db h = by_rows rows refl h
  where
    by_result :
        (news : A) (pool : Pool) (result : Result Pool)
        → rows ≡ ok news
        → lookup shard_id db.shards_pool ≡ some pool
        → command news pool ≡ result
        → (commit shard_id result db).0 ≡ ok tt
        → Written shard_id rows command db
    by_result news pool (ok saved) has_rows connected executed h = record {
      news = news;
      pool = pool;
      saved = saved;
      has_rows = has_rows;
      connected = connected;
      executed = executed;
      after = rw (has_rows, connected, executed) refl;
    }
    by_result news pool (err e) has_rows connected executed h = absurd cc
    by_result news pool (panic e) has_rows connected executed h = absurd cc

    by_pool :
        (news : A) (found : Option Pool)
        → rows ≡ ok news
        → lookup shard_id db.shards_pool ≡ found
        → (commit shard_id (ok_or found (no_connection shard_id) >>= command news) db).0 ≡ ok tt
        → Written shard_id rows command db
    by_pool news none has_rows e h = absurd cc
    by_pool news (some pool) has_rows e h =
        by_result news pool (command news pool) has_rows e refl h

    by_rows :
        (r : Result A)
        → rows ≡ r
        → (write shard_id r command db).0 ≡ ok tt
        → Written shard_id rows command db
    by_rows (ok news) e h = by_pool news (lookup shard_id db.shards_pool) e refl h
    by_rows (err e') e h = absurd cc
    by_rows (panic e') e h = absurd cc

abbrev pub insert_data_rows : Option (List (Row DataKey)) → Pool → Result Pool
insert_data_rows news pool = do
  rows ← ok_or news syntax_error
  pool.execute (5 * length rows)
  saved ← insert_rows rows pool.state_changes_data
  ok (record pool { state_changes_data = saved })

pub insert_data_rows-ok :
    (news : Option (List (Row DataKey))) (pool saved : Pool)
    → insert_data_rows news pool ≡ ok saved
    → (rows : List (Row DataKey)) × (news ≡ some rows)
      × (saved ≡ record pool { state_changes_data = upsert_rows rows pool.state_changes_data })
insert_data_rows-ok none pool saved h = absurd cc
insert_data_rows-ok (some rows) pool saved h =
    by_execute (pool.execute (5 * length rows)) (insert_rows rows pool.state_changes_data) refl h
  where
    by_execute :
        (r : Result {0} Unit) (q : Result (List (Row DataKey)))
        → insert_rows rows pool.state_changes_data ≡ q
        → (r >>= λ _. q >>= λ inserted. ok (record pool { state_changes_data = inserted }))
          ≡ ok saved
        → (rows' : List (Row DataKey)) × (some rows ≡ some rows')
          × (saved ≡ record pool { state_changes_data = upsert_rows rows' pool.state_changes_data })
    by_execute (ok _) (ok inserted) e h = (
      rows,
      refl,
      sym (ok-injective h)
          ∙ ap (λ l. record pool { state_changes_data = l })
              (insert_rows-ok rows pool.state_changes_data inserted e),
    )
    by_execute (ok _) (err _) e h = absurd cc
    by_execute (ok _) (panic _) e h = absurd cc
    by_execute (err _) q e h = absurd cc
    by_execute (panic _) q e h = absurd cc

abbrev pub rows_in : Result (Option (List (Row DataKey))) → List (Row DataKey)
rows_in (ok (some rows)) = rows
rows_in _ = []

module _ (codec : Codec) (block_height : ℕ) (block_hash : CryptoHash) where
  -- What a change of a block says of a key at a height.
  abbrev pub said : DataKey → ℕ → StateChangeValueView → Option (Option Bytes)
  said key k (data_update id key' value) =
      if eqb key (id, codec.hex.encode key') && k == block_height then some (some value) else none
  said key k (data_deletion id key') =
      if eqb key (id, codec.hex.encode key') && k == block_height then some none else none
  said key k _ = none

  said-data_row :
      (key : DataKey) (k : ℕ) (value : StateChangeValueView) (row : Row DataKey)
      → data_row codec block_height block_hash value ≡ ok (some row)
      → entry key k row ≡ said key k value
  unfolding data_row
  said-data_row key k (data_update id key' value) row h = ground arith
  said-data_row key k (data_deletion id key') row h = ground arith
  said-data_row key k (account_update id a) row h = absurd cc
  said-data_row key k _ row h = absurd cc

  said-rows_of :
      (key : DataKey) (k : ℕ) (changes : List StateChangeWithCauseView) (rows : List (Row DataKey))
      → rows_of codec block_height block_hash (data_row codec block_height block_hash) changes
        ≡ ok (some rows)
      → last_of (entry key k) rows ≡ last_of (λ c. said key k c.value) changes
  unfolding last_of rows_of
  said-rows_of key k [] rows h =
      ap (λ (r : Result (Option (List (Row DataKey)))). last_of (entry key k) (rows_in r)) (sym h)
  said-rows_of key k (c ∷ cs) rows h =
      by_parts (data_row codec block_height block_hash c.value) refl
        (rows_of codec block_height block_hash (data_row codec block_height block_hash) cs)
        (λ rest e. said-rows_of key k cs rest e) h
    where
      by_parts :
          (r : Result (Option (Row DataKey)))
          → data_row codec block_height block_hash c.value ≡ r
          → (q : Result (Option (List (Row DataKey))))
          → ((rest : List (Row DataKey))
              → q ≡ ok (some rest)
              → last_of (entry key k) rest ≡ last_of (λ c. said key k c.value) cs)
          → (r >>= λ first. q >>= λ rest. ok (with_first first rest)) ≡ ok (some rows)
          → last_of (entry key k) rows
            ≡ or_else (last_of (λ c. said key k c.value) cs) (said key k c.value)
      by_parts (ok (some row)) e (ok (some rest)) more h =
          ap (λ (r : Result (Option (List (Row DataKey)))). last_of (entry key k) (rows_in r))
            (sym h)
          ∙ ground (arith, more rest refl, said-data_row key k c.value row e)
      by_parts (ok none) e (ok rest) more h = absurd cc
      by_parts (ok (some row)) e (ok none) more h = absurd cc
      by_parts (ok first) e (err _) more h = absurd cc
      by_parts (ok first) e (panic _) more h = absurd cc
      by_parts (err _) e q more h = absurd cc
      by_parts (panic _) e q more h = absurd cc

  pub save-history :
      (db : PostgresDbManager) (shard_id s : ShardId) (changes : List StateChangeWithCauseView)
      (key : DataKey) (k : ℕ)
      → (save_state_changes_data codec block_height block_hash shard_id changes db).0 ≡ ok tt
      → history_in
          (save_state_changes_data codec block_height block_hash shard_id changes db).1
          s
          key
          k
        ≡ or_else
            (if shard_id == s then last_of (λ c. said key k c.value) changes else none)
            (history_in db s key k)
  unfolding save_state_changes_data
  save-history db shard_id s changes key k h =
      let written =
        write-ok shard_id
          (rows_of codec block_height block_hash (data_row codec block_height block_hash) changes)
          insert_data_rows db h in
      let (rows, has_rows, saved) =
        insert_data_rows-ok written.news written.pool written.saved written.executed in
      rw written.after (
        ground (
          arith,
          lookup-insert shard_id s written.saved db.shards_pool,
          written.connected,
          saved,
          ap (λ (s : ShardId). lookup s db.shards_pool),
          history_of-upsert_rows rows written.pool.state_changes_data key k,
          said-rows_of key k changes rows (written.has_rows ∙ ap ok has_rows),
        ))
