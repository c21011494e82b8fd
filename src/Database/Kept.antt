-- ===== src/Database/Kept.antt =====
-- database/src/postgres and logic-state-indexer/src/lib.rs: a database that serves an account goes on
-- to serve it while state changes are saved.
use read_rpc.Prelude.{
  ℕ, ◌≡◌, refl, sym, ap, ◌∙◌, Bool-cases, inl, inr, Option, none, some, List, [], ◌∷◌, get_or,
  Bytes, map, arith, text_eq, ℕ_eq, ℕ_discrete, if_pos,
}
use read_rpc.Prelude.HashMap.{lookup, insert, lookup-insert, values}
use read_rpc.Prelude.Outcome.{Result, ok, err, panic, ◌>>=◌}
use read_rpc.Prelude.Exec.{join_all}
use read_rpc.Views.{
  CryptoHash, AccountId, ShardId, StateChangeValueView, data_update, data_deletion, account_update,
  StateChangeWithCauseView,
}
use read_rpc.StateIndexer.{
  StateChangesToStore, Group, group_by_shard, save_changes, save_data, Changes,
}
use read_rpc.Database.{
  Row, DataKey, data_key_eq, conflicts, upsert_row, upsert_rows, Pool, PostgresDbManager,
}
use read_rpc.Database.History.{upsert_rows-IsTable}
use read_rpc.Database.Reads.{Codec}
use read_rpc.Database.Whole.{IsEncoded}
use read_rpc.Database.State.{Serves}
use read_rpc.Database.Saves.{with_first, data_row, rows_of, save_state_changes_data, writer}
use read_rpc.Database.Stored.{rows_in, insert_data_rows, insert_data_rows-ok, write-ok}
use read_rpc.Database.Groups.{save_group, join_all-ok, join_all_nil}

module _ (codec : Codec) where
  upsert_row-IsEncoded :
      (new : Row DataKey) (rows : List (Row DataKey))
      → IsEncoded codec (new ∷ [])
      → IsEncoded codec rows
      → IsEncoded codec (upsert_row new rows)
  unfolding upsert_row
  upsert_row-IsEncoded new [] hn hr = hn
  upsert_row-IsEncoded new (row ∷ rows) hn hr = elim (Bool-cases (conflicts new row)) [
    | inl same ↦ rw same hr
    | inr other ↦ rw other (hr.0, upsert_row-IsEncoded new rows hn hr.1)
  ]

  upsert_rows-IsEncoded :
      (news rows : List (Row DataKey))
      → IsEncoded codec news
      → IsEncoded codec rows
      → IsEncoded codec (upsert_rows news rows)
  unfolding upsert_rows
  upsert_rows-IsEncoded [] rows hn hr = hr
  upsert_rows-IsEncoded (new ∷ news) rows hn hr =
      upsert_rows-IsEncoded news (upsert_row new rows) hn.1
        (upsert_row-IsEncoded new rows (hn.0, tt) hr)

  module _ (block_height : ℕ) (block_hash : CryptoHash) where
    data_row-IsEncoded :
        (value : StateChangeValueView) (row : Row DataKey)
        → data_row codec block_height block_hash value ≡ ok (some row)
        → (bs : Bytes) × (row.key.1 ≡ codec.hex.encode bs)
    unfolding data_row
    data_row-IsEncoded (data_update id key value) row h = (key, ground arith)
    data_row-IsEncoded (data_deletion id key) row h = (key, ground arith)
    data_row-IsEncoded (account_update id a) row h = absurd cc
    data_row-IsEncoded _ row h = absurd cc

    rows_of-IsEncoded :
        (changes : List StateChangeWithCauseView) (rows : List (Row DataKey))
        → rows_of codec block_height block_hash (data_row codec block_height block_hash) changes
          ≡ ok (some rows)
        → IsEncoded codec rows
    unfolding rows_of
    rows_of-IsEncoded [] rows h = rw (ap rows_in (sym h)) tt
    rows_of-IsEncoded (c ∷ cs) rows h =
        by_parts (data_row codec block_height block_hash c.value) refl
          (rows_of codec block_height block_hash (data_row codec block_height block_hash) cs)
          (λ rest e. rows_of-IsEncoded cs rest e) h
      where
        by_parts :
            (r : Result (Option (Row DataKey)))
            → data_row codec block_height block_hash c.value ≡ r
            → (q : Result (Option (List (Row DataKey))))
            → ((rest : List (Row DataKey)) → q ≡ ok (some rest) → IsEncoded codec rest)
            → (r >>= λ first. q >>= λ rest. ok (with_first first rest)) ≡ ok (some rows)
            → IsEncoded codec rows
        by_parts (ok (some row)) e (ok (some rest)) more h =
            rw (ap rows_in (sym h)) (data_row-IsEncoded c.value row e, more rest refl)
        by_parts (ok none) e (ok rest) more h = absurd cc
        by_parts (ok (some row)) e (ok none) more h = absurd cc
        by_parts (ok first) e (err _) more h = absurd cc
        by_parts (ok first) e (panic _) more h = absurd cc
        by_parts (err _) e q more h = absurd cc
        by_parts (panic _) e q more h = absurd cc

    -- More rows in the database of a shard.
    abbrev with_rows : List (Row DataKey) → Pool → Pool
    with_rows rows pool = record pool {
      state_changes_data = upsert_rows rows pool.state_changes_data;
    }

    insert-Serves :
        (db : PostgresDbManager) (shard_id : ShardId) (old : Pool) (rows : List (Row DataKey))
        (id : AccountId) (pool : Pool)
        → lookup shard_id db.shards_pool ≡ some old
        → IsEncoded codec rows
        → Serves codec db id pool
        → (pool' : Pool) × Serves codec
            (record db { shards_pool = insert shard_id (with_rows rows old) db.shards_pool })
            id
            pool'
    insert-Serves db shard_id old rows id pool found encoded serves =
        elim (ℕ_discrete shard_id (db.account_id_to_shard_id id)) [
          | yes same ↦
              let equal : some old ≡ some pool =
                sym found ∙ ap (λ (s : ShardId). lookup s db.shards_pool) same ∙ serves.connected in
              (
                with_rows rows pool,
                record {
                  connected =
                      lookup-insert shard_id (db.account_id_to_shard_id id) (with_rows rows old)
                        db.shards_pool
                      ∙ if_pos (ℕ_eq.dec shard_id (db.account_id_to_shard_id id)) same
                          (some (with_rows rows old))
                          (lookup (db.account_id_to_shard_id id) db.shards_pool)
                      ∙ ap (λ (found : Option Pool). some (with_rows rows (get_or found pool)))
                          equal;
                  executes = serves.executes;
                  table = upsert_rows-IsTable rows pool.state_changes_data serves.table;
                  encoded =
                      upsert_rows-IsEncoded rows pool.state_changes_data encoded serves.encoded;
                },
              )
          | no other ↦ (
            pool,
            record {
              connected = ground (
                arith,
                serves.connected,
                lookup-insert shard_id (db.account_id_to_shard_id id) (with_rows rows old)
                    db.shards_pool,
              );
              executes = serves.executes;
              table = serves.table;
              encoded = serves.encoded;
            },
          )
        ]

    -- A database that serves an account before serves it after, with the same shards.
    abbrev pub After : AccountId → PostgresDbManager → PostgresDbManager → Type 0
    After id db db' =
        (db'.account_id_to_shard_id ≡ db.account_id_to_shard_id)
        × ((pool : Pool) → Serves codec db id pool → (pool' : Pool) × Serves codec db' id pool')

    save-After :
        (db : PostgresDbManager) (shard_id : ShardId) (changes : List StateChangeWithCauseView)
        (id : AccountId)
        → (save_group codec block_height block_hash (shard_id, changes) db).0 ≡ ok tt
        → After id db (save_group codec block_height block_hash (shard_id, changes) db).1
    unfolding save_state_changes_data
    save-After db shard_id changes id h =
        let written =
          write-ok shard_id
            (rows_of codec block_height block_hash (data_row codec block_height block_hash) changes)
            insert_data_rows db h in
        let (rows, has_rows, saved) =
          insert_data_rows-ok written.news written.pool written.saved written.executed in
        rw (written.after, saved)
          (
            refl,
            λ pool serves.
                insert-Serves db shard_id written.pool rows id pool written.connected
                  (rows_of-IsEncoded changes rows (written.has_rows ∙ ap ok has_rows)) serves,
          )

    groups-After :
        (groups : List Group) (db : PostgresDbManager) (id : AccountId)
        → (join_all (map (save_group codec block_height block_hash) groups) db).0 ≡ ok tt
        → After id db (join_all (map (save_group codec block_height block_hash) groups) db).1
    groups-After [] db id h = rw (join_all_nil db) (refl, λ pool serves. (pool, serves))
    groups-After (group ∷ groups) db id h =
        let save = save_group codec block_height block_hash in
        let (saved, rest, after) = join_all-ok (save group) (map save groups) db h in
        let first = save-After db group.0 group.1 id saved in
        let more = groups-After groups (save group db).1 id rest in
        rw after (
          more.0 ∙ first.0,
          λ pool serves. let (middle, there) = first.1 pool serves in more.1 middle there,
        )

    changes-After :
        (m : Changes) (db : PostgresDbManager) (id : AccountId)
        → (save_changes
            (writer codec)
            block_height
            block_hash
            (writer codec).save_state_changes_data
            m
            db).0
          ≡ ok tt
        → After id db
            (save_changes
              (writer codec)
              block_height
              block_hash
              (writer codec).save_state_changes_data
              m
              db).1
    unfolding save_changes
    changes-After [] db id h = (refl, λ pool serves. (pool, serves))
    changes-After (e ∷ es) db id h = groups-After (group_by_shard (values (e ∷ es))) db id h

    pub save_data-After :
        (store : StateChangesToStore) (db : PostgresDbManager) (id : AccountId)
        → (save_data (writer codec) block_height block_hash store db).0 ≡ ok tt
        → After id db (save_data (writer codec) block_height block_hash store db).1
    unfolding save_data
    save_data-After store db id h = changes-After store.state_data db id h
