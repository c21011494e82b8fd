-- ===== src/CodeStorage/Postgres.antt =====
-- rpc-server/src/modules/queries/contract_runner/code_storage.rs over database/src/postgres: what a
-- contract reads in a view call, from the tables of the database.
use read_rpc.Prelude.{
  ℕ, ◌≡◌, refl, sym, ap, ◌∙◌, Bool, true, false, Option, none, some, [], Text, Bytes, is_empty,
  get_or, if◌then◌else◌, text_eq,
}
use read_rpc.Prelude.HashMap.{HashMap, lookup}
use read_rpc.Prelude.Outcome.{Result, ok, ◌>>=◌, ok_or, ok-injective}
use read_rpc.Views.{CryptoHash, AccountId}
use read_rpc.Blocks.{starts_with}
use read_rpc.Database.{Pool, PostgresDbManager}
use read_rpc.Database.Reads.{Codec, get_state_key_value, get_account_state}
use read_rpc.Database.State.{
  Serves, value_at, with_key, get_account_state-value, get_state_key_value-value,
}
use read_rpc.CodeStorage.{
  Database, CodeStorage, get_state_key_value_from_db, get_state_from_db, new_storage, init,
  storage_get, or_value, present,
}
use read_rpc.CodeStorage.Overlay.{stored, IsWholeState, storage_get-visible}

module _ (codec : Codec) (hash_count : ℕ → CryptoHash) (db : PostgresDbManager) where
  -- `PostgresDBManager` as the server's `ReaderDbManager`.
  abbrev pub reader : Database
  reader = record {
    get_state_key_value = get_state_key_value codec db;
    get_account_state = get_account_state codec db;
    hash_count = hash_count;
  }

  -- What is read of an empty value: nothing.
  abbrev pub not_empty : Option Bytes → Option Bytes
  not_empty none = none
  not_empty (some value) = if is_empty value then none else some value

  module _ (account_id : AccountId) (pool : Pool) (serves : Serves codec db account_id pool)
      (h : ℕ) where
    stored-value :
        (key : Bytes)
        → stored reader account_id h key ≡ ok (get_or (value_at codec pool account_id h key) [])
    unfolding get_state_key_value_from_db
    stored-value key =
        let (e, found) = get_state_key_value-value codec db account_id pool h key serves in
        rw found (by_value (value_at codec pool account_id h key) e)
      where
        by_value :
            (value : Option Bytes) (e : Text)
            → (or_value (key, []) (ok_or (with_key codec key value) e) >>= λ found. ok found.1)
              ≡ ok (get_or value [])
        by_value none e = refl
        by_value (some value) e = refl

    get_state_from_db-value :
        (state : HashMap Bytes Bytes)
        → get_state_from_db reader account_id h [] ≡ ok state
        → IsWholeState reader account_id h state
    unfolding get_state_from_db starts_with
    get_state_from_db-value state fetched key =
        let (found, selected, map, holds) =
          get_account_state-value codec db account_id pool h [] serves in
        let same : found ≡ state = ok-injective (ap (or_value []) (sym selected) ∙ fetched) in
        stored-value key
        ∙ ap (λ (value : Option Bytes). ok (get_or value [])) (sym (holds key))
        ∙ ap (λ (state : HashMap Bytes Bytes). ok (get_or (lookup key state) [])) same

    init-ok :
        (validators : HashMap AccountId ℕ) (optimistic_data : HashMap Bytes (Option Bytes))
        (prefetch_state : Bool)
        → (s : CodeStorage) × (init reader account_id h validators optimistic_data prefetch_state
            ≡ ok s)
    unfolding init get_state_from_db
    init-ok validators optimistic_data false = (_, refl)
    init-ok validators optimistic_data true =
        let (found, selected, map, holds) =
          get_account_state-value codec db account_id pool h [] serves in
        (new_storage account_id h validators optimistic_data found, rw selected refl)

  -- For a database that serves an account: the storage of a view call is made, and reads under
  -- every key the optimistic change, or else the value of the last entry of the key's history at
  -- the height or below, where an empty value is none. Fetching the state ahead changes nothing.
  pub storage_get-value :
      (account_id : AccountId) (pool : Pool) (h : ℕ) (validators : HashMap AccountId ℕ)
      (optimistic_data : HashMap Bytes (Option Bytes)) (prefetch_state : Bool)
      → Serves codec db account_id pool
      → (s : CodeStorage) × (init reader account_id h validators optimistic_data prefetch_state
          ≡ ok s)
        × ((key : Bytes)
            → storage_get reader s key
              ≡ ok (elim (lookup key optimistic_data) [
                | some value ↦ value
                | none ↦ not_empty (value_at codec pool account_id h key)
              ]))
  storage_get-value account_id pool h validators optimistic_data prefetch_state serves =
      let (s, made) = init-ok account_id pool serves h validators optimistic_data prefetch_state in
      (
        s,
        made,
        λ key.
            storage_get-visible reader account_id h validators optimistic_data prefetch_state s key
              (get_state_from_db-value account_id pool serves h) made
            ∙ by_change (lookup key optimistic_data) key
                (stored-value account_id pool serves h key),
      )
    where
      by_value :
          (value : Option Bytes) → ok (present reader (get_or value [])) ≡ ok (not_empty value)
      by_value none = refl
      by_value (some value) = refl

      by_change :
          (change : Option (Option Bytes)) (key : Bytes)
          → stored reader account_id h key ≡ ok (get_or (value_at codec pool account_id h key) [])
          → elim change as (λ _. Result (Option Bytes)) [
            | some value ↦ ok value
            | none ↦ stored reader account_id h key >>= λ value. ok (present reader value)
          ]
            ≡ ok (elim change as (λ _. Option Bytes) [
              | some value ↦ value
              | none ↦ not_empty (value_at codec pool account_id h key)
            ])
      by_change (some value) key e = refl
      by_change none key e = rw e (by_value (value_at codec pool account_id h key))
