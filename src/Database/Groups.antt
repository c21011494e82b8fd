-- ===== src/Database/Groups.antt =====
-- logic-state-indexer/src/lib.rs over database/src/postgres: the groups of changes that are saved one
-- after the other.
use read_rpc.Prelude.{
  ℕ, ◌≡◌, refl, ap, ◌∙◌, Option, none, Option-cases, List, [], ◌∷◌, ◌++◌, ◌==◌, map, if◌then◌else◌,
  arith, text_eq, ℕ_eq,
}
use read_rpc.Prelude.Outcome.{Result, ok, err, panic}
use read_rpc.Prelude.Exec.{Exec, join_all, join, first_error}
use read_rpc.Views.{CryptoHash, ShardId, StateChangeWithCauseView}
use read_rpc.Blocks.Latest.{or_else, last_of}
use read_rpc.StateIndexer.{Group}
use read_rpc.StateIndexer.Groups.{in_groups}
use read_rpc.Database.{DataKey, data_key_eq, PostgresDbManager}
use read_rpc.Database.Reads.{Codec}
use read_rpc.Database.Saves.{save_state_changes_data}
use read_rpc.Database.Stored.{history_in, said, save-history}

module _ {A B : Type 0} where
  pub last_of-append :
      (f : A → Option B) (xs ys : List A)
      → last_of f (xs ++ ys) ≡ or_else (last_of f ys) (last_of f xs)
  unfolding last_of
  last_of-append f [] ys = ground (arith, Option-cases (last_of f ys))
  last_of-append f (x ∷ xs) ys = ground (arith, last_of-append f xs ys, Option-cases (last_of f ys))

pub last_of-map :
    {A B C : Type 0} (f : B → Option C) (g : A → B) (xs : List A)
    → last_of f (map g xs) ≡ last_of (λ x. f (g x)) xs
unfolding last_of
last_of-map f g [] = refl
last_of-map f g (x ∷ xs) = ground (arith, last_of-map f g xs)

module _ {ℓ} {S : Type ℓ} where
  pub join_all_nil : (s : S) → join_all [] s ≡ (ok tt, s)
  unfolding join_all
  join_all_nil s = refl

  -- A list of methods that all succeed is its first, then the rest.
  pub join_all-ok :
      (m : Exec S (Unit {ℓ})) (ms : List (Exec S (Unit {ℓ}))) (s : S)
      → (join_all (m ∷ ms) s).0 ≡ ok tt
      → ((m s).0 ≡ ok tt)
        × ((join_all ms (m s).1).0 ≡ ok tt)
        × ((join_all (m ∷ ms) s).1 ≡ (join_all ms (m s).1).1)
  unfolding join_all
  join_all-ok m ms s h = by_result (m s).0 refl h
    where
      not_ok : (e : _) (r : Result (Unit {ℓ})) → first_error e r ≡ ok tt → ⊥
      not_ok e (ok _) h = cc
      not_ok e (err _) h = cc
      not_ok e (panic _) h = cc

      by_result :
          (r : Result (Unit {ℓ}))
          → (m s).0 ≡ r
          → (join r (join_all ms) (m s).1).0 ≡ ok tt
          → ((m s).0 ≡ ok tt)
            × ((join_all ms (m s).1).0 ≡ ok tt)
            × ((join (m s).0 (join_all ms) (m s).1).1 ≡ (join_all ms (m s).1).1)
      by_result (ok u) e h = (e, h, rw e refl)
      by_result (err x) e h = absurd (not_ok x _ h)
      by_result (panic x) e h = absurd cc

module _ (codec : Codec) (block_height : ℕ) (block_hash : CryptoHash) where
  -- What a change that is stored with a shard says of a key there.
  abbrev pub said_in :
      ShardId → DataKey → ℕ → ShardId × StateChangeWithCauseView → Option (Option (List ℕ))
  said_in s key k (shard_id, change) =
      if shard_id == s then said codec block_height block_hash key k change.value else none

  abbrev pub save_group : Group → Exec PostgresDbManager Unit
  save_group group = save_state_changes_data codec block_height block_hash group.0 group.1

  of_group :
      (s shard_id : ShardId) (key : DataKey) (k : ℕ) (changes : List StateChangeWithCauseView)
      → last_of (said_in s key k) (map (λ c. (shard_id, c)) changes) ≡ (
          if shard_id == s
          then last_of (λ c. said codec block_height block_hash key k c.value) changes
          else none)
  unfolding last_of
  of_group s shard_id key k [] = ground arith
  of_group s shard_id key k (c ∷ cs) = ground (arith, of_group s shard_id key k cs)

  pub save_groups-history :
      (groups : List Group) (db : PostgresDbManager) (s : ShardId) (key : DataKey) (k : ℕ)
      → (join_all (map save_group groups) db).0 ≡ ok tt
      → history_in (join_all (map save_group groups) db).1 s key k
        ≡ or_else (last_of (said_in s key k) (in_groups groups)) (history_in db s key k)
  unfolding last_of
  save_groups-history [] db s key k h =
      ap (λ (after : Result (Unit {0}) × PostgresDbManager). history_in after.1 s key k)
        (join_all_nil db)
  save_groups-history ((shard_id, changes) ∷ groups) db s key k h =
      let (saved, rest, after) =
        join_all-ok (save_group (shard_id, changes)) (map save_group groups) db h in
      let db' = (save_group (shard_id, changes) db).1 in
      ap (λ db. history_in db s key k) after
      ∙ save_groups-history groups db' s key k rest
      ∙ ground (
        arith,
        save-history codec block_height block_hash db shard_id s changes key k saved,
        last_of-append (said_in s key k) (map (λ c. (shard_id, c)) changes) (in_groups groups),
        of_group s shard_id key k changes,
        Option-cases (last_of (said_in s key k) (in_groups groups)),
      )
