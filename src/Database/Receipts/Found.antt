-- ===== src/Database/Receipts/Found.antt =====
-- database/src/postgres: a receipt that is saved is found, whatever shard it is in and whichever
-- shards do not answer.
use read_rpc.Prelude.{
  ℕ, ◌*◌, ◌≡◌, refl, ap, ◌∙◌, Option, none, some, Option-cases, List, [], ◌∷◌, All, eqb, length,
  if◌then◌else◌, arith, ℕ_eq, ℕ_discrete, suc,
}
use read_rpc.Prelude.HashMap.{HashMap, lookup, insert}
use read_rpc.Prelude.Outcome.{Result, ok, err, panic, ◌>>=◌}
use read_rpc.Views.{CryptoHash, ShardId}
use read_rpc.Blocks.Latest.{or_else}
use read_rpc.Primitives.{ReceiptRecord}
use read_rpc.Database.Meta.{insert_new, no_rows}
use read_rpc.Database.Meta.Chunks.{lookup-insert_new}
use read_rpc.Database.Receipts.{
  ReceiptPool, ReceiptDb, insert_receipts, executed, on_pool, save_receipts, get_receipt_by_id,
  receipt_in, or_next,
}

-- The first record of a receipt.
unfoldable pub find_receipt : CryptoHash → List ReceiptRecord → Option ReceiptRecord
find_receipt id [] = none
find_receipt id (r ∷ rs) = if eqb r.receipt_id id then some r else find_receipt id rs

lookup-insert_receipts :
    (id : CryptoHash) (rs : List ReceiptRecord) (t : HashMap CryptoHash ReceiptRecord)
    → lookup id (insert_receipts rs t) ≡ or_else (lookup id t) (find_receipt id rs)
unfolding insert_receipts find_receipt
lookup-insert_receipts id [] t = ground (arith, Option-cases (lookup id t))
lookup-insert_receipts id (r ∷ rs) t =
    lookup-insert_receipts id rs (insert_new r.receipt_id r t)
    ∙ ground (arith, lookup-insert_new r.receipt_id id r t, Option-cases (lookup id t))

abbrev pub IsCalm : Result {0} Unit → Type 0
IsCalm (ok _) = Unit
IsCalm (err e) = Unit
IsCalm (panic p) = ⊥

-- A database that answers, with an error or not, and does not have a receipt.
pub record Lacks (id : CryptoHash) (pool : ReceiptPool) : Type 0 where
  pub calm : IsCalm (pool.execute 1)
  pub absent : lookup id pool.receipts_map ≡ none

next_after :
    (e : Result {0} Unit) (rest : Result ReceiptRecord)
    → IsCalm e
    → or_next (e >>= λ _. err no_rows) rest ≡ rest
next_after (ok _) rest calm = refl
next_after (err _) rest calm = refl
next_after (panic _) rest calm = absurd calm

insert_same :
    (shard_id : ShardId) (saved : ReceiptPool) (e : ShardId × ReceiptPool) (db : ReceiptDb)
    → shard_id ≡ e.0
    → insert shard_id saved (e ∷ db) ≡ (shard_id, saved) ∷ db
unfolding insert
insert_same shard_id saved e db same = ground arith

insert_other :
    (shard_id : ShardId) (saved : ReceiptPool) (e : ShardId × ReceiptPool) (db : ReceiptDb)
    → ¬ (shard_id ≡ e.0)
    → insert shard_id saved (e ∷ db) ≡ e ∷ insert shard_id saved db
unfolding insert
insert_other shard_id saved e db other = ground arith

module _ (id : CryptoHash) where
  passes :
      (pool : ReceiptPool) (rest : Result ReceiptRecord)
      → Lacks id pool
      → or_next (receipt_in pool id) rest ≡ rest
  passes pool rest lacks = rw lacks.absent (next_after (pool.execute 1) rest lacks.calm)

  found_after :
      (shard_id : ShardId) (saved : ReceiptPool) (r : ReceiptRecord) (db : ReceiptDb)
      (pool : ReceiptPool)
      → lookup shard_id db ≡ some pool
      → receipt_in saved id ≡ ok r
      → All (λ e. Lacks id e.1) db
      → get_receipt_by_id (insert shard_id saved db) id ≡ ok r
  unfolding get_receipt_by_id lookup
  found_after shard_id saved r [] pool there has lacks = absurd cc
  found_after shard_id saved r (e ∷ db) pool there has lacks = elim (ℕ_discrete shard_id e.0) [
    | yes same ↦
        ap (λ (d : ReceiptDb). get_receipt_by_id d id) (insert_same shard_id saved e db same)
        ∙ ap (λ (found : Result ReceiptRecord). or_next found (get_receipt_by_id db id)) has
    | no other ↦
        ap (λ (d : ReceiptDb). get_receipt_by_id d id) (insert_other shard_id saved e db other)
        ∙ passes e.1 (get_receipt_by_id (insert shard_id saved db) id) lacks.0
        ∙ found_after shard_id saved r db pool (ground (arith, other)) has lacks.1
  ]

  -- When receipts are saved in the database of a shard, which executes every command, this
  -- succeeds, and each of them is found afterwards by its id, as the first record that was given for
  -- it, in whatever order the shards answer. The other shards may answer with errors, but do not
  -- panic, and no shard had that receipt.
  pub save_receipts-found :
      (db : ReceiptDb) (shard_id : ShardId) (pool : ReceiptPool) (receipts : List ReceiptRecord)
      (r : ReceiptRecord)
      → lookup shard_id db ≡ some pool
      → ((n : ℕ) → pool.execute n ≡ ok tt)
      → find_receipt id receipts ≡ some r
      → lookup id pool.receipts_map ≡ none
      → All (λ e. Lacks id e.1) db
      → ((save_receipts shard_id receipts db).0 ≡ ok tt)
        × (get_receipt_by_id (save_receipts shard_id receipts db).1 id ≡ ok r)
  unfolding save_receipts find_receipt
  save_receipts-found db shard_id pool [] r there executes found new lacks = absurd cc
  save_receipts-found db shard_id pool (first ∷ receipts) r there executes found new lacks =
      let saved : ReceiptPool = record pool {
        receipts_map = insert_receipts (first ∷ receipts) pool.receipts_map;
      } in
      let has : lookup id saved.receipts_map ≡ some r =
        lookup-insert_receipts id (first ∷ receipts) pool.receipts_map
        ∙ ground (arith, new, found) in
      let change : ReceiptPool → ReceiptPool = λ pool. record pool {
        receipts_map = insert_receipts (first ∷ receipts) pool.receipts_map;
      } in
      let n = 6 * suc (length receipts) in
      let done : save_receipts shard_id (first ∷ receipts) db ≡ (ok tt, insert shard_id saved db) =
        ap (λ (found : Option ReceiptPool). on_pool shard_id n change found db) there
        ∙ ap (λ (e : Result {0} Unit). executed shard_id change pool e db) (executes n) in
      rw done (refl, found_after shard_id saved r db pool there (rw (executes 1, has) refl) lacks)
