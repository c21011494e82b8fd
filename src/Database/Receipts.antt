-- ===== src/Database/Receipts.antt =====
-- database/src/postgres/tx_indexer.rs and rpc_server.rs: the receipts and outcomes of a shard, and the
-- search for a receipt in all shards, of which the first to answer comes first in the list.
pub mod Found
use read_rpc.Prelude.{
  ℕ, ◌*◌, List, [], ◌∷◌, Text, codes, Option, none, some, is_empty, length, if◌then◌else◌, ℕ_eq,
  text_eq,
}
use read_rpc.Prelude.HashMap.{HashMap, lookup, insert}
use read_rpc.Prelude.Outcome.{Result, ok, err, panic, ok_or, ◌>>=◌, ◌>>◌}
use read_rpc.Prelude.Exec.{Exec}
use read_rpc.Views.{CryptoHash, ShardId}
use read_rpc.Primitives.{ReceiptRecord, OutcomeRecord}
use read_rpc.Database.{no_connection}
use read_rpc.Database.Meta.{insert_new, no_rows}

-- The tables `receipts_map` and `outcomes_map` of a shard, by their primary keys.
pub record ReceiptPool : Type 0 where
  pub execute : ℕ → Result {0} Unit
  pub receipts_map : HashMap CryptoHash ReceiptRecord
  pub outcomes_map : HashMap CryptoHash OutcomeRecord

abbrev pub ReceiptDb : Type 0
ReceiptDb = HashMap ShardId ReceiptPool

unfoldable pub insert_receipts :
    List ReceiptRecord → HashMap CryptoHash ReceiptRecord → HashMap CryptoHash ReceiptRecord
insert_receipts [] table = table
insert_receipts (receipt ∷ receipts) table =
    insert_receipts receipts (insert_new receipt.receipt_id receipt table)

unfoldable pub insert_outcomes :
    List OutcomeRecord → HashMap CryptoHash OutcomeRecord → HashMap CryptoHash OutcomeRecord
insert_outcomes [] table = table
insert_outcomes (outcome ∷ outcomes) table =
    insert_outcomes outcomes (insert_new outcome.outcome_id outcome table)

abbrev pub executed :
    ShardId → (ReceiptPool → ReceiptPool) → ReceiptPool → Result {0} Unit → Exec ReceiptDb Unit
executed shard_id change pool (ok _) db = (ok tt, insert shard_id (change pool) db)
executed shard_id change pool (err e) db = (err e, db)
executed shard_id change pool (panic p) db = (panic p, db)

abbrev pub on_pool :
    ShardId → ℕ → (ReceiptPool → ReceiptPool) → Option ReceiptPool → Exec ReceiptDb Unit
on_pool shard_id n change none db = (err (no_connection shard_id), db)
on_pool shard_id n change (some pool) db = executed shard_id change pool (pool.execute n) db

-- A command to the database of a shard.
abbrev pub command_on : ShardId → ℕ → (ReceiptPool → ReceiptPool) → Exec ReceiptDb Unit
command_on shard_id n change db = on_pool shard_id n change (lookup shard_id db) db

unfoldable pub save_receipts : ShardId → List ReceiptRecord → Exec ReceiptDb Unit
save_receipts shard_id receipts db =
    if is_empty receipts
    then (ok tt, db)
    else command_on shard_id (6 * length receipts)
        (λ pool. record pool { receipts_map = insert_receipts receipts pool.receipts_map }) db

unfoldable pub save_outcomes : ShardId → List OutcomeRecord → Exec ReceiptDb Unit
save_outcomes shard_id outcomes db =
    if is_empty outcomes
    then (ok tt, db)
    else command_on shard_id (6 * length outcomes)
        (λ pool. record pool { outcomes_map = insert_outcomes outcomes pool.outcomes_map }) db

-- `WHERE receipt_id = $1 LIMIT 1`
abbrev pub receipt_in : ReceiptPool → CryptoHash → Result ReceiptRecord
receipt_in pool receipt_id = do pool.execute 1; ok_or (lookup receipt_id pool.receipts_map) no_rows

abbrev pub or_next : Result ReceiptRecord → Result ReceiptRecord → Result ReceiptRecord
or_next (ok receipt) rest = ok receipt
or_next (err _) rest = rest
or_next (panic p) rest = panic p

unfoldable pub get_receipt_by_id : ReceiptDb → CryptoHash → Result ReceiptRecord
get_receipt_by_id [] receipt_id = err (codes "Receipt not found")
get_receipt_by_id ((shard_id, pool) ∷ pools) receipt_id =
    or_next (receipt_in pool receipt_id) (get_receipt_by_id pools receipt_id)
