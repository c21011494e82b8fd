-- ===== src/Tests/Receipts.antt =====
-- database/src/postgres: a receipt in the second of two shards, of which the first is down.
use read_rpc.Prelude.{◌≡◌, refl, some, [], ◌∷◌, codes, ℕ_eq, ℕ_discrete}
use read_rpc.Prelude.HashMap.{lookup}
use read_rpc.Prelude.Outcome.{ok, err}
use read_rpc.Primitives.{ReceiptRecord}
use read_rpc.Database.Receipts.{ReceiptPool, ReceiptDb, save_receipts, get_receipt_by_id}
use read_rpc.Database.Receipts.Found.{find_receipt, save_receipts-found}
use read_rpc.Tests.Fixtures.{alice}

abbrev down : ReceiptPool
down = record { execute = λ n. err (codes "no connection"); receipts_map = []; outcomes_map = [] }

abbrev up : ReceiptPool
up = record { execute = λ n. ok tt; receipts_map = []; outcomes_map = [] }

abbrev db : ReceiptDb
db = (0, down) ∷ (1, up) ∷ []

abbrev receipt : ReceiptRecord
receipt = record {
  receipt_id = 2;
  parent_transaction_hash = 1;
  receiver_id = alice;
  block_height = 10;
  block_hash = 1010;
  shard_id = 1;
}

second : lookup 1 db ≡ some up
unfolding lookup ℕ_discrete
second = refl

save_receipts-found_example :
    ((save_receipts 1 (receipt ∷ []) db).0 ≡ ok tt)
    × (get_receipt_by_id (save_receipts 1 (receipt ∷ []) db).1 2 ≡ ok receipt)
unfolding lookup find_receipt ℕ_discrete
save_receipts-found_example =
    save_receipts-found 2 db 1 up (receipt ∷ []) receipt second (λ n. refl) refl refl
      (record { calm = tt; absent = refl }, (record { calm = tt; absent = refl }, tt))
