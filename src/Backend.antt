-- ===== src/Backend.antt =====
-- What the indexers run against and do not implement: the Redis server, serde_json, the shard
-- layout of nearcore and the text of hashes. A command may fail, and what it did to the server is
-- then the server's affair.
use read_rpc.Prelude.{Text, Bytes, List}
use read_rpc.Prelude.Outcome.{Result}
use read_rpc.Prelude.Exec.{Exec}
use read_rpc.Views.{
  AccountId, ShardId, ExecutionOutcomeWithIdView, IndexerExecutionOutcomeWithReceipt,
}
use read_rpc.Primitives.{CollectingTransactionDetails}
use read_rpc.Primitives.Key.{HashText}

pub record Redis : Type 1 where
  pub State : Type 0
  pub keys : Text → Exec State (List Text)
  pub get : Text → Exec State Bytes
  pub set : Text → Bytes → Exec State Unit
  pub del : Text → Exec State Unit
  pub rpush : Text → Bytes → Exec State Unit
  pub rpushx : Text → Bytes → Exec State Unit
  pub lrange : Text → Exec State (List Bytes)

-- `utils::to_vec` and `utils::from_slice` at one type.
pub record Serde (A : Type 0) : Type 0 where
  pub to_vec : A → Result Bytes
  pub from_slice : Bytes → Result A

pub record Backend : Type 1 where
  pub redis : Redis
  pub hashes : HashText
  pub account_id_to_shard_id : AccountId → ShardId
  pub tx_serde : Serde CollectingTransactionDetails
  pub outcome_serde : Serde ExecutionOutcomeWithIdView
  pub receipt_outcome_serde : Serde IndexerExecutionOutcomeWithReceipt
