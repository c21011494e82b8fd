-- ===== src/Views.antt =====
-- The records of near_indexer_primitives that the program reads, with the fields that it reads. A
-- hash is a 256-bit number, an account a text. `TxExecutionError` and access permissions are only
-- carried along: a number stands for them.
use read_rpc.Prelude.{ℕ, Bool, Option, List, Text, Bytes, ℕ_eq, text_eq}

abbrev pub CryptoHash : Type 0
CryptoHash = ℕ

abbrev pub AccountId : Type 0
AccountId = Text

abbrev pub ShardId : Type 0
ShardId = ℕ

pub record SignedTransactionView : Type 0 where
  pub hash : CryptoHash
  pub signer_id : AccountId
  pub receiver_id : AccountId

pub record ReceiptView : Type 0 where
  pub receipt_id : CryptoHash
  pub receiver_id : AccountId

pub data ExecutionStatusView : Type 0 where
  unknown : ExecutionStatusView
  failure : ℕ → ExecutionStatusView
  success_value : Bytes → ExecutionStatusView
  success_receipt_id : CryptoHash → ExecutionStatusView

pub data FinalExecutionStatus : Type 0 where
  not_started started : FinalExecutionStatus
  failure : ℕ → FinalExecutionStatus
  success_value : Bytes → FinalExecutionStatus

pub record ExecutionOutcomeView : Type 0 where
  pub receipt_ids : List CryptoHash
  pub status : ExecutionStatusView

pub record ExecutionOutcomeWithIdView : Type 0 where
  pub id : CryptoHash
  pub outcome : ExecutionOutcomeView

pub record IndexerExecutionOutcomeWithReceipt : Type 0 where
  pub execution_outcome : ExecutionOutcomeWithIdView
  pub receipt : ReceiptView

pub record IndexerTransactionWithOutcome : Type 0 where
  pub transaction : SignedTransactionView
  pub outcome : ExecutionOutcomeWithIdView

pub record FinalExecutionOutcomeView : Type 0 where
  pub status : FinalExecutionStatus
  pub transaction : SignedTransactionView
  pub transaction_outcome : ExecutionOutcomeWithIdView
  pub receipts_outcome : List ExecutionOutcomeWithIdView

pub record FinalExecutionOutcomeWithReceiptView : Type 0 where
  pub final_outcome : FinalExecutionOutcomeView
  pub receipts : List ReceiptView

pub record AccountView : Type 0 where
  pub amount : ℕ
  pub locked : ℕ
  pub code_hash : CryptoHash
  pub storage_usage : ℕ

pub record AccessKeyView : Type 0 where
  pub nonce : ℕ
  pub permission : ℕ

abbrev pub PublicKey : Type 0
PublicKey = Bytes

pub data StateChangeValueView : Type 0 where
  account_update : AccountId → AccountView → StateChangeValueView
  account_deletion : AccountId → StateChangeValueView
  access_key_update : AccountId → PublicKey → AccessKeyView → StateChangeValueView
  access_key_deletion : AccountId → PublicKey → StateChangeValueView
  data_update : AccountId → Bytes → Bytes → StateChangeValueView
  data_deletion : AccountId → Bytes → StateChangeValueView
  contract_code_update : AccountId → Bytes → StateChangeValueView
  contract_code_deletion : AccountId → StateChangeValueView

-- `StateChangeWithCauseView`: the cause is carried along.
pub record StateChangeWithCauseView : Type 0 where
  pub cause : ℕ
  pub value : StateChangeValueView

pub record IndexerChunkView : Type 0 where
  pub shard_id : ShardId
  pub transactions : List IndexerTransactionWithOutcome
  pub receipts : List ReceiptView

pub record IndexerShard : Type 0 where
  pub shard_id : ShardId
  pub chunk : Option IndexerChunkView
  pub receipt_execution_outcomes : List IndexerExecutionOutcomeWithReceipt
  pub state_changes : List StateChangeWithCauseView

pub record BlockHeaderView : Type 0 where
  pub height : ℕ
  pub hash : CryptoHash
  pub timestamp : ℕ
  pub gas_price : ℕ
  pub latest_protocol_version : ℕ
  pub chunks_included : ℕ
  pub prev_state_root : CryptoHash
  pub epoch_id : CryptoHash
  pub next_epoch_id : CryptoHash

-- A chunk of a block is its hash with its shard and the height that includes it.
pub record BlockView : Type 0 where
  pub header : BlockHeaderView
  pub chunks : List (CryptoHash × ShardId × ℕ)

pub record StreamerMessage : Type 0 where
  pub block : BlockView
  pub shards : List IndexerShard

pub record EpochValidatorInfo : Type 0 where
  pub epoch_height : ℕ
  pub epoch_start_height : ℕ
  pub current_validators : List (AccountId × ℕ)

pub data Finality : Type 0 where
  none doom_slug final : Finality

pub data SyncCheckpoint : Type 0 where
  genesis earliest_available : SyncCheckpoint

pub data BlockId : Type 0 where
  height : ℕ → BlockId
  hash : CryptoHash → BlockId

pub data BlockReference : Type 0 where
  block_id : BlockId → BlockReference
  finality : Finality → BlockReference
  sync_checkpoint : SyncCheckpoint → BlockReference

pub record ChunkView : Type 0 where
  pub shard_id : ShardId
  pub transactions : List SignedTransactionView
  pub receipts : List ReceiptView

pub data QueryRequest : Type 0 where
  view_account view_code : AccountId → QueryRequest
  view_access_key : AccountId → PublicKey → QueryRequest
  view_state : AccountId → Bytes → Bool → QueryRequest
  call_function : AccountId → Text → Bytes → QueryRequest
  view_access_key_list : AccountId → QueryRequest

pub record RpcQueryRequest : Type 0 where
  pub block_reference : BlockReference
  pub request : QueryRequest

pub data QueryResponseKind : Type 0 where
  account : AccountView → QueryResponseKind
  contract_code : Bytes → CryptoHash → QueryResponseKind
  access_key : AccessKeyView → QueryResponseKind
  state : List (Bytes × Bytes) → QueryResponseKind
  call_result : Bytes → List Text → QueryResponseKind
  access_key_list : List (PublicKey × AccessKeyView) → QueryResponseKind

pub record RpcQueryResponse : Type 0 where
  pub kind : QueryResponseKind
  pub block_height : ℕ
  pub block_hash : CryptoHash

-- `RpcQueryError`, as far as the server makes it.
pub data RpcQueryError : Type 0 where
  unknown_block : BlockReference → RpcQueryError
  unknown_account invalid_account no_contract_code too_large_contract_state :
      AccountId → ℕ → CryptoHash → RpcQueryError
  unknown_access_key : PublicKey → ℕ → CryptoHash → RpcQueryError
  contract_execution_error : Text → ℕ → CryptoHash → RpcQueryError
  internal_error : Text → RpcQueryError
