-- ===== src/Tests/Fixtures.antt =====
-- A Redis server in memory, texts for hashes and a small history, for the tests.
use read_rpc.Prelude.{
  ℕ, ◌+◌, ◌-◌, ◌≡◌, ◌≢◌, Option, none, some, List, [], ◌∷◌, ◌++◌, Text, Bytes, codes, All, leb,
  if◌then◌else◌, arith, text_eq, get_or,
}
use read_rpc.Prelude.HashMap.{HashMap, lookup, insert, remove, upsert, modify, keys}
use read_rpc.Prelude.Outcome.{ok, err}
use read_rpc.Views.{
  CryptoHash, AccountId, ReceiptView, ExecutionStatusView, ExecutionOutcomeWithIdView,
  IndexerTransactionWithOutcome, IndexerExecutionOutcomeWithReceipt, IndexerShard, BlockHeaderView,
  StreamerMessage, StateChangeWithCauseView,
}
use read_rpc.Primitives.Key.{HashText}
use read_rpc.Backend.{Redis, Backend}

-- One character from 200 on stands for a hash.
abbrev pub hash_of : Text → Option CryptoHash
hash_of (c ∷ []) = if leb 200 c then some (c - 200) else none
hash_of t = none

pub hash_of_char : (h : CryptoHash) → hash_of ((h + 200) ∷ []) ≡ some h
hash_of_char h = ground arith

pub char_plain : (h : CryptoHash) → All (λ c. c ≢ b'_') ((h + 200) ∷ [])
char_plain h = (omega arith, tt)

abbrev pub hashes : HashText
hashes = record {
  to_string = λ h. (h + 200) ∷ [];
  from_str = hash_of;
  from_str-to_string = hash_of_char;
  to_string_plain = char_plain;
}

pub record Server : Type 0 where
  pub strings : HashMap Text Bytes
  pub lists : HashMap Text (List Bytes)

abbrev pub memory : Redis
memory = record {
  State = Server;
  keys = λ pattern s. (ok (keys s.strings), s);
  get = λ key s. (ok (get_or (lookup key s.strings) []), s);
  set = λ key value s. (ok tt, record s { strings = insert key value s.strings });
  del = λ key s. (ok tt, record { strings = remove key s.strings; lists = remove key s.lists });
  rpush = λ key value s.
      (ok tt, record s { lists = upsert key (λ l. l ++ value ∷ []) (value ∷ []) s.lists });
  rpushx = λ key value s. (ok tt, record s { lists = modify key (λ l. l ++ value ∷ []) s.lists });
  lrange = λ key s. (ok (get_or (lookup key s.lists) []), s);
}

abbrev pub backend : Backend
backend = record {
  redis = memory;
  hashes = hashes;
  account_id_to_shard_id = λ id. 0;
  tx_serde = record { to_vec = λ tx. ok []; from_slice = λ bytes. err (codes "unreadable") };
  outcome_serde = record { to_vec = λ o. ok []; from_slice = λ bytes. err (codes "unreadable") };
  receipt_outcome_serde = record {
    to_vec = λ o. ok [];
    from_slice = λ bytes. err (codes "unreadable");
  };
}

abbrev pub connection : Server
connection = record { strings = []; lists = [] }

-- A transaction 1 from alice to bob, converted into the receipt 2, whose execution makes receipt 3.
abbrev pub alice : AccountId
alice = codes "alice.near"

abbrev pub bob : AccountId
bob = codes "bob.near"

abbrev pub outcome : CryptoHash → List CryptoHash → ExecutionStatusView → ExecutionOutcomeWithIdView
outcome id receipt_ids status = record {
  id = id;
  outcome = record { receipt_ids = receipt_ids; status = status };
}

abbrev pub transaction : IndexerTransactionWithOutcome
transaction = record {
  transaction = record { hash = 1; signer_id = alice; receiver_id = bob };
  outcome = outcome 1 (2 ∷ []) (ExecutionStatusView.success_receipt_id 2);
}

abbrev pub receipt : CryptoHash → ReceiptView
receipt id = record { receipt_id = id; receiver_id = bob }

abbrev pub executed_2 : IndexerExecutionOutcomeWithReceipt
executed_2 = record {
  execution_outcome = outcome 2 (3 ∷ []) (ExecutionStatusView.success_value (7 ∷ []));
  receipt = receipt 2;
}

abbrev pub executed_3 : IndexerExecutionOutcomeWithReceipt
executed_3 = record {
  execution_outcome = outcome 3 [] (ExecutionStatusView.success_value []);
  receipt = receipt 3;
}

abbrev pub header : ℕ → BlockHeaderView
header height = record {
  height = height;
  hash = height + 1000;
  timestamp = 0;
  gas_price = 100;
  latest_protocol_version = 70;
  chunks_included = 1;
  prev_state_root = 0;
  epoch_id = 5;
  next_epoch_id = 6;
}

abbrev pub shard_with :
    List IndexerTransactionWithOutcome
    → List IndexerExecutionOutcomeWithReceipt
    → List StateChangeWithCauseView
    → IndexerShard
shard_with transactions outcomes changes = record {
  shard_id = 0;
  chunk = some (record { shard_id = 0; transactions = transactions; receipts = [] });
  receipt_execution_outcomes = outcomes;
  state_changes = changes;
}

abbrev pub block_1 : StreamerMessage
block_1 = record {
  block = record { header = header 1; chunks = [] };
  shards = shard_with (transaction ∷ []) (executed_2 ∷ []) [] ∷ [];
}

abbrev pub block_2 : StreamerMessage
block_2 = record {
  block = record { header = header 2; chunks = [] };
  shards = shard_with [] (executed_3 ∷ []) [] ∷ [];
}
