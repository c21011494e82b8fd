-- ===== src/Tests/StateIndexer.antt =====
-- logic-state-indexer/src/lib.rs: the changes of a small block.
use read_rpc.Prelude.{ℕ, ◌≡◌, refl, none, List, [], ◌∷◌, Bytes, if◌then◌else◌, text_eq}
use read_rpc.Prelude.HashMap.{lookup}
use read_rpc.Prelude.Outcome.{ok}
use read_rpc.Views.{
  PublicKey, StateChangeWithCauseView, StateChangeValueView, account_update, account_deletion,
  data_update, data_deletion, contract_code_update, access_key_deletion,
}
use read_rpc.Rightsizing.{RightsizingConfig, state_should_be_indexed}
use read_rpc.Blocks.Latest.{last_of}
use read_rpc.StateIndexer.{
  Encoding, ShardedStateChangesWithCause, StateChangesToStore, nothing, data_text, collect_changes,
}
use read_rpc.StateIndexer.Last.{says_data, collect_changes-data, collect_changes-ok}
use read_rpc.Tests.Fixtures.{alice, bob}
use read_rpc.Tests.Requests.{hex}

abbrev pub enc : Encoding
enc = record { hex = hex; to_vec = λ key. ok (0 ∷ key); account_id_to_shard_id = λ id. 0 }

abbrev pub everything : RightsizingConfig
everything = record { tracked_accounts = []; tracked_changes = [] }

abbrev change : ℕ → StateChangeValueView → StateChangeWithCauseView
change cause value = record { cause = cause; value = value }

abbrev block : List StateChangeWithCauseView
block =
    change 1 (data_update alice (1 ∷ []) (9 ∷ []))
    ∷ change 2 (
        account_update alice (record { amount = 10; locked = 0; code_hash = 0; storage_usage = 0 }))
    ∷ change 3 (contract_code_update bob (5 ∷ []))
    ∷ change 4 (access_key_deletion alice (4 ∷ []))
    ∷ change 5 (data_deletion alice (1 ∷ []))
    ∷ change 6 (account_deletion alice)
    ∷ []

encodes : (key : PublicKey) → (bytes : Bytes) × (enc.to_vec key ≡ ok bytes)
encodes key = (0 ∷ key, refl)

collected :
    (store : StateChangesToStore) × (collect_changes enc everything block nothing ≡ ok store)
collected = collect_changes-ok enc everything encodes block nothing

collect_changes-data_example :
    lookup (data_text enc alice (1 ∷ [])) collected.0.state_data
    ≡ last_of
        (λ c.
          if state_should_be_indexed everything c.value
          then says_data enc everything alice (1 ∷ []) c.value c
          else none)
        block
collect_changes-data_example =
    collect_changes-data enc everything block collected.0 alice (1 ∷ []) collected.1

abbrev three : List ShardedStateChangesWithCause
three =
    record { shard_id = 0; state_change = change 1 (account_deletion alice) }
    ∷ record { shard_id = 1; state_change = change 2 (account_deletion bob) }
    ∷ record { shard_id = 1; state_change = change 3 (account_deletion bob) }
    ∷ []
