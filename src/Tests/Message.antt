-- ===== src/Tests/Message.antt =====
-- logic-state-indexer/src/lib.rs: two blocks of different epochs, over a database that takes everything.
use read_rpc.Prelude.{
  ℕ, ◌+◌, ◌≡◌, refl, arith, some, List, [], ◌∷◌, codes, length, ℕ_eq, text_eq, filter, add_u64,
  contains,
}
use read_rpc.Prelude.Outcome.{ok}
use read_rpc.Prelude.Exec.{each, join_all}
use read_rpc.Views.{CryptoHash, EpochValidatorInfo, StreamerMessage}
use read_rpc.Blocks.{state_changes_of}
use read_rpc.Blocks.Finality.{i64_try_from}
use read_rpc.StateIndexer.{
  ChangesDb, handle_state_changes, collect_changes, save_state_changes, save_data, save_access_key,
  save_contract, save_account, save_changes,
}
use read_rpc.StateIndexer.Message.{
  Stats, Services, get_epoch_validators, get_epoch_info_by_id, save_epoch_info, handle_epoch,
  save_message, processed, next_epoch, follow_epoch, handle_streamer_message,
}
use read_rpc.StateIndexer.Counted.{last_epoch, epoch_changes, last_height, handled_counts}
use read_rpc.Tests.Fixtures.{header, hashes}
use read_rpc.Tests.StateIndexer.{enc, everything}

-- The database counts the epochs that are saved.
abbrev taking : ChangesDb
taking = record {
  State = ℕ;
  save_state_changes_data = λ shard changes h hash n. (ok tt, n);
  save_state_changes_access_key = λ shard changes h hash n. (ok tt, n);
  save_state_changes_contract = λ shard changes h hash n. (ok tt, n);
  save_state_changes_account = λ shard changes h hash n. (ok tt, n);
}

abbrev info : EpochValidatorInfo
info = record { epoch_height = 7; epoch_start_height = 1; current_validators = [] }

abbrev services : Services taking
services = record {
  retry = λ n m. m;
  update_meta = λ id h n. (ok tt, n);
  save_block_with_chunks = λ h hash chunks n. (ok tt, n);
  save_validators = λ id h start info end n. (ok tt, n + 1);
  validators_by_epoch_id = λ id n. (ok info, n);
}

abbrev message : ℕ → CryptoHash → StreamerMessage
message h epoch_id = record {
  block = record { header = record (header h) { epoch_id = epoch_id }; chunks = [] };
  shards = [];
}

abbrev messages : List StreamerMessage
messages = message 10 5 ∷ message 11 6 ∷ []

abbrev stats : Stats
stats = record {
  block_heights_processing = [];
  blocks_processed_count = 3;
  last_processed_block_height = 9;
  current_epoch_id = some 5;
  current_epoch_height = 7;
}

abbrev after : Stats
after = record {
  block_heights_processing = [];
  blocks_processed_count = 5;
  last_processed_block_height = 11;
  current_epoch_id = some 6;
  current_epoch_height = 8;
}

run :
    each messages
      (handle_streamer_message hashes enc everything (codes "indexer") taking services)
      (stats, 0)
    ≡ (ok tt, (after, 1))
unfolding each handle_streamer_message save_message handle_epoch get_epoch_info_by_id
    get_epoch_validators save_epoch_info handle_state_changes collect_changes save_state_changes
    save_data save_access_key save_contract save_account save_changes state_changes_of join_all
    processed next_epoch follow_epoch i64_try_from filter contains add_u64
run = refl

handled_counts_example :
    (after.current_epoch_id ≡ some (last_epoch 5 messages))
    × (after.current_epoch_height ≡ stats.current_epoch_height + epoch_changes 5 messages)
    × (after.blocks_processed_count ≡ stats.blocks_processed_count + length messages)
    × (after.last_processed_block_height ≡ last_height stats.last_processed_block_height messages)
handled_counts_example =
    handled_counts hashes enc everything (codes "indexer") taking services messages 5 stats 0
      (after, 1) run refl (omega arith) ((omega arith), ((omega arith), tt)) (omega arith)
      (omega arith)
