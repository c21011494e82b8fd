-- ===== src/StateIndexer/Message.antt =====
-- logic-state-indexer/src/lib.rs and epoch/mod.rs: how the state indexer handles a block: its epoch,
-- its chunks, its state changes and its height are saved, and the statistics follow. The database,
-- the node and the retrying are parameters, over a state of their own.
use read_rpc.Prelude.{
  ℕ, not, Option, none, some, List, [], ◌∷◌, ◌++◌, ◌==◌, Text, codes, filter, contains,
  if◌then◌else◌, add_u64, ℕ_eq, text_eq,
}
use read_rpc.Prelude.Outcome.{Result, ok, err, panic}
use read_rpc.Prelude.Exec.{Exec, pure, ◌>>=◌, join_all}
use read_rpc.Views.{CryptoHash, ShardId, EpochValidatorInfo, StreamerMessage}
use read_rpc.Rightsizing.{RightsizingConfig}
use read_rpc.Primitives.Key.{HashText}
use read_rpc.Blocks.Finality.{i64_try_from}
use read_rpc.StateIndexer.{Encoding, ChangesDb, handle_state_changes}

-- `metrics::Stats`; the `BTreeSet` is a list without repetitions.
pub record Stats : Type 0 where
  pub block_heights_processing : List ℕ
  pub blocks_processed_count : ℕ
  pub last_processed_block_height : ℕ
  pub current_epoch_id : Option CryptoHash
  pub current_epoch_height : ℕ

pub record IndexedEpochInfo : Type 0 where
  pub epoch_id : CryptoHash
  pub epoch_height : ℕ
  pub epoch_start_height : ℕ
  pub validators_info : EpochValidatorInfo

-- What the handler calls beside saving state changes. `retry` is `Retry::spawn` of tokio_retry, with
-- the number that is taken of the intervals.
pub record Services (db : ChangesDb) : Type 1 where
  pub retry : {A : Type 0} → ℕ → Exec db.State A → Exec db.State A
  pub update_meta : Text → ℕ → Exec db.State Unit
  pub save_block_with_chunks : ℕ → CryptoHash → List (CryptoHash × ShardId × ℕ) → Exec db.State Unit
  pub save_validators : CryptoHash → ℕ → ℕ → EpochValidatorInfo → CryptoHash → Exec db.State Unit
  pub validators_by_epoch_id : CryptoHash → Exec db.State EpochValidatorInfo

abbrev pub save_attempts : ℕ
save_attempts = 20

-- `epoch_height.unwrap_or(…)`
abbrev handled_height : Option ℕ → IndexedEpochInfo → ℕ
handled_height none epoch = epoch.epoch_height
handled_height (some h) epoch = h

abbrev pub insert_height : ℕ → List ℕ → List ℕ
insert_height h hs = if contains h hs then hs else h ∷ hs

abbrev pub remove_height : ℕ → List ℕ → List ℕ
remove_height h hs = filter (λ k. not (k == h)) hs

module _ (hashes : HashText) (enc : Encoding) (config : RightsizingConfig) (indexer_id : Text)
    (db : ChangesDb) (services : Services db) where
  abbrev explained : CryptoHash → Result EpochValidatorInfo → Result EpochValidatorInfo
  explained epoch_id (ok info) = ok info
  explained epoch_id (err e) = err (
      codes "Failed to fetch epoch validators for epoch_id "
      ++ hashes.to_string epoch_id
      ++ codes ": "
      ++ e)
  explained epoch_id (panic p) = panic p

  unfoldable pub get_epoch_validators : CryptoHash → Exec db.State EpochValidatorInfo
  get_epoch_validators epoch_id s =
      let (r, s') = services.retry save_attempts (services.validators_by_epoch_id epoch_id) s in
      (explained epoch_id r, s')

  unfoldable pub get_epoch_info_by_id : CryptoHash → Exec db.State IndexedEpochInfo
  get_epoch_info_by_id epoch_id = get_epoch_validators epoch_id >>= λ validators_info.
      pure (record {
        epoch_id = epoch_id;
        epoch_height = validators_info.epoch_height;
        epoch_start_height = validators_info.epoch_start_height;
        validators_info = validators_info;
      })

  unfoldable pub save_epoch_info : IndexedEpochInfo → Option ℕ → CryptoHash → Exec db.State Unit
  save_epoch_info epoch handled_epoch_height epoch_end_block_hash =
      services.save_validators epoch.epoch_id (handled_height handled_epoch_height epoch)
        epoch.epoch_start_height epoch.validators_info epoch_end_block_hash

  unfoldable pub handle_epoch : Option CryptoHash → ℕ → CryptoHash → CryptoHash → Exec db.State Unit
  handle_epoch none stats_current_epoch_height current_epoch_id next_epoch_id = pure tt
  handle_epoch (some stats_epoch_id) stats_current_epoch_height current_epoch_id next_epoch_id =
      if stats_epoch_id == current_epoch_id
      then pure tt
      else (get_epoch_info_by_id stats_epoch_id >>= λ epoch_info.
          save_epoch_info epoch_info (some stats_current_epoch_height) next_epoch_id)

  -- The four futures that are joined.
  unfoldable pub save_message : StreamerMessage → Stats → Exec db.State Unit
  save_message message stats =
      let header = message.block.header in
      join_all (
        handle_epoch stats.current_epoch_id stats.current_epoch_height header.epoch_id
          header.next_epoch_id
        ∷ services.retry save_attempts
            (services.save_block_with_chunks header.height header.hash message.block.chunks)
        ∷ services.retry save_attempts (handle_state_changes enc config db message)
        ∷ services.update_meta indexer_id header.height
        ∷ [])

  -- The statistics of a block that is saved, but the epoch.
  unfoldable pub processed : ℕ → Stats → Stats
  processed block_height stats = record stats {
    block_heights_processing = remove_height block_height stats.block_heights_processing;
    blocks_processed_count = add_u64 stats.blocks_processed_count 1;
    last_processed_block_height = block_height;
  }

  unfoldable pub next_epoch : CryptoHash → CryptoHash → Stats → Stats
  next_epoch current_epoch_id stats_epoch_id stats =
      if current_epoch_id == stats_epoch_id then stats else record stats {
        current_epoch_id = some current_epoch_id;
        current_epoch_height =
            if stats_epoch_id == 0 then 1 else add_u64 stats.current_epoch_height 1;
      }

  -- The statistics beside what the database and the node keep.
  abbrev pub Indexing : Type 0
  Indexing = Stats × db.State

  -- The statistics of a first block have the height of its epoch.
  abbrev pub first_epoch :
      CryptoHash → Stats → Result IndexedEpochInfo → db.State → Result {0} Unit × Indexing
  first_epoch current_epoch_id stats (ok epoch_info) s = (
    ok tt,
    (
      record stats {
        current_epoch_id = some current_epoch_id;
        current_epoch_height = epoch_info.epoch_height;
      },
      s,
    ),
  )
  first_epoch current_epoch_id stats (err e) s = (err e, (stats, s))
  first_epoch current_epoch_id stats (panic p) s = (panic p, (stats, s))

  unfoldable pub follow_epoch :
      CryptoHash → Option CryptoHash → Stats → db.State → Result {0} Unit × Indexing
  follow_epoch current_epoch_id (some stats_epoch_id) stats s =
      (ok tt, (next_epoch current_epoch_id stats_epoch_id stats, s))
  follow_epoch current_epoch_id none stats s =
      let (r, s') = get_epoch_info_by_id current_epoch_id s in
      first_epoch current_epoch_id stats r s'

  -- After the futures are joined: the gauge of the height takes an `i64`.
  abbrev pub finish :
      StreamerMessage → Stats → Result {0} Unit → db.State → Result {0} Unit × Indexing
  finish message stats (ok _) s = elim (i64_try_from message.block.header.height) [
    | ok _ ↦
        follow_epoch message.block.header.epoch_id stats.current_epoch_id
          (processed message.block.header.height stats) s
    | err e ↦ (err e, (stats, s))
    | panic p ↦ (panic p, (stats, s))
  ]
  finish message stats (err e) s = (err e, (stats, s))
  finish message stats (panic p) s = (panic p, (stats, s))

  unfoldable pub handle_streamer_message : StreamerMessage → Exec Indexing Unit
  handle_streamer_message message (stats, s) =
      let stats' = record stats {
        block_heights_processing =
            insert_height message.block.header.height stats.block_heights_processing;
      } in
      let (r, s') = save_message message stats' s in finish message stats' r s'
