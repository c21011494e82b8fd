-- ===== src/TxStorage/Records/Drain.antt =====
-- tx-indexer/src/storage.rs: the records that are handed out to be saved.
use read_rpc.Prelude.{
  ◌≡◌, refl, ap, ◌∙◌, Option, none, some, [], ◌∷◌, All, Text, arith, text_eq, ℕ_eq,
}
use read_rpc.Prelude.HashMap.{
  HashMap, lookup, remove, modify, values, IsMap, lookup-insert, lookup-modify, remove_absent,
  insert-IsMap,
}
use read_rpc.Prelude.Outcome.{ok}
use read_rpc.Views.{CryptoHash, ShardId}
use read_rpc.Primitives.{ReceiptRecord, OutcomeRecord}
use read_rpc.TxStorage.{CacheStorage, ReceiptsAndOutcomes}
use read_rpc.TxStorage.Records.{
  ReceiptsAndOutcomesToSave, to_save, Queue, drop_receipts, drop_outcomes, drop_saved, snapshot,
  drop_snapshot, take_outcomes_and_receipts_to_save,
}

-- A key that comes first and only once.
remove-first :
    {V : Type 0} (j k : Text) (v : V) (m : HashMap Text V)
    → k ≡ j
    → lookup k m ≡ none
    → remove j ((k, v) ∷ m) ≡ m
unfolding remove
remove-first j k v m same absent = ground (arith, remove_absent j m)

module _ (to_string : CryptoHash → Text) where
  -- Each record of a shard is filed once, under the text of its own id.
  pub record IsFiled (r : ReceiptsAndOutcomes) : Type 0 where
    pub receipts_once : IsMap r.receipts
    pub receipts_by_id : All (λ e. e.0 ≡ to_string e.1.receipt_id) r.receipts
    pub outcomes_once : IsMap r.outcomes
    pub outcomes_by_id : All (λ e. e.0 ≡ to_string e.1.outcome_id) r.outcomes

  drop_receipts-values :
      (m : HashMap Text ReceiptRecord)
      → IsMap m
      → All (λ e. e.0 ≡ to_string e.1.receipt_id) m
      → drop_receipts to_string (values m) m ≡ []
  unfolding drop_receipts
  drop_receipts-values [] once by_id = refl
  drop_receipts-values ((k, v) ∷ m) once by_id =
      ap (drop_receipts to_string (values m))
        (remove-first (to_string v.receipt_id) k v m by_id.0 once.0)
      ∙ drop_receipts-values m once.1 by_id.1

  drop_outcomes-values :
      (m : HashMap Text OutcomeRecord)
      → IsMap m
      → All (λ e. e.0 ≡ to_string e.1.outcome_id) m
      → drop_outcomes to_string (values m) m ≡ []
  unfolding drop_outcomes
  drop_outcomes-values [] once by_id = refl
  drop_outcomes-values ((k, v) ∷ m) once by_id =
      ap (drop_outcomes to_string (values m))
        (remove-first (to_string v.outcome_id) k v m by_id.0 once.0)
      ∙ drop_outcomes-values m once.1 by_id.1

  snapshot_lem :
      (shard_id : ShardId) (queue : Queue)
      → lookup shard_id (snapshot to_string queue)
        ≡ elim (lookup shard_id queue) [ none ↦ none | some r ↦ some (to_save r) ]
  unfolding snapshot lookup
  snapshot_lem shard_id [] = refl
  snapshot_lem shard_id ((id, r) ∷ queue) = ground (
    arith,
    snapshot_lem shard_id queue,
    lookup-insert id shard_id (to_save r) (snapshot to_string queue),
  )

  snapshot-IsMap : (queue : Queue) → IsMap (snapshot to_string queue)
  unfolding snapshot
  snapshot-IsMap [] = tt
  snapshot-IsMap ((id, r) ∷ queue) =
      insert-IsMap id (to_save r) (snapshot to_string queue) (snapshot-IsMap queue)

  abbrev dropped :
      Option ReceiptsAndOutcomesToSave → Option ReceiptsAndOutcomes → Option ReceiptsAndOutcomes
  dropped none r = r
  dropped (some saved) none = none
  dropped (some saved) (some r) = some (drop_saved to_string saved r)

  lookup-drop_snapshot :
      (shard_id : ShardId) (saved : HashMap ShardId ReceiptsAndOutcomesToSave) (queue : Queue)
      → IsMap saved
      → lookup shard_id (drop_snapshot to_string saved queue)
        ≡ dropped (lookup shard_id saved) (lookup shard_id queue)
  unfolding drop_snapshot lookup
  lookup-drop_snapshot shard_id [] queue once = refl
  lookup-drop_snapshot shard_id ((id, s) ∷ saved) queue once = ground (
    arith,
    once.0,
    lookup-drop_snapshot shard_id saved (modify id (drop_saved to_string s) queue) once.1,
    lookup-modify id shard_id (drop_saved to_string s) queue,
  )

  -- The records of a shard that are handed out to be saved are all the records that wait there, and
  -- none of them waits any more, if each is filed under its own id.
  pub take_outcomes_and_receipts_to_save-drains :
      {R : Type 0} (s : CacheStorage R) (shard_id : ShardId) (r : ReceiptsAndOutcomes)
      → lookup shard_id s.outcomes_and_receipts_to_save ≡ some r
      → IsFiled r
      → let saved = snapshot to_string s.outcomes_and_receipts_to_save in
        ((take_outcomes_and_receipts_to_save to_string s).0 ≡ ok saved)
        × (lookup shard_id saved
            ≡ some (record { receipts = values r.receipts; outcomes = values r.outcomes }))
        × (lookup shard_id
              (take_outcomes_and_receipts_to_save to_string s).1.outcomes_and_receipts_to_save
            ≡ some (record { receipts = []; outcomes = [] }))
  unfolding take_outcomes_and_receipts_to_save to_save drop_saved
  take_outcomes_and_receipts_to_save-drains s shard_id r waiting filed =
      let queue = s.outcomes_and_receipts_to_save in
      (
        refl,
        ground (arith, snapshot_lem shard_id queue),
        ground (
          arith,
          snapshot_lem shard_id queue,
          lookup-drop_snapshot shard_id (snapshot to_string queue) queue (snapshot-IsMap queue),
          drop_receipts-values r.receipts filed.receipts_once filed.receipts_by_id,
          drop_outcomes-values r.outcomes filed.outcomes_once filed.outcomes_by_id,
        ),
      )
