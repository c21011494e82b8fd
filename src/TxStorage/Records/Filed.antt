-- ===== src/TxStorage/Records/Filed.antt =====
-- tx-indexer/src/storage.rs: every record waits under its own id, whatever is pushed and returned.
use mathlib.Core.Path.{subst}
use read_rpc.Prelude.{
  ◌≡◌, refl, Option-cases, some, inl, inr, List, [], ◌∷◌, map, All, Text, arith, text_eq, ℕ_eq, ite,
}
use read_rpc.Prelude.HashMap.{
  HashMap, lookup, insert, extend, upsert, modify, IsMap, lookup-upsert, lookup-modify,
  insert-IsMap,
}
use read_rpc.Views.{CryptoHash, AccountId, ShardId}
use read_rpc.Primitives.{ReceiptRecord, OutcomeRecord, BlockRecord}
use read_rpc.TxStorage.{CacheStorage, ReceiptsAndOutcomes}
use read_rpc.TxStorage.Records.{
  new_records, add_records, push_outcome_and_receipt_to_save, return_outcomes_to_save,
  return_receipts_to_save,
}
use read_rpc.TxStorage.Records.Drain.{IsFiled}

insert-All :
    {V : Type 0} (P : Text × V → Type 0) (k : Text) (v : V) (m : HashMap Text V)
    → P (k, v)
    → All P m
    → All P (insert k v m)
unfolding insert
insert-All P k v [] here there = (here, tt)
insert-All P k v ((j, w) ∷ m) here there =
    elim (text_eq.dec k j) as (λ d. All P (ite d ((k, v) ∷ m) ((j, w) ∷ insert k v m))) [
      | yes _ ↦ (here, there.1)
      | no _ ↦ (there.0, insert-All P k v m here there.1)
    ]

extend-IsMap : {V : Type 0} (l m : HashMap Text V) → IsMap m → IsMap (extend l m)
unfolding extend
extend-IsMap [] m once = once
extend-IsMap ((k, v) ∷ l) m once = extend-IsMap l (insert k v m) (insert-IsMap k v m once)

extend-All :
    {V : Type 0} (P : Text × V → Type 0) (l m : HashMap Text V)
    → All P l
    → All P m
    → All P (extend l m)
unfolding extend
extend-All P [] m hl hm = hm
extend-All P ((k, v) ∷ l) m hl hm = extend-All P l (insert k v m) hl.1 (insert-All P k v m hl.0 hm)

-- What holds of every value of a map, and is kept by a change, holds of every value after it.
module _ {V : Type 0} (P : V → Type 0) (k : ShardId) (f : V → V) (m : HashMap ShardId V)
    (step : (w : V) → P w → P (f w)) (all : (j : ShardId) (w : V) → lookup j m ≡ some w → P w) where
  upsert-holds : (v : V) (j : ShardId) (r : V) → P v → lookup j (upsert k f v m) ≡ some r → P r
  upsert-holds v j r fresh found = elim (ℕ_eq.dec k j) [
    | yes same ↦ elim (Option-cases (lookup k m)) [
      | inl missing ↦
          let put : v ≡ r = ground (arith, found, lookup-upsert k j f v m, missing) in
          subst P put fresh
      | inr (w, there) ↦
          let put : f w ≡ r = ground (arith, found, lookup-upsert k j f v m, there) in
          subst P put (step w (all k w there))
    ]
    | no other ↦ all j r (ground (arith, found, lookup-upsert k j f v m))
  ]

  modify-holds : (j : ShardId) (r : V) → lookup j (modify k f m) ≡ some r → P r
  modify-holds j r found = elim (ℕ_eq.dec k j) [
    | yes same ↦ elim (Option-cases (lookup k m)) [
      | inl missing ↦ absurd (ground (arith, found, lookup-modify k j f m, missing))
      | inr (w, there) ↦
          let put : f w ≡ r = ground (arith, found, lookup-modify k j f m, there) in
          subst P put (step w (all k w there))
    ]
    | no other ↦ all j r (ground (arith, found, lookup-modify k j f m))
  ]

module _ (to_string : CryptoHash → Text) where
  add_records-IsFiled :
      (receipt : ReceiptRecord) (outcome : OutcomeRecord) (r : ReceiptsAndOutcomes)
      → IsFiled to_string r
      → IsFiled to_string (add_records to_string receipt outcome r)
  unfolding add_records
  add_records-IsFiled receipt outcome r h = record {
    receipts_once = insert-IsMap (to_string receipt.receipt_id) receipt r.receipts h.receipts_once;
    receipts_by_id =
        insert-All _ (to_string receipt.receipt_id) receipt r.receipts refl h.receipts_by_id;
    outcomes_once = insert-IsMap (to_string outcome.outcome_id) outcome r.outcomes h.outcomes_once;
    outcomes_by_id =
        insert-All _ (to_string outcome.outcome_id) outcome r.outcomes refl h.outcomes_by_id;
  }

  new_records-IsFiled :
      (receipt : ReceiptRecord) (outcome : OutcomeRecord)
      → IsFiled to_string (new_records to_string receipt outcome)
  unfolding new_records insert lookup
  new_records-IsFiled receipt outcome = record {
    receipts_once = (refl, tt);
    receipts_by_id = (refl, tt);
    outcomes_once = (refl, tt);
    outcomes_by_id = (refl, tt);
  }

  outcomes_by_id-map :
      (os : List OutcomeRecord)
      → All {A = Text × OutcomeRecord}
          (λ e. e.0 ≡ to_string e.1.outcome_id)
          (map (λ o. (to_string o.outcome_id, o)) os)
  outcomes_by_id-map [] = tt
  outcomes_by_id-map (o ∷ os) = (refl, outcomes_by_id-map os)

  receipts_by_id-map :
      (rs : List ReceiptRecord)
      → All {A = Text × ReceiptRecord}
          (λ e. e.0 ≡ to_string e.1.receipt_id)
          (map (λ o. (to_string o.receipt_id, o)) rs)
  receipts_by_id-map [] = tt
  receipts_by_id-map (r ∷ rs) = (refl, receipts_by_id-map rs)

  -- What waits to be saved is filed in every shard.
  abbrev pub AllFiled : {R : Type 0} → CacheStorage R → Type 0
  AllFiled s =
      (shard_id : ShardId) (r : ReceiptsAndOutcomes)
      → lookup shard_id s.outcomes_and_receipts_to_save ≡ some r
      → IsFiled to_string r

  module _ {R : Type 0} (s : CacheStorage R) (filed : AllFiled s) where
    -- After a receipt and its outcome are pushed, and after receipts or outcomes that could not be
    -- saved are returned, each record still waits once and under its own id, if that is so before.
    pub records-AllFiled :
        (account_id_to_shard_id : AccountId → ShardId)
        (outcome_id receipt_id parent_tx_hash : CryptoHash) (receiver_id : AccountId)
        (block : BlockRecord) (shard_id : ShardId) (receipts : List ReceiptRecord)
        (outcomes : List OutcomeRecord)
        → AllFiled
            (push_outcome_and_receipt_to_save to_string account_id_to_shard_id outcome_id receipt_id
              parent_tx_hash receiver_id block shard_id s).1
          × AllFiled (return_outcomes_to_save to_string shard_id outcomes s).1
          × AllFiled (return_receipts_to_save to_string shard_id receipts s).1
    unfolding push_outcome_and_receipt_to_save return_outcomes_to_save return_receipts_to_save
    records-AllFiled account_id_to_shard_id outcome_id receipt_id parent_tx_hash receiver_id block
          shard_id receipts outcomes =
        (
          λ j r found.
              upsert-holds (IsFiled to_string) _ _ s.outcomes_and_receipts_to_save
                (λ w h. add_records-IsFiled _ _ w h) filed _ j r (new_records-IsFiled _ _) found,
          λ j r found.
              modify-holds (IsFiled to_string) shard_id _ s.outcomes_and_receipts_to_save
                (λ w h. returned_outcomes w h) filed j r found,
          λ j r found.
              modify-holds (IsFiled to_string) shard_id _ s.outcomes_and_receipts_to_save
                (λ w h. returned_receipts w h) filed j r found,
        )
      where
        returned_outcomes :
            (w : ReceiptsAndOutcomes)
            → IsFiled to_string w
            → IsFiled to_string (record w {
              outcomes = extend (map (λ o. (to_string o.outcome_id, o)) outcomes) w.outcomes;
            })
        returned_outcomes w h = record {
          receipts_once = h.receipts_once;
          receipts_by_id = h.receipts_by_id;
          outcomes_once = extend-IsMap _ w.outcomes h.outcomes_once;
          outcomes_by_id = extend-All _ _ w.outcomes (outcomes_by_id-map outcomes) h.outcomes_by_id;
        }

        returned_receipts :
            (w : ReceiptsAndOutcomes)
            → IsFiled to_string w
            → IsFiled to_string (record w {
              receipts = extend (map (λ o. (to_string o.receipt_id, o)) receipts) w.receipts;
            })
        returned_receipts w h = record {
          receipts_once = extend-IsMap _ w.receipts h.receipts_once;
          receipts_by_id = extend-All _ _ w.receipts (receipts_by_id-map receipts) h.receipts_by_id;
          outcomes_once = h.outcomes_once;
          outcomes_by_id = h.outcomes_by_id;
        }
